-- ===== src/Base/Sums.antt =====
-- Sums over the entries of a map, and how an update moves them.
use Prim.Native.Nat.{ℕ, zero, suc, ◌+◌, ◌≤◌, ◌<◌}
use mathlib.Core.Path.{◌≡◌, refl, sym, ◌∙◌}
use mathlib.Core.Logic.{◌≢◌}
use native.Mathlib.Decide.{ℕ_discrete}
use mathlib.Core.Option.{none, some}
use mathlib.Core.List.{[], ◌∷◌}
use native.Mathlib.Omega.{arith}
use tangram.Base.Maps.{Map, lookup, set, erase, Above, lookup_below}

module _ {ℓ} {V : Type ℓ} (f : ℕ → V → ℕ) where
  unfoldable pub sum : Map V → ℕ
  sum [] = 0
  sum ((k, v) ∷ m) = f k v + sum m

  pub sum-set_new :
      (k : ℕ) (v : V) (m : Map V) → lookup k m ≡ none → sum (set k v m) ≡ f k v + sum m
  unfolding sum set lookup
  sum-set_new k v [] h = refl
  sum-set_new k v ((j, w) ∷ m) h = ground (arith, sum-set_new k v m)

  pub sum-set_old :
      (b k : ℕ) (v old : V) (m : Map V)
      → Above b m
      → lookup k m ≡ some old
      → sum (set k v m) + f k old ≡ sum m + f k v
  unfolding sum set lookup
  sum-set_old b k v old [] a h = cc
  sum-set_old b k v old ((j, w) ∷ m) a h =
      ground (arith, sum-set_old (suc j) k v old m a.1, lookup_below k (suc j) m)

  pub sum-erase_new : (k : ℕ) (m : Map V) → lookup k m ≡ none → sum (erase k m) ≡ sum m
  unfolding sum erase lookup
  sum-erase_new k [] h = refl
  sum-erase_new k ((j, w) ∷ m) h = ground (arith, sum-erase_new k m)

  pub sum-erase_old :
      (b k : ℕ) (old : V) (m : Map V)
      → Above b m
      → lookup k m ≡ some old
      → sum (erase k m) + f k old ≡ sum m
  unfolding sum erase lookup
  sum-erase_old b k old [] a h = cc
  sum-erase_old b k old ((j, w) ∷ m) a h =
      ground (arith, sum-erase_old (suc j) k old m a.1, lookup_below k (suc j) m, sum-erase_new k m)

  -- An entry counts.
  pub sum_le : (k : ℕ) (v : V) (m : Map V) → lookup k m ≡ some v → f k v ≤ sum m
  unfolding sum lookup
  sum_le k v [] h = cc
  sum_le k v ((j, w) ∷ m) h = ground (arith, sum_le k v m)

  -- A sum with no part is zero, and a sum with none left has no part.
  pub sum_zero :
      (m : Map V)
      → ((k : ℕ) (v : V) → lookup k m ≡ some v → f k v ≡ 0)
      → (b : ℕ) → Above b m
      → sum m ≡ 0
  unfolding sum lookup
  sum_zero [] h b a = refl
  sum_zero ((j, w) ∷ m) h b a =
      let rest =
        sum_zero m (λ k v e. h k v (ground (arith, lookup_below k (suc j) m))) (suc j) a.1 in
      ground (arith, h j w)

  -- A positive sum has a part.
  pub sum_pos :
      (b : ℕ) (m : Map V)
      → Above b m
      → 0 < sum m
      → (k : ℕ) × (v : V) × (lookup k m ≡ some v) × (0 < f k v)
  unfolding sum lookup
  sum_pos b [] a h = absurd (omega arith)
  sum_pos b ((j, w) ∷ m) a h =
      elim (f j w)
          as (λ n. f j w ≡ n → (k : ℕ) × (v : V) × (lookup k ((j, w) ∷ m) ≡ some v) × (0 < f k v)) [
            | zero ↦ λ e.
                let (k, v, found, pos) = sum_pos (suc j) m a.1 (omega arith) in
                (k, v, ground (arith, lookup_below k (suc j) m), pos)
            | suc n ↦ λ e. (j, w, ground arith, omega arith)
          ]
        refl

-- Two functions that agree off a key which the map has not, have the same sum.
sum_same {ℓ} :
    {V : Type ℓ} (f g : ℕ → V → ℕ) (b k : ℕ) (m : Map V)
    → Above b m
    → k < b
    → ((j : ℕ) (w : V) → j ≢ k → f j w ≡ g j w)
    → sum f m ≡ sum g m
unfolding sum
sum_same f g b k [] a lt h = refl
sum_same f g b k ((j, w) ∷ m) a lt h =
    ground (arith, sum_same f g (suc j) k m a.1 (omega arith) h, h j w (omega arith))

-- Two sums that differ at one key only.
pub sum-change {ℓ} :
    {V : Type ℓ} (f g : ℕ → V → ℕ) (b k : ℕ) (v : V) (m : Map V)
    → Above b m
    → lookup k m ≡ some v
    → ((j : ℕ) (w : V) → j ≢ k → f j w ≡ g j w)
    → sum g m + f k v ≡ sum f m + g k v
unfolding sum lookup
sum-change f g b k v [] a e h = cc
sum-change f g b k v ((j, w) ∷ m) a e h = elim (ℕ_discrete j k) [
  | yes hit ↦
      let rest =
        sum_same f g (suc j) j m a.1 (omega arith) (λ i x ne. h i x (λ e. ne (e ∙ sym hit))) in
      ground (arith, rest, sum-change f g (suc j) k v m a.1)
  | no miss ↦ ground (arith, sum-change f g (suc j) k v m a.1 (ground arith) h, h j w miss)
]
