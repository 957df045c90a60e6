-- ===== src/Base/Maps.antt =====
-- `std::map<int, V>`: an association list by ascending keys. `std::unordered_map` is modelled so too.
use Prim.Native.Nat.{ℕ, suc, ◌≤◌, ◌<◌}
use mathlib.Core.Path.{◌≡◌, refl}
use mathlib.Core.Bool.{Bool, true, false, ◌||◌}
use mathlib.Core.Option.{Option, none, some}
use mathlib.Core.List.{List, [], ◌∷◌}
use native.Mathlib.Omega.{arith}
use tangram.Base.Tests.{ltb, ◌==◌, if◌then◌else◌}

abbrev pub Map {ℓ} : Type ℓ → Type ℓ
Map V = List (ℕ × V)

module _ {ℓ} {V : Type ℓ} where
  unfoldable pub lookup : ℕ → Map V → Option V
  lookup k [] = none
  lookup k ((j, w) ∷ m) = if j == k then some w else lookup k m

  -- `m[k] = v`.
  unfoldable pub set : ℕ → V → Map V → Map V
  set k v [] = (k, v) ∷ []
  set k v ((j, w) ∷ m) =
      let rest = (j, w) ∷ set k v m in
      if j == k then (k, v) ∷ m else if ltb k j then (k, v) ∷ (j, w) ∷ m else rest

  -- `m.insert({k, v})`: an entry that is there stays.
  unfoldable pub insert_new : ℕ → V → Map V → Map V
  unfolding lookup set
  insert_new k v m = elim (lookup k m) [ none ↦ set k v m | some w ↦ m ]

  unfoldable pub erase : ℕ → Map V → Map V
  erase k [] = []
  erase k ((j, w) ∷ m) = let rest = erase k m in if j == k then rest else (j, w) ∷ rest

  -- The value that `m[k]` reads: a missing entry has the default value.
  unfoldable pub get : V → ℕ → Map V → V
  unfolding lookup
  get d k m = elim (lookup k m) [ none ↦ d | some v ↦ v ]

  unfoldable pub has : ℕ → Map V → Bool
  unfolding lookup
  has k m = elim (lookup k m) [ none ↦ false | some v ↦ true ]

  unfoldable pub size : Map V → ℕ
  size [] = 0
  size (e ∷ m) = suc (size m)

  unfoldable pub keys : Map V → List ℕ
  keys [] = []
  keys ((k, v) ∷ m) = k ∷ keys m

  pub lookup-set :
      (j k : ℕ) (v : V) (m : Map V) → lookup j (set k v m) ≡ (if k == j then some v else lookup j m)
  unfolding lookup set
  lookup-set j k v [] = refl
  lookup-set j k v ((i, w) ∷ m) = ground (arith, lookup-set j k v m)

  pub lookup-set_self : (k : ℕ) (v : V) (m : Map V) → lookup k (set k v m) ≡ some v
  lookup-set_self k v m = ground (arith, lookup-set k k v m)

  pub lookup-erase :
      (j k : ℕ) (m : Map V) → lookup j (erase k m) ≡ (if k == j then none else lookup j m)
  unfolding lookup erase
  lookup-erase j k [] = ground arith
  lookup-erase j k ((i, w) ∷ m) = ground (arith, lookup-erase j k m)

  pub get-some : (d : V) (k : ℕ) (m : Map V) {v : V} → lookup k m ≡ some v → get d k m ≡ v
  unfolding get
  get-some d k m e = ground arith

  pub has-some : (k : ℕ) (m : Map V) {v : V} → lookup k m ≡ some v → has k m ≡ true
  unfolding has
  has-some k m e = ground arith

  pub has-none : (k : ℕ) (m : Map V) → lookup k m ≡ none → has k m ≡ false
  unfolding has
  has-none k m e = ground arith

  -- The keys ascend, from `b` on.
  abbrev pub Above : ℕ → Map V → Type 0
  Above b [] = Unit
  Above b ((k, v) ∷ m) = (b ≤ k) × Above (suc k) m

  abbrev pub IsSorted : Map V → Type 0
  IsSorted m = Above 0 m

  pub Above-mono : (b c : ℕ) (m : Map V) → b ≤ c → Above c m → Above b m
  Above-mono b c [] h a = tt
  Above-mono b c ((k, v) ∷ m) h a = (omega arith, a.1)

  pub lookup_below : (k b : ℕ) (m : Map V) → k < b → Above b m → lookup k m ≡ none
  unfolding lookup
  lookup_below k b [] h a = refl
  lookup_below k b ((j, w) ∷ m) h a = ground (arith, lookup_below k (suc j) m (omega arith) a.1)

  pub Above-set : (b k : ℕ) (v : V) (m : Map V) → b ≤ k → Above b m → Above b (set k v m)
  unfolding set
  Above-set b k v [] h a = (h, tt)
  Above-set b k v ((j, w) ∷ m) h a =
      ground (arith, Above-mono (suc k) (suc j) m, λ (p : suc j ≤ k). Above-set (suc j) k v m p a.1)

  pub Above-erase : (b k : ℕ) (m : Map V) → Above b m → Above b (erase k m)
  unfolding erase
  Above-erase b k [] a = tt
  Above-erase b k ((j, w) ∷ m) a =
      ground (arith, Above-erase (suc j) k m a.1, Above-mono b (suc j) (erase k m))

  pub get-set :
      (d : V) (j k : ℕ) (v : V) (m : Map V)
      → get d j (set k v m) ≡ (if k == j then v else get d j m)
  unfolding get
  get-set d j k v m = ground (arith, lookup-set j k v m)

  pub get-erase :
      (d : V) (j k : ℕ) (m : Map V) → get d j (erase k m) ≡ (if k == j then d else get d j m)
  unfolding get
  get-erase d j k m = ground (arith, lookup-erase j k m)

  pub get-none : (d : V) (k : ℕ) (m : Map V) → lookup k m ≡ none → get d k m ≡ d
  unfolding get
  get-none d k m e = ground arith

  -- The map after `m[k]` was read: a missing entry has been made.
  unfoldable pub touch : V → ℕ → Map V → Map V
  unfolding get set
  touch d k m = set k (get d k m) m

  pub get-touch : (d : V) (j k : ℕ) (m : Map V) → get d j (touch d k m) ≡ get d j m
  unfolding touch
  get-touch d j k m = ground (arith, get-set d j k (get d k m) m)

  pub lookup-touch :
      (d : V) (j k : ℕ) (m : Map V) → has k m ≡ true → lookup j (touch d k m) ≡ lookup j m
  unfolding touch has get
  lookup-touch d j k m h = ground (arith, lookup-set j k (get d k m) m)

  pub has-set : (k j : ℕ) (v : V) (m : Map V) → has k (set j v m) ≡ (j == k || has k m)
  unfolding has
  has-set k j v m = ground (arith, lookup-set k j v m)

  pub has-touch : (d : V) (k j : ℕ) (m : Map V) → has k (touch d j m) ≡ (j == k || has k m)
  unfolding touch
  has-touch d k j m = has-set k j (get d j m) m

  pub lookup-has : (d : V) (k : ℕ) (m : Map V) → has k m ≡ true → lookup k m ≡ some (get d k m)
  unfolding has get
  lookup-has d k m h = ground arith

  pub has-false : (k : ℕ) (m : Map V) → has k m ≡ false → lookup k m ≡ none
  unfolding has
  has-false k m h = ground arith

  pub has-erase : (k j : ℕ) (m : Map V) → has k (erase j m) ≡ (if j == k then false else has k m)
  unfolding has
  has-erase k j m = ground (arith, lookup-erase k j m)

  pub lookup-insert_new :
      (j k : ℕ) (v : V) (m : Map V)
      → lookup k m ≡ none
      → lookup j (insert_new k v m) ≡ (if k == j then some v else lookup j m)
  unfolding insert_new
  lookup-insert_new j k v m e = ground (arith, lookup-set j k v m)
