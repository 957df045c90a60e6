-- ===== src/Base/Lists.antt =====
-- Vectors and sets of integers.
use Prim.Native.Nat.{ℕ, zero, suc, ◌+◌}
use mathlib.Core.Path.{◌≡◌, refl}
use mathlib.Core.Bool.{Bool, true, false, ◌||◌}
use mathlib.Core.Option.{Option, none, some}
use mathlib.Core.List.{List, [], ◌∷◌, ◌++◌}
use native.Mathlib.Omega.{arith}
use tangram.Base.Tests.{ltb, ◌==◌, if◌then◌else◌}

module _ {ℓ} {A : Type ℓ} where
  abbrev pub length : List A → ℕ
  length [] = 0
  length (x ∷ xs) = suc (length xs)

  abbrev pub get_elem? : List A → ℕ → Option A
  get_elem? [] i = none
  get_elem? (x ∷ xs) zero = some x
  get_elem? (x ∷ xs) (suc i) = get_elem? xs i

  -- A write out of bounds changes nothing.
  abbrev pub write_at : List A → ℕ → A → List A
  write_at [] i v = []
  write_at (x ∷ xs) zero v = v ∷ xs
  write_at (x ∷ xs) (suc i) v = x ∷ write_at xs i v

  pub length-append : (xs ys : List A) → length (xs ++ ys) ≡ length xs + length ys
  length-append [] ys = omega arith
  length-append (x ∷ xs) ys = omega (arith, length-append xs ys)

module _ {ℓ} {A : Type ℓ} where
  pub lt-length : (xs : List A) (i : ℕ) {a : A} → get_elem? xs i ≡ some a → ltb i (length xs) ≡ true
  lt-length [] i h = cc
  lt-length (x ∷ xs) zero h = ground arith
  lt-length (x ∷ xs) (suc i) h = ground (arith, lt-length xs i h)

  pub get_elem?-some :
      (xs : List A) (i : ℕ) → ltb i (length xs) ≡ true → (a : A) × (get_elem? xs i ≡ some a)
  get_elem?-some [] i h = absurd (ground arith)
  get_elem?-some (x ∷ xs) zero h = (x, refl)
  get_elem?-some (x ∷ xs) (suc i) h = get_elem?-some xs i (ground arith)

  pub get_elem?-write_at :
      (xs : List A) (i j : ℕ) (v : A)
      → ltb i (length xs) ≡ true
      → get_elem? (write_at xs i v) j ≡ (if i == j then some v else get_elem? xs j)
  get_elem?-write_at [] i j v h = absurd (ground arith)
  get_elem?-write_at (x ∷ xs) zero zero v h = refl
  get_elem?-write_at (x ∷ xs) zero (suc j) v h = ground arith
  get_elem?-write_at (x ∷ xs) (suc i) zero v h = ground arith
  get_elem?-write_at (x ∷ xs) (suc i) (suc j) v h = ground (arith, get_elem?-write_at xs i j v)

  pub length-write_at : (xs : List A) (i : ℕ) (v : A) → length (write_at xs i v) ≡ length xs
  length-write_at [] i v = refl
  length-write_at (x ∷ xs) zero v = refl
  length-write_at (x ∷ xs) (suc i) v = ground (arith, length-write_at xs i v)

unfoldable pub member : ℕ → List ℕ → Bool
member a [] = false
member a (x ∷ xs) = x == a || member a xs

unfoldable pub count : ℕ → List ℕ → ℕ
count a [] = 0
count a (x ∷ xs) = (if x == a then 1 else 0) + count a xs

-- `std::set<int>`, ascending.
unfoldable pub insert : ℕ → List ℕ → List ℕ
insert a [] = a ∷ []
insert a (x ∷ xs) =
    let rest = x ∷ insert a xs in if x == a then x ∷ xs else if ltb a x then a ∷ x ∷ xs else rest

unfoldable pub remove : ℕ → List ℕ → List ℕ
remove a [] = []
remove a (x ∷ xs) = let rest = remove a xs in if x == a then rest else x ∷ rest

pub member-insert : (a b : ℕ) (xs : List ℕ) → member a (insert b xs) ≡ (b == a || member a xs)
unfolding member insert
member-insert a b [] = refl
member-insert a b (x ∷ xs) = ground (arith, member-insert a b xs)

pub member-remove :
    (a b : ℕ) (xs : List ℕ) → member a (remove b xs) ≡ (if b == a then false else member a xs)
unfolding member remove
member-remove a b [] = ground arith
member-remove a b (x ∷ xs) = ground (arith, member-remove a b xs)

pub count-append : (a : ℕ) (xs ys : List ℕ) → count a (xs ++ ys) ≡ count a xs + count a ys
unfolding count
count-append a [] ys = omega arith
count-append a (x ∷ xs) ys = omega (arith, count-append a xs ys)

pub member-append : (a : ℕ) (xs ys : List ℕ) → member a (xs ++ ys) ≡ (member a xs || member a ys)
unfolding member
member-append a [] ys = refl
member-append a (x ∷ xs) ys = ground (arith, member-append a xs ys)

-- `0, 1, …` from `i` on, `n` of them.
unfoldable pub range : ℕ → ℕ → List ℕ
range i zero = []
range i (suc n) = i ∷ range (suc i) n
