-- ===== src/Base/Sets.antt =====
-- `std::set<int>`: an ascending list.
use Prim.Native.Nat.{ℕ, suc, ◌≤◌, ◌<◌}
use mathlib.Core.Path.{◌≡◌, refl}
use mathlib.Core.Bool.{false}
use mathlib.Core.List.{List, [], ◌∷◌}
use native.Mathlib.Omega.{arith}
use tangram.Base.Tests.{if◌then◌else◌}
use tangram.Base.Lists.{length, member, insert, remove}

abbrev pub AscendsFrom : ℕ → List ℕ → Type 0
AscendsFrom b [] = Unit
AscendsFrom b (x ∷ xs) = (b ≤ x) × AscendsFrom (suc x) xs

abbrev pub IsAscending : List ℕ → Type 0
IsAscending xs = AscendsFrom 0 xs

member_below : (a b : ℕ) (xs : List ℕ) → a < b → AscendsFrom b xs → member a xs ≡ false
unfolding member
member_below a b [] h s = refl
member_below a b (x ∷ xs) h s = ground (arith, member_below a (suc x) xs (omega arith) s.1)

AscendsFrom-mono : (b c : ℕ) (xs : List ℕ) → b ≤ c → AscendsFrom c xs → AscendsFrom b xs
AscendsFrom-mono b c [] h s = tt
AscendsFrom-mono b c (x ∷ xs) h s = (omega arith, s.1)

insert-AscendsFrom :
    (b a : ℕ) (xs : List ℕ) → b ≤ a → AscendsFrom b xs → AscendsFrom b (insert a xs)
unfolding insert
insert-AscendsFrom b a [] h s = (h, tt)
insert-AscendsFrom b a (x ∷ xs) h s = ground (
  arith,
  AscendsFrom-mono (suc a) (suc x) xs,
  λ (p : suc x ≤ a). insert-AscendsFrom (suc x) a xs p s.1,
)

pub insert-IsAscending : (a : ℕ) (xs : List ℕ) → IsAscending xs → IsAscending (insert a xs)
insert-IsAscending a xs s = insert-AscendsFrom 0 a xs (omega arith) s

length-insert_from :
    (b a : ℕ) (xs : List ℕ)
    → AscendsFrom b xs
    → length (insert a xs) ≡ (if member a xs then length xs else suc (length xs))
unfolding insert member
length-insert_from b a [] s = refl
length-insert_from b a (x ∷ xs) s =
    ground (
      arith,
      length-insert_from (suc x) a xs s.1,
      λ (p : a < suc x). member_below a (suc x) xs p s.1,
    )

pub length-insert :
    (a : ℕ) (xs : List ℕ)
    → IsAscending xs
    → length (insert a xs) ≡ (if member a xs then length xs else suc (length xs))
length-insert a xs s = length-insert_from 0 a xs s

remove-AscendsFrom : (b a : ℕ) (xs : List ℕ) → AscendsFrom b xs → AscendsFrom b (remove a xs)
unfolding remove
remove-AscendsFrom b a [] s = tt
remove-AscendsFrom b a (x ∷ xs) s =
    ground (arith, remove-AscendsFrom (suc x) a xs s.1, AscendsFrom-mono b (suc x) (remove a xs))

-- A set is empty if it has no member.
pub no_member : (xs : List ℕ) → ((a : ℕ) → member a xs ≡ false) → length xs ≡ 0
unfolding member
no_member [] h = refl
no_member (x ∷ xs) h = ground (arith, h x)

pub member_none : (a : ℕ) (xs : List ℕ) → length xs ≡ 0 → member a xs ≡ false
unfolding member
member_none a [] h = refl
member_none a (x ∷ xs) h = absurd (omega arith)
