-- ===== src/Scheduler/ControlManager/Migration/Recount.antt =====
-- The search for a node's least version in core/scheduler/control_manager.cpp, and the count at a version, against the counts
-- over the map of versions.
use tangram.Base.{
  ℕ, zero, suc, ◌+◌, ◌≤◌, ◌<◌, ◌&&◌, some, List, [], ◌∷◌, Map, ◌≡◌, refl, ap, ◌∙◌, inl, inr, ◌⊎◌,
  lookup, get, has, get_elem?, ltb, leb, length, sum, arith, ◌==◌, if◌then◌else◌, Bool-cases, Above,
  IsSorted, lookup_below,
}
use tangram.Scheduler.Tracker.{count_parts}
use tangram.Scheduler.ControlManager.Migration.{least_on, count_on}

least_on-le : (i : ℕ) (ks : List ℕ) (n : ℕ) (parts : Map ℕ) (m : ℕ) → least_on i ks n parts m ≤ m
unfolding least_on
least_on-le i [] n parts m = omega arith
least_on-le i (k ∷ ks) n parts m = ground (
  arith,
  least_on-le (suc i) ks n parts (if k == n && ltb (get 0 i parts) m then get 0 i parts else m),
)

-- The result is below the version of each partition of the node.
pub least_on-below :
    (i : ℕ) (ks : List ℕ) (n : ℕ) (parts : Map ℕ) (m j : ℕ)
    → get_elem? ks j ≡ some n
    → least_on i ks n parts m ≤ get 0 (i + j) parts
unfolding least_on
least_on-below i [] n parts m j h = cc
least_on-below i (k ∷ ks) n parts m zero h =
    let start = if k == n && ltb (get 0 i parts) m then get 0 i parts else m in
    let same : get 0 (i + 0) parts ≡ get 0 i parts = ap (λ x. get 0 x parts) (omega arith) in
    ground (arith, least_on-le (suc i) ks n parts start, same)
least_on-below i (k ∷ ks) n parts m (suc j) h =
    let start = if k == n && ltb (get 0 i parts) m then get 0 i parts else m in
    let same : get 0 (i + suc j) parts ≡ get 0 (suc i + j) parts =
      ap (λ x. get 0 x parts) (omega arith) in
    ground (arith, least_on-below (suc i) ks n parts start j h, same)

-- It is the start, or the version of a partition of the node.
pub least_on-found :
    (i : ℕ) (ks : List ℕ) (n : ℕ) (parts : Map ℕ) (m : ℕ)
    → (least_on i ks n parts m ≡ m)
      ⊎ ((j : ℕ) × (get_elem? ks j ≡ some n) × (least_on i ks n parts m ≡ get 0 (i + j) parts))
unfolding least_on
least_on-found i [] n parts m = inl refl
least_on-found i (k ∷ ks) n parts m = elim (Bool-cases (k == n && ltb (get 0 i parts) m)) [
  | inr skipped ↦ elim (least_on-found (suc i) ks n parts m) [
    | inl e ↦ inl (rw skipped e)
    | inr (j, h, e) ↦ inr (suc j, h, rw skipped (e ∙ ap (λ x. get 0 x parts) (omega arith)))
  ]
  | inl taken ↦ elim (least_on-found (suc i) ks n parts (get 0 i parts)) [
    | inl e ↦ inr (zero, ground arith, rw taken (e ∙ ap (λ x. get 0 x parts) (omega arith)))
    | inr (j, h, e) ↦ inr (suc j, h, rw taken (e ∙ ap (λ x. get 0 x parts) (omega arith)))
  ]
]

get-above : (j i w : ℕ) (m : Map ℕ) → i < j → get 0 j ((i, w) ∷ m) ≡ get 0 j m
unfolding get lookup
get-above j i w m h = ground arith

count_on-above :
    (i j : ℕ) (ks : List ℕ) (n v w : ℕ) (m : Map ℕ)
    → j < i
    → count_on i ks n v ((j, w) ∷ m) ≡ count_on i ks n v m
unfolding count_on
count_on-above i j [] n v w m h = refl
count_on-above i j (k ∷ ks) n v w m h =
    ground (arith, get-above i j w m h, count_on-above (suc i) j ks n v w m (omega arith))

count_on-sum :
    (all : List ℕ) (n v i : ℕ) (ks : List ℕ) (parts : Map ℕ)
    → ((j : ℕ) → get_elem? all (i + j) ≡ get_elem? ks j)
    → Above i parts
    → ((p : ℕ) → has p parts ≡ (leb i p && ltb p (i + length ks)))
    → count_on i ks n v parts ≡ count_parts all n v parts
unfolding count_on count_parts sum lookup has get
count_on-sum all n v i [] [] h a s = refl
count_on-sum all n v i [] ((j, w) ∷ parts) h a s = absurd (ground (arith, s j))
count_on-sum all n v i (k ∷ ks) [] h a s = absurd (ground (arith, s i))
count_on-sum all n v i (k ∷ ks) ((j, w) ∷ parts) h a s =
    let first : j ≡ i = ground (arith, s j, s i, lookup_below i (suc j) parts, a.0) in
    let here : get_elem? all i ≡ some k = ap (get_elem? all) (omega arith) ∙ h 0 in
    let above : Above (suc i) parts = rw (← first) a.1 in
    ground (
      arith,
      first,
      here,
      count_on-above (suc i) j ks n v w parts (omega (arith, first)),
      count_on-sum all n v (suc i) ks parts
          (λ x. rw (← h (suc x)) (ap (get_elem? all) (omega arith))) above
          (λ p. ground (arith, s p, first, lookup_below p (suc j) parts, a.1)),
    )

-- Counting over the partitions by number is counting over the map.
pub count_on_lem :
    (all : List ℕ) (n v : ℕ) (parts : Map ℕ)
    → IsSorted parts
    → ((p : ℕ) → has p parts ≡ ltb p (length all))
    → count_on 0 all n v parts ≡ count_parts all n v parts
count_on_lem all n v parts sorted h =
    count_on-sum all n v 0 all parts (λ j. ap (get_elem? all) (omega arith)) sorted
      (λ p. ground (arith, h p))
