-- ===== src/Worker/IndexedSeqPartition.antt =====
-- core/partition/indexed_seq_partition.hpp: a partition of objects with keys, and what plans do on it through
-- core/plan/update_helper.hpp and core/plan/collection.hpp. An object is its key and the rest; a pointer to an object is its
-- position. Keys are numbers, `make` is the constructor of an object from its key, and `std::sort` is a parameter.
use tangram.Base.{
  ℕ, zero, suc, ◌+◌, ◌-◌, ◌==◌, ltb, if◌then◌else◌, Option, some, none, List, [], ◌∷◌, ◌++◌, length,
  get_elem?, write_at, Map, lookup, set, size, ◌>>=◌,
}
pub mod Messages
pub mod Sorted

pub record IndexedSeqPartition {ℓ} (V : Type ℓ) : Type ℓ where
  pub storage : List (ℕ × V)
  pub unsorted : Map ℕ
  pub sorted_size : ℕ

module _ {ℓ} {V : Type ℓ} where
  abbrev pub empty_partition : IndexedSeqPartition V
  empty_partition = record { storage = []; unsorted = []; sorted_size = 0 }

  unfoldable pub typed_add : ℕ × V → IndexedSeqPartition V → IndexedSeqPartition V
  typed_add o p = record p {
    storage = p.storage ++ o ∷ [];
    unsorted = set o.0 (length p.storage) p.unsorted;
  }

  -- `std::lower_bound` on the first `n` objects, which are sorted: the first whose key is not less, `none` at the end.
  unfoldable pub lower_bound : (n key : ℕ) → List (ℕ × V) → Option ℕ
  lower_bound zero key xs = none
  lower_bound (suc n) key [] = none
  lower_bound (suc n) key (x ∷ xs) =
      let later = lower_bound n key xs >>= λ i. some (suc i) in
      if ltb x.0 key then later else some 0

  unfoldable pub find : ℕ → IndexedSeqPartition V → Option ℕ
  unfolding lower_bound
  find key p = elim (lower_bound p.sorted_size key p.storage) [
    | some i ↦ some i
    | none ↦ lookup key p.unsorted
  ]

  unfoldable pub get_object : ℕ → IndexedSeqPartition V → Option (ℕ × V)
  unfolding find
  get_object key p = do i ← find key p; get_elem? p.storage i

  unfoldable pub find_or_create :
      (make : ℕ → V) → ℕ → IndexedSeqPartition V → ℕ × IndexedSeqPartition V
  unfolding find typed_add
  find_or_create make key p = elim (find key p) [
    | some i ↦ (i, p)
    | none ↦ (length p.storage, typed_add (key, make key) p)
  ]

  unfoldable pub sort_partition :
      (sort : List (ℕ × V) → List (ℕ × V)) → IndexedSeqPartition V → IndexedSeqPartition V
  sort_partition sort p = record {
    storage = sort p.storage;
    unsorted = [];
    sorted_size = length (sort p.storage);
  }

  unfoldable pub get_sorted_size : IndexedSeqPartition V → ℕ
  get_sorted_size p = length p.storage - size p.unsorted

  unfoldable pub get_unsorted_size : IndexedSeqPartition V → ℕ
  get_unsorted_size p = size p.unsorted

  -- `GetGetterFunc`: the objects of the keys, made where they are not there.
  unfoldable pub get_objects :
      (make : ℕ → V)
      → List ℕ
      → IndexedSeqPartition V
      → Option (List (ℕ × V) × IndexedSeqPartition V)
  unfolding find_or_create
  get_objects make [] p = some ([], p)
  get_objects make (key ∷ keys) p =
      let r = find_or_create make key p in
      do
        o ← get_elem? (r.1).storage r.0
        rest ← get_objects make keys r.1
        some (o ∷ rest.0, rest.1)

module _ {ℓ κ} {V : Type ℓ} {M : Type κ} (make : ℕ → V) (update : V → M → V) where
  -- One round of `GetJoinPartFunc`: the object of the message's key, made if it is not there, takes the message.
  unfoldable pub join_one : ℕ × M → IndexedSeqPartition V → Option (IndexedSeqPartition V)
  unfolding find_or_create
  join_one m p =
      let r = find_or_create make m.0 p in
      do
        o ← get_elem? (r.1).storage r.0
        some (record (r.1) { storage = write_at (r.1).storage r.0 (o.0, update o.1 m.1) })

  unfoldable pub join_part : List (ℕ × M) → IndexedSeqPartition V → Option (IndexedSeqPartition V)
  unfolding join_one
  join_part [] p = some p
  join_part (m ∷ ms) p = do p' ← join_one m p; join_part ms p'
