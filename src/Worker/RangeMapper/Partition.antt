-- ===== src/Worker/RangeMapper/Partition.antt =====
-- core/partition/range_indexed_seq_partition.hpp: a partition with an object for each key of a range. `TypedAdd` fails its CHECK
-- and `Sort` does nothing; the range and its `begin()`, `end()` and `size()` are parameters as above.
use tangram.Base.{
  ℕ, zero, suc, ◌+◌, ◌-◌, ◌<◌, ◌≡◌, refl, arith, leb, ltb, true, Option, some, List, [], ◌∷◌,
  get_elem?, check, ◌>>◌, ◌∙◌, ap,
}
use tangram.Worker.RangeMapper.{RangeMapper, new_range_mapper, last_end, range_of, get_range}
use tangram.Worker.RangeMapper.Located.{Joined, range_of-Joined}

pub record RangeIndexedSeqPartition {ℓ κ} (R : Type ℓ) (V : Type κ) : Type (ℓ ⊔ κ) where
  pub storage : List (ℕ × V)
  pub range : R

module _ {ℓ κ} {R : Type ℓ} {V : Type κ} (begin_of end_of : R → ℕ) where
  unfoldable pub fresh_objects : (make : ℕ → V) → (from n : ℕ) → List (ℕ × V)
  fresh_objects make from zero = []
  fresh_objects make from (suc n) = (from, make from) ∷ fresh_objects make (from + 1) n

  unfoldable pub new_range_partition : (make : ℕ → V) → R → RangeIndexedSeqPartition R V
  unfolding fresh_objects
  new_range_partition make r = record {
    storage = fresh_objects make (begin_of r) (end_of r - begin_of r);
    range = r;
  }

  -- `Find`, and so `FindOrCreate`: the place of the key's object.
  unfoldable pub find_in_range : ℕ → RangeIndexedSeqPartition R V → Option ℕ
  find_in_range key p = do
    check (leb (begin_of p.range) key)
    check (ltb key (end_of p.range))
    some (key - begin_of p.range)

module _ {ℓ κ} {R : Type ℓ} {V : Type κ} (begin_of end_of size_of : R → ℕ) (make : ℕ → V) where
  get_elem?-fresh_objects :
      (from n d : ℕ)
      → d < n
      → get_elem? (fresh_objects begin_of end_of make from n) d ≡ some (from + d, make (from + d))
  unfolding fresh_objects
  get_elem?-fresh_objects from zero d h = absurd (omega (arith, h))
  get_elem?-fresh_objects from (suc n) zero h =
      let same : from + zero ≡ from = omega arith in rw same refl
  get_elem?-fresh_objects from (suc n) (suc d) h =
      let same : from + suc d ≡ from + 1 + d = omega arith in
      rw same (get_elem?-fresh_objects (from + 1) n d (omega (arith, h)))

  -- If the constructor accepts ranges that join without a gap from key 0 on, the first of them not empty and
  -- the last no longer than the first, then every key below the end of the last has a partition, GetRange
  -- accepts it, and a partition made of its range finds the key: no CHECK fails, the place is one of its
  -- objects, and the object there is that of the key.
  pub find_in_range-range_of :
      (rs : List R) (m : RangeMapper R) (key : ℕ)
      → new_range_mapper size_of rs ≡ some m
      → 0 < m.interval
      → Joined begin_of end_of size_of 0 m.interval rs
      → key < last_end end_of rs
      → (p : ℕ) × (r : R) × (i : ℕ) × (range_of end_of key m ≡ some p)
        × (get_range p m ≡ some r)
        × (find_in_range begin_of end_of key (new_range_partition begin_of end_of make r) ≡ some i)
        × (get_elem? (new_range_partition begin_of end_of make r).storage i ≡ some (key, make key))
  unfolding find_in_range new_range_partition
  find_in_range-range_of rs m key n h j l =
      let (p, r, e, at_p, from, to) = range_of-Joined begin_of end_of size_of rs m key n h j l in
      let back : begin_of r + (key - begin_of r) ≡ key = omega (arith, from) in
      let low : leb (begin_of r) key ≡ true = ground arith in
      let high : ltb key (end_of r) ≡ true = ground arith in
      (
        p,
        r,
        key - begin_of r,
        e,
        at_p,
        rw (low, high) refl,
        get_elem?-fresh_objects (begin_of r) (end_of r - begin_of r) (key - begin_of r)
              (omega (arith, from, to))
            ∙ ap (λ k. some (k, make k)) back,
      )
