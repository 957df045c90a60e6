-- ===== src/Worker/RangeMapper/Located.antt =====
-- core/index/range_key_to_part_mapper.hpp: the partition of a key is the one whose range the key is in.
use native.Mathlib.Nat.{div-eq_of_lt, div-eq-sub-div, div-le_self}
use tangram.Base.{
  ℕ, suc, ◌∙◌, ◌+◌, ◌-◌, ◌/◌, ◌≤◌, ◌<◌, ◌≡◌, arith, ltb, true, Bool-cases, inl, inr, some, List, [],
  ◌∷◌, get_elem?, refl,
}
use tangram.Worker.RangeMapper.{
  RangeMapper, equal_sizes, new_range_mapper, last_end, range_of, get_range,
}

div_next : (d i : ℕ) → 0 < i → i ≤ d → d / i ≡ suc ((d - i) / i)
div_next d i h l = div-eq-sub-div h l ∙ omega arith

module _ {ℓ} {R : Type ℓ} (begin_of end_of size_of : R → ℕ) where
  -- Ranges from `a` on without gaps, the last of at most `i` keys.
  abbrev pub Joined : ℕ → ℕ → List R → Type 0
  Joined a i [] = Unit
  Joined a i (r ∷ []) = (begin_of r ≡ a) × (end_of r ≡ a + size_of r) × (size_of r ≤ i)
  Joined a i (r ∷ s ∷ rs) =
      (begin_of r ≡ a) × (end_of r ≡ a + size_of r) × Joined (end_of r) i (s ∷ rs)

  abbrev Located : ℕ → ℕ → List R → Type ℓ
  Located k n rs = (r : R) × (get_elem? rs n ≡ some r) × (begin_of r ≤ k) × (k < end_of r)

  located :
      (rs : List R) (a i k d : ℕ)
      → 0 < i
      → Joined a i rs
      → equal_sizes size_of i rs ≡ true
      → a + d ≡ k
      → k < last_end end_of rs
      → Located k (d / i) rs
  unfolding equal_sizes last_end
  located [] a i k d h j e ek l = ground (arith, l)
  located (r ∷ []) a i k d h j e ek l =
      let first : d < i = omega (arith, l, ek, j.1, j.2) in
      (r, rw (div-eq_of_lt first) refl, omega (arith, ek, j.0), l)
  located (r ∷ s ∷ rs) a i k d h j e ek l = elim (Bool-cases (ltb d i)) [
    | inl here ↦
        let first : d < i = ground arith in
        (r, rw (div-eq_of_lt first) refl, omega (arith, ek, j.0), ground (arith, ek, j.1, e))
    | inr later ↦
        let less : i ≤ d = ground arith in
        let (t, at_t, from, to) =
          located (s ∷ rs) (end_of r) i k (d - i) h j.2 (ground (arith, e))
            (ground (arith, j.1, e, ek)) l in
        (t, rw (div_next d i h less) at_t, from, to)
  ]

  new_range_mapper-fields :
      (rs : List R) (m : RangeMapper R)
      → new_range_mapper size_of rs ≡ some m
      → (m.ranges ≡ rs) × (equal_sizes size_of m.interval rs ≡ true)
  unfolding new_range_mapper
  new_range_mapper-fields [] m n = ground arith
  new_range_mapper-fields (r ∷ rs) m n = (ground arith, ground arith)

  -- If the constructor accepts ranges that join without a gap from key 0 on, the first of them not empty and
  -- the last no longer than the first, then every key below the end of the last has a partition that GetRange
  -- accepts, and the key is in its range.
  pub range_of-Joined :
      (rs : List R) (m : RangeMapper R) (key : ℕ)
      → new_range_mapper size_of rs ≡ some m
      → 0 < m.interval
      → Joined 0 m.interval rs
      → key < last_end end_of rs
      → (p : ℕ) × (r : R) × (range_of end_of key m ≡ some p)
        × (get_range p m ≡ some r)
        × (begin_of r ≤ key)
        × (key < end_of r)
  unfolding new_range_mapper range_of get_range
  range_of-Joined rs m key n h j l =
      let made = new_range_mapper-fields rs m n in
      let (r, at_r, from, to) = located rs 0 m.interval key key h j made.1 (omega arith) l in
      let below : key / m.interval < last_end end_of rs =
        omega (arith, div-le_self key m.interval, l) in
      (key / m.interval, r, rw made.0 (ground arith), rw made.0 at_r, from, to)
