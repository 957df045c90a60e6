-- ===== src/Worker/RangeMapper.antt =====
-- core/index/range_key_to_part_mapper.hpp: keys to partitions by ranges of one size. The class of ranges is a copy
-- from ps-lite and a parameter: `end_of` and `size_of` are its `end()` and `size()`. A key is a number.
use tangram.Base.{
  ℕ, ◌/◌, leb, ltb, ◌==◌, Bool, true, false, ◌&&◌, Option, some, none, List, [], ◌∷◌, length,
  get_elem?, ◌>>=◌, ◌>>◌, check,
}
pub mod Located
pub mod Partition

pub record RangeMapper {ℓ} (R : Type ℓ) : Type ℓ where
  pub ranges : List R
  pub interval : ℕ

module _ {ℓ} {R : Type ℓ} where
  -- The loop of the constructor leaves out the last range.
  unfoldable pub equal_sizes : (size_of : R → ℕ) → ℕ → List R → Bool
  equal_sizes size_of i [] = true
  equal_sizes size_of i (r ∷ []) = true
  equal_sizes size_of i (r ∷ s ∷ rs) = size_of r == i && equal_sizes size_of i (s ∷ rs)

  unfoldable pub new_range_mapper : (size_of : R → ℕ) → List R → Option (RangeMapper R)
  unfolding equal_sizes
  new_range_mapper size_of [] = none
  new_range_mapper size_of (r ∷ rs) = do
    check (equal_sizes size_of (size_of r) (r ∷ rs))
    some (record { ranges = r ∷ rs; interval = size_of r })

  unfoldable pub last_end : (end_of : R → ℕ) → List R → ℕ
  last_end end_of [] = 0
  last_end end_of (r ∷ []) = end_of r
  last_end end_of (r ∷ s ∷ rs) = last_end end_of (s ∷ rs)

  -- The partition of a key. A division by 0 ends the process.
  unfoldable pub range_of : (end_of : R → ℕ) → ℕ → RangeMapper R → Option ℕ
  unfolding last_end
  range_of end_of key m = do
    check (ltb 0 m.interval)
    check (ltb (key / m.interval) (last_end end_of m.ranges))
    some (key / m.interval)

  unfoldable pub get_range : ℕ → RangeMapper R → Option R
  get_range p m = get_elem? m.ranges p
