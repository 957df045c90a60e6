-- ===== src/Worker/MapOutput.antt =====
-- core/map_output/map_output_stream.hpp and partitioned_map_output.hpp: the output of a map, a buffer of keys and
-- messages for each partition. Keys are numbers; `std::sort` is a parameter.
use tangram.Base.{
  ℕ, zero, suc, ◌+◌, ◌-◌, ◌==◌, ltb, if◌then◌else◌, Bool, not, Option, some, none, List, [], ◌∷◌,
  ◌++◌, map, length, get_elem?, write_at, ◌>>=◌, ◌>>◌, check,
}
pub mod Combined
pub mod Joined

abbrev pub Buffer {ℓ} : Type ℓ → Type ℓ
Buffer M = List (ℕ × M)

module _ {ℓ} {M : Type ℓ} where
  unfoldable pub take : ℕ → Buffer M → Buffer M
  take zero xs = []
  take (suc n) [] = []
  take (suc n) (x ∷ xs) = x ∷ take n xs

  module _ (combine : M → M → M) where
    -- One round of the loop, by `buffer[l]` and `buffer[r]`.
    unfoldable pub combine_at :
        (l r : ℕ) → Buffer M → Option (ℕ × M) → Option (ℕ × M) → ℕ × Buffer M
    combine_at l r b (some x) (some y) =
        if x.0 == y.0
        then (l, write_at b l (x.0, combine x.1 y.1))
        else (l + 1, if l + 1 == r then b else write_at b (l + 1) y)
    combine_at l r b (some x) none = (l, b)
    combine_at l r b none o = (l, b)

    unfoldable pub combine_step : (l r : ℕ) → Buffer M → ℕ × Buffer M
    unfolding combine_at
    combine_step l r b = combine_at l r b (get_elem? b l) (get_elem? b r)

    -- The rounds that are left, from `r` on.
    unfoldable pub combine_loop : (rounds l r : ℕ) → Buffer M → ℕ × Buffer M
    unfolding combine_step
    combine_loop zero l r b = (l, b)
    combine_loop (suc n) l r b = let s = combine_step l r b in combine_loop n s.0 (r + 1) s.1

    unfoldable pub combine_one_buffer : Buffer M → Buffer M
    unfolding combine_loop take
    combine_one_buffer [] = []
    combine_one_buffer (x ∷ xs) =
        let s = combine_loop (length xs) 0 1 (x ∷ xs) in take (s.0 + 1) s.1

  -- `Combine` of a stream: with no combiner the stream stays as it is.
  unfoldable pub combine_stream :
      (sort : Buffer M → Buffer M) → Option (M → M → M) → Buffer M → Buffer M
  unfolding combine_one_buffer
  combine_stream sort none b = b
  combine_stream sort (some f) b = combine_one_buffer f (sort b)

  unfoldable pub append_stream : Buffer M → Buffer M → Buffer M
  append_stream b other = b ++ other

  -- A buffer for each partition, and the message that goes to the buffer of its key.
  unfoldable pub add_output :
      (get_part : ℕ → ℕ) → ℕ → M → List (Buffer M) → Option (List (Buffer M))
  add_output get_part key msg bs = do
    b ← get_elem? bs (get_part key)
    some (write_at bs (get_part key) (b ++ (key, msg) ∷ []))

  unfoldable pub combine_output :
      (sort : Buffer M → Buffer M) → Option (M → M → M) → List (Buffer M) → List (Buffer M)
  unfolding combine_stream
  combine_output sort f bs = map (combine_stream sort f) bs
