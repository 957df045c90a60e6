-- ===== src/Examples/Fetching.antt =====
-- Runs of the fetcher (core/cache), of the combining of map output (core/map_output), of the delayed combiner
-- (core/worker) and of ranges of keys (core/index): the theorems at concrete inputs.
use tangram.Base.{
  get_elem?, ℕ, List, ◌+◌, ◌-◌, ◌≡◌, refl, arith, true, false, some, none, [], ◌∷◌, pos, get,
}
use tangram.Worker.Fetcher.{
  Entry, finish_part, fetch_part_request, request, last_is_below, is_version_satisfied,
  fetch_part_reply_local, finish, access,
}
use tangram.Worker.Fetcher.Waiting.{
  Reach, here, next, asks, no_entry, asked_for, is_empty, all_within, Reach-granted, finish-forgets,
}
use tangram.Worker.MapOutput.{Buffer, combine_one_buffer}
use tangram.Worker.MapOutput.Combined.{runs, combine_one_buffer-runs}
use tangram.Worker.RangeMapper.{
  RangeMapper, new_range_mapper, equal_sizes, last_end, range_of, get_range,
}
use tangram.Worker.RangeMapper.Partition.{
  find_in_range, new_range_partition, find_in_range-range_of,
}
use tangram.Worker.DelayedCombiner.{DelayedCombiner}
use tangram.Worker.DelayedCombiner.Shuffle.{Cleared, add_each, add_each-shuffle}

-- Version 3 has been asked for, and version 5 waits in the queue.
abbrev asked : Entry
asked = record {
  partition_version = none;
  partition_cache = none;
  requesting_versions = 3 ∷ 5 ∷ [];
  local_access_count = none;
}

asked_twice : Reach no_entry 0 asked 1
unfolding fetch_part_request request last_is_below is_version_satisfied asked_for
asked_twice = next (next here (asks 3)) (asks 5)

Reach-granted_example :
    (◌≡◌ {A = ℕ} 1 1)
    × (is_empty asked.requesting_versions ≡ false)
    × (fetch_part_reply_local 3 (7 ∷ []) asked
        ≡ some (
          record asked {
            partition_version = some 3;
            partition_cache = some (7 ∷ []);
            local_access_count = some 0;
          },
          [],
        ))
Reach-granted_example = Reach-granted asked 1 3 (7 ∷ []) asked_twice (omega arith)

-- Version 3 is read in place by one thread.
abbrev in_place : Entry
in_place = record {
  partition_version = some 3;
  partition_cache = some (7 ∷ []);
  requesting_versions = 3 ∷ [];
  local_access_count = some 1;
}

finish-forgets_example :
    (e' : Entry) × (is_version_satisfied 2 in_place ≡ true)
    × (finish 3 in_place ≡ some (e', finish_part ∷ []))
    × (access 2 e' ≡ none)
    × (e'.requesting_versions ≡ [])
unfolding all_within
finish-forgets_example = finish-forgets 2 3 3 in_place refl refl refl (omega arith)

abbrev messages : Buffer ℕ
messages = (1, 20) ∷ (2, 30) ∷ (2, 40) ∷ (4, 50) ∷ []

abbrev total : ℕ → ℕ → ℕ
total a b = a + b

combine_one_buffer-runs_example :
    combine_one_buffer total ((1, 10) ∷ messages) ≡ runs total (1, 10) messages
combine_one_buffer-runs_example = combine_one_buffer-runs total (1, 10) messages

combined : combine_one_buffer total ((1, 10) ∷ messages) ≡ (1, 30) ∷ (2, 70) ∷ (4, 50) ∷ []
unfolding combine_one_buffer
combined = refl

-- Streams as numbers that are added up.
abbrev combiner : DelayedCombiner ℕ
combiner = record { store = [] ∷ [] ∷ []; combine_timeout = pos 9 }

abbrev same : ℕ → ℕ
same s = s

add_each-shuffle_example :
    (d' : DelayedCombiner ℕ) × (add_each total same 2 6 1 ((0, 10) ∷ (3, 20) ∷ []) combiner
      ≡ some (
        d',
        record { part_id = 1; version = 6; upstream_part_ids = 0 ∷ 3 ∷ []; stream = 30 } ∷ [],
      ))
    × Cleared total same 1 6 [] combiner d'
unfolding get
add_each-shuffle_example =
    add_each-shuffle total same 2 8 6 1 0 10 ((3, 20) ∷ []) combiner [] refl refl refl refl

-- Ranges by begin and end, the last of which is shorter.
abbrev thirds : List (ℕ × ℕ)
thirds = (0, 4) ∷ (4, 8) ∷ (8, 10) ∷ []

abbrev begin_of : ℕ × ℕ → ℕ
begin_of r = r.0

abbrev end_of : ℕ × ℕ → ℕ
end_of r = r.1

abbrev size_of : ℕ × ℕ → ℕ
size_of r = r.1 - r.0

abbrev mapper : RangeMapper (ℕ × ℕ)
mapper = record { ranges = thirds; interval = 4 }

abbrev no_rest : ℕ → ℕ
no_rest key = 0

find_in_range-range_of_example :
    (p : ℕ) × (r : ℕ × ℕ) × (i : ℕ) × (range_of end_of 9 mapper ≡ some p)
    × (get_range p mapper ≡ some r)
    × (find_in_range begin_of end_of 9 (new_range_partition begin_of end_of no_rest r) ≡ some i)
    × (get_elem? (new_range_partition begin_of end_of no_rest r).storage i ≡ some (9, no_rest 9))
unfolding new_range_mapper equal_sizes last_end
find_in_range-range_of_example =
    find_in_range-range_of begin_of end_of size_of no_rest thirds mapper 9 refl (omega arith)
      (refl, refl, (refl, refl, (refl, refl, omega arith))) (omega arith)
