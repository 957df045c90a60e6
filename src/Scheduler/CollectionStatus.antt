-- ===== src/Scheduler/CollectionStatus.antt =====
-- core/scheduler/collection_status.hpp and collection_status.cpp. The times of plans are only logged, and
-- are left out.
pub mod Counts
pub mod Accounts
pub mod Accepts
pub mod Restart
pub mod Idle
use tangram.Base.{
  ℕ, suc, ◌+◌, ◌-◌, Bool, not, Option, none, some, List, [], ◌∷◌, Map, lookup, set, get, has, keys,
  erase, if◌then◌else◌, ◌==◌, check, ◌>>=◌, ◌>>◌,
}
use tangram.Plan.Spec.{ReadWriteVector, Url}

pub record CollectionStatus : Type 0 where
  pub cur_plans : Map ReadWriteVector
  pub read_ids : Map ℕ
  pub write_ids : Map ℕ
  pub last_cp : Map Url

abbrev pub no_status : CollectionStatus
no_status = record { cur_plans = []; read_ids = []; write_ids = []; last_cp = [] }

unfoldable pub get_last_cp : ℕ → CollectionStatus → Option Url
get_last_cp collection_id s = lookup collection_id s.last_cp

unfoldable pub add_cp : ℕ → Url → CollectionStatus → CollectionStatus
add_cp collection_id url s = record s { last_cp = set collection_id url s.last_cp }

-- `read_ids_[r] += 1` for each collection that is read.
unfoldable pub take_reads : List ℕ → Map ℕ → Map ℕ
take_reads [] read_ids = read_ids
take_reads (r ∷ rs) read_ids = take_reads rs (set r (get 0 r read_ids + 1) read_ids)

unfoldable pub take_writes : List ℕ → Map ℕ → Map ℕ → Option (Map ℕ)
take_writes [] read_ids write_ids = some write_ids
take_writes (w ∷ ws) read_ids write_ids = do
  check (not (has w write_ids))
  check (not (has w read_ids))
  take_writes ws read_ids (set w (get 0 w write_ids + 1) write_ids)

unfoldable pub add_plan : ℕ → ReadWriteVector → CollectionStatus → Option CollectionStatus
add_plan id p s = do
  check (not (has id s.cur_plans))
  let read_ids = take_reads p.0 s.read_ids
  write_ids ← take_writes p.1 read_ids s.write_ids
  some (record s { cur_plans = set id p s.cur_plans; read_ids = read_ids; write_ids = write_ids })

-- `read_ids_[r] --`. An entry never holds 0: it is erased.
unfoldable pub release_read : ℕ → Map ℕ → Option (Map ℕ)
release_read r read_ids = do
  n ← lookup r read_ids
  some (if n - 1 == 0 then erase r read_ids else set r (n - 1) read_ids)

unfoldable pub release_reads : List ℕ → Map ℕ → Option (Map ℕ)
unfolding release_read
release_reads [] read_ids = some read_ids
release_reads (r ∷ rs) read_ids = release_read r read_ids >>= release_reads rs

unfoldable pub release_writes : List ℕ → Map ℕ → Option (Map ℕ)
release_writes [] write_ids = some write_ids
release_writes (w ∷ ws) write_ids = do
  check (has w write_ids)
  release_writes ws (erase w write_ids)

unfoldable pub finish_plan : ℕ → CollectionStatus → Option CollectionStatus
finish_plan plan_id s = do
  p ← lookup plan_id s.cur_plans
  read_ids ← release_reads p.0 s.read_ids
  write_ids ← release_writes p.1 s.write_ids
  some (record s {
    cur_plans = erase plan_id s.cur_plans;
    read_ids = read_ids;
    write_ids = write_ids;
  })

unfoldable pub get_current_plans : CollectionStatus → List ℕ
get_current_plans s = keys s.cur_plans

unfoldable pub get_reads : CollectionStatus → List ℕ
get_reads s = keys s.read_ids

unfoldable pub get_writes : CollectionStatus → List ℕ
get_writes s = keys s.write_ids

-- `GetLastCP` for each entry: a missing checkpoint ends the process.
unfoldable pub with_cp : List ℕ → CollectionStatus → Option (List (ℕ × Url))
unfolding get_last_cp
with_cp [] s = some []
with_cp (c ∷ cs) s = do url ← get_last_cp c s; rest ← with_cp cs s; some ((c, url) ∷ rest)

unfoldable pub get_reads_and_cp : CollectionStatus → Option (List (ℕ × Url))
unfolding get_reads
get_reads_and_cp s = with_cp (get_reads s) s

unfoldable pub get_writes_and_cp : CollectionStatus → Option (List (ℕ × Url))
unfolding get_writes
get_writes_and_cp s = with_cp (get_writes s) s
