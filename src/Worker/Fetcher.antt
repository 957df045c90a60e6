-- ===== src/Worker/Fetcher.antt =====
-- core/cache/fetcher.cpp: the partitions that a node's maps fetch, and who reads them. The maps of the class are
-- keyed by collection and partition alike: an `Entry` is what they hold under one key. A request carries its
-- version only; a partition is its bytes. What waits on the condition variable is a thread of a map.
use tangram.Base.{
  ℕ, ◌+◌, ◌-◌, ◌≡◌, refl, arith, ltb, leb, ◌==◌, if◌then◌else◌, Bool, true, false, not, ◌&&◌,
  Option, some, none, List, [], ◌∷◌, ◌++◌, ◌>>=◌, ◌>>◌, check, Map, lookup, set, get, erase, size,
  length,
}
use tangram.Worker.Elem.{Bytes}
pub mod Waiting
pub mod Objects
pub mod Process

pub record Entry : Type 0 where
  pub partition_version : Option ℕ
  pub partition_cache : Option Bytes
  pub requesting_versions : List ℕ
  -- For a partition of this node that is read in place.
  pub local_access_count : Option ℕ

-- What is sent: `kFetchRequest` for a version, or `kFinishFetch`.
pub data Sent : Type 0 where
  fetch_part : (version : ℕ) → Sent
  finish_part : Sent

unfoldable pub is_version_satisfied : ℕ → Entry → Bool
is_version_satisfied v e = elim (e.partition_version) [ none ↦ false | some w ↦ leb v w ]

unfoldable pub try_access_local : Entry → Entry
try_access_local e = elim (e.local_access_count) [
  | none ↦ e
  | some n ↦ record e { local_access_count = some (n + 1) }
]

-- `FetchPart` at its start, and again when it has been woken up: the partition, or the thread waits (`none`).
unfoldable pub access : ℕ → Entry → Option (Option Bytes × Entry)
unfolding is_version_satisfied try_access_local
access v e = do check (is_version_satisfied v e); some (e.partition_cache, try_access_local e)

unfoldable pub last_is_below : ℕ → List ℕ → Bool
last_is_below v [] = false
last_is_below v (u ∷ []) = ltb u v
last_is_below v (u ∷ w ∷ us) = last_is_below v (w ∷ us)

-- The queue of versions: the first is asked for at once, and a later one is kept if it is newer.
unfoldable pub request : ℕ → List ℕ → Entry → Entry × List Sent
unfolding last_is_below
request v [] e = (record e { requesting_versions = v ∷ [] }, fetch_part v ∷ [])
request v (u ∷ us) e = (
  record e {
    requesting_versions = if last_is_below v (u ∷ us) then (u ∷ us) ++ v ∷ [] else u ∷ us;
  },
  [],
)

unfoldable pub fetch_part_request : ℕ → Entry → Entry × List Sent
unfolding request
fetch_part_request v e =
    if is_version_satisfied v e then (e, []) else request v e.requesting_versions e

-- The versions above `w`.
unfoldable pub above : ℕ → List ℕ → List ℕ
above w [] = []
above w (u ∷ us) = let rest = above w us in if leb u w then rest else u ∷ rest

unfoldable pub ask_first : ℕ → List ℕ → Option (List Sent)
ask_first asked [] = some []
ask_first asked (v ∷ vs) = do check (ltb asked v); some (fetch_part v ∷ [])

-- `asked` is the version of the message or of the reader.
unfoldable pub try_fetch_next_version : (asked version : ℕ) → Entry → Option (Entry × List Sent)
unfolding above ask_first
try_fetch_next_version asked w e =
    let q = above w e.requesting_versions in
    do sent ← ask_first asked q; some (record e { requesting_versions = q }, sent)

unfoldable pub fetch_part_reply_remote : ℕ → Bytes → Entry → Option (Entry × List Sent)
unfolding try_fetch_next_version
fetch_part_reply_remote w bytes e =
    try_fetch_next_version w w
      (record e { partition_version = some w; partition_cache = some bytes })

-- The node's own partition is read in place until `FinishPart`.
unfoldable pub fetch_part_reply_local : ℕ → Bytes → Entry → Option (Entry × List Sent)
fetch_part_reply_local w part e = elim (e.local_access_count) [
  | some n ↦ none
  | none ↦ some (
    record e {
      partition_version = some w;
      partition_cache = some part;
      local_access_count = some 0;
    },
    [],
  )
]

-- The last reader of a partition in place gives it back.
unfoldable pub give_back : ℕ → Entry → Option (Entry × List Sent)
unfolding try_fetch_next_version
give_back asked e =
    let w : ℕ = elim (e.partition_version) [ none ↦ 0 | some v ↦ v ] in
    try_fetch_next_version asked w (record e { partition_version = none; partition_cache = none })
    >>= λ r. some (record (r.0) { local_access_count = none }, finish_part ∷ r.1)

unfoldable pub finish : ℕ → Entry → Option (Entry × List Sent)
unfolding give_back
finish asked e = elim (e.local_access_count) [
  | none ↦ some (e, [])
  | some n ↦
      if n == 0
      then none
      else if n == 1
      then give_back asked e
      else some (record e { local_access_count = some (n - 1) }, [])
]
