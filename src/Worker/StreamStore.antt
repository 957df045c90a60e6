-- ===== src/Worker/StreamStore.antt =====
-- core/map_output/map_output_stream_store.hpp: the map outputs for local updates, by partition, upstream
-- partitions and version. A stream is the bytes that `Serialize` writes of it.
use tangram.Base.{
  ℕ, ◌>>=◌, Option, some, none, List, [], ◌∷◌, Bool, true, false, ◌==◌, ◌&&◌, if◌then◌else◌,
}
use tangram.Worker.Elem.{Bytes}

pub record StreamKey : Type 0 where
  pub part_id : ℕ
  pub upstream_part_ids : List ℕ
  pub version : ℕ

unfoldable pub stream_key : ℕ → List ℕ → ℕ → StreamKey
stream_key p us v = record { part_id = p; upstream_part_ids = us; version = v }

abbrev pub StreamStore : Type 0
StreamStore = List (StreamKey × Bytes)

unfoldable pub same_ids : List ℕ → List ℕ → Bool
same_ids [] [] = true
same_ids (x ∷ xs) (y ∷ ys) = x == y && same_ids xs ys
same_ids _ _ = false

unfoldable pub same_key : StreamKey → StreamKey → Bool
unfolding same_ids
same_key a b =
    a.part_id == b.part_id
    && same_ids a.upstream_part_ids b.upstream_part_ids
    && a.version == b.version

unfoldable pub find_stream : StreamKey → StreamStore → Option Bytes
find_stream k [] = none
find_stream k ((j, s) ∷ m) = if same_key j k then some s else find_stream k m

unfoldable pub erase_stream : StreamKey → StreamStore → StreamStore
erase_stream k [] = []
erase_stream k ((j, s) ∷ m) =
    let rest = erase_stream k m in if same_key j k then rest else (j, s) ∷ rest

unfoldable pub insert_stream : StreamKey → Bytes → StreamStore → Option StreamStore
unfolding find_stream
insert_stream k s m = elim (find_stream k m) [ none ↦ some ((k, s) ∷ m) | some _ ↦ none ]

-- `Get` and then `Remove`, as every caller does.
unfoldable pub take_stream : StreamKey → StreamStore → Option (Bytes × StreamStore)
unfolding find_stream erase_stream
take_stream k m = do s ← find_stream k m; some (s, erase_stream k m)
