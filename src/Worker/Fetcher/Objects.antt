-- ===== src/Worker/Fetcher/Objects.antt =====
-- core/cache/fetcher.cpp: the objects of several partitions, fetched together.
use tangram.Base.{
  ℕ, ◌+◌, ◌==◌, Option, some, List, [], ◌∷◌, ◌++◌, ◌>>=◌, ◌>>◌, check, Map, lookup, set, get, erase,
  size,
}
use tangram.Worker.Elem.{Bytes}

pub record Receiver : Type 0 where
  pub recv_finished : Map ℕ
  pub recv_binstream : Map (List Bytes)

-- A request for the objects of one partition: the partition and the keys.
pub data ObjsRequest : Type 0 where
  fetch_objs : (part_id : ℕ) → Bytes → ObjsRequest

unfoldable pub requests_of : Map Bytes → List ObjsRequest
requests_of [] = []
requests_of ((p, keys) ∷ m) = fetch_objs p keys ∷ requests_of m

unfoldable pub fetch_objs_start : ℕ → Map Bytes → Receiver → Receiver × List ObjsRequest
unfolding requests_of
fetch_objs_start upstream parts r =
    (record r { recv_binstream = set upstream [] r.recv_binstream }, requests_of parts)

unfoldable pub fetch_objs_reply : ℕ → Bytes → Receiver → Option Receiver
fetch_objs_reply upstream bin r = do
  rets ← lookup upstream r.recv_binstream
  some (record r {
    recv_binstream = set upstream (rets ++ bin ∷ []) r.recv_binstream;
    recv_finished = set upstream (get 0 upstream r.recv_finished + 1) r.recv_finished;
  })

-- The thread that waits: what came, when as many replies have come as there were requests.
unfoldable pub fetch_objs_end : ℕ → Map Bytes → Receiver → Option (List Bytes × Receiver)
fetch_objs_end upstream parts r = do
  check (get 0 upstream r.recv_finished == size parts)
  some (
    get [] upstream r.recv_binstream,
    record r {
      recv_binstream = erase upstream r.recv_binstream;
      recv_finished = erase upstream r.recv_finished;
    },
  )
