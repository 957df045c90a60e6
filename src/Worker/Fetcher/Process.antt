-- ===== src/Worker/Fetcher/Process.antt =====
-- `Process` of core/cache/fetcher.cpp, on the entry of one partition and on the fetches of objects. The tasks of the
-- executor are run at once; `part` is what the partition manager has of the partition.
use tangram.Base.{ℕ, Option, some, List, [], ◌>>=◌}
use tangram.Worker.Elem.{Bytes}
use tangram.Worker.Fetcher.{
  Entry, Sent, fetch_part_request, fetch_part_reply_remote, fetch_part_reply_local,
}
use tangram.Worker.Fetcher.Objects.{Receiver, fetch_objs_reply}

pub data FetcherMessage : Type 0 where
  objs_reply : (upstream : ℕ) → Bytes → FetcherMessage
  part_request : (version : ℕ) → FetcherMessage
  part_reply_remote : (version : ℕ) → Bytes → FetcherMessage
  part_reply_local : (version : ℕ) → FetcherMessage

abbrev pub Fetcher : Type 0
Fetcher = Entry × Receiver

abbrev with_receiver : Receiver → Entry × List Sent → Fetcher × List Sent
with_receiver r e = ((e.0, r), e.1)

unfoldable pub process_message :
    (part : Option Bytes) → FetcherMessage → Fetcher → Option (Fetcher × List Sent)
unfolding fetch_part_request fetch_part_reply_remote fetch_part_reply_local fetch_objs_reply
process_message part (objs_reply u bin) f = fetch_objs_reply u bin f.1 >>= λ r. some ((f.0, r), [])
process_message part (part_request v) f = some (with_receiver f.1 (fetch_part_request v f.0))
process_message part (part_reply_remote v bytes) f =
    fetch_part_reply_remote v bytes f.0 >>= λ e. some (with_receiver f.1 e)
process_message part (part_reply_local v) f = do
  p ← part
  e ← fetch_part_reply_local v p f.0
  some (with_receiver f.1 e)
