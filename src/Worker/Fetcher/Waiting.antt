-- ===== src/Worker/Fetcher/Waiting.antt =====
-- core/cache/fetcher.cpp: a thread that waits for a version of a partition.
use tangram.Base.{
  ℕ, ◌+◌, ◌≡◌, ◌≤◌, ◌<◌, refl, arith, leb, ◌==◌, if◌then◌else◌, Bool, true, false, not, ◌&&◌,
  Option, some, none, List, [], ◌∷◌, >>=-eq-some, Bool-cases, inl, inr,
}
use tangram.Worker.Elem.{Bytes}
use tangram.Worker.Fetcher.{
  Entry, Sent, fetch_part, finish_part, is_version_satisfied, try_access_local, access, request,
  fetch_part_request, above, ask_first, try_fetch_next_version, fetch_part_reply_remote,
  fetch_part_reply_local, give_back, finish,
}

-- The partition is read in place.
abbrev pub held : Entry → ℕ
held e = elim (e.local_access_count) [ none ↦ 0 | some n ↦ 1 ]

-- The requests among what is sent.
unfoldable pub asked_for : List Sent → ℕ
asked_for [] = 0
asked_for (fetch_part v ∷ es) = 1 + asked_for es
asked_for (finish_part ∷ es) = asked_for es

abbrev pub is_empty : List ℕ → Bool
is_empty [] = true
is_empty (v ∷ vs) = false

-- Each version in the queue is at most `w`.
unfoldable pub all_within : ℕ → List ℕ → Bool
all_within w [] = true
all_within w (u ∷ us) = leb u w && all_within w us

-- An entry and how many of its requests have no reply yet: while a version is asked for, either one request is
-- under way or the partition is read in place, and else neither.
pub record IsServed (e : Entry) (flights : ℕ) : Type 0 where
  pub served : flights + held e ≡ (if is_empty e.requesting_versions then 0 else 1)

-- What can happen to the entry. A reply answers a request.
pub data Step (e : Entry) (n : ℕ) : Entry → ℕ → Type 0 where
  asks : (v : ℕ) → Step e n (fetch_part_request v e).0 (n + asked_for (fetch_part_request v e).1)
  reads : (v : ℕ) {b : Option Bytes} {e' : Entry} → access v e ≡ some (b, e') → Step e n e' n
  remote :
      (w m : ℕ) (bytes : Bytes) {e' : Entry} {es : List Sent}
      → n ≡ m + 1
      → fetch_part_reply_remote w bytes e ≡ some (e', es)
      → Step e n e' (m + asked_for es)
  granted :
      (w m : ℕ) (bytes : Bytes) {e' : Entry} {es : List Sent}
      → n ≡ m + 1
      → fetch_part_reply_local w bytes e ≡ some (e', es)
      → Step e n e' (m + asked_for es)
  finishes :
      (v : ℕ) {e' : Entry} {es : List Sent}
      → finish v e ≡ some (e', es)
      → Step e n e' (n + asked_for es)

ask_first-asked :
    (v : ℕ) (q : List ℕ) {es : List Sent}
    → ask_first v q ≡ some es
    → asked_for es ≡ (if is_empty q then 0 else 1)
unfolding ask_first asked_for
ask_first-asked v [] e = ground arith
ask_first-asked v (u ∷ us) e = ground arith

request-IsServed :
    (v : ℕ) (q : List ℕ) (e : Entry) (n : ℕ)
    → n + held e ≡ (if is_empty q then 0 else 1)
    → IsServed (request v q e).0 (n + asked_for (request v q e).1)
unfolding request asked_for
request-IsServed v [] e n h = record { served = omega (arith, h) }
request-IsServed v (u ∷ us) e n h = record { served = ground (arith, h) }

-- The rest of the queue is asked for.
next-IsServed :
    (v w : ℕ) (e : Entry) (m : ℕ) {e' : Entry} {es : List Sent}
    → m + held e ≡ 0
    → try_fetch_next_version v w e ≡ some (e', es)
    → IsServed e' (m + asked_for es)
unfolding try_fetch_next_version
next-IsServed v w e m h k =
    let (sent, k1, k2) = >>=-eq-some (ask_first v (above w e.requesting_versions)) _ k in
    record { served = ground (arith, ask_first-asked v (above w e.requesting_versions) k1) }

give_back-IsServed :
    (v : ℕ) (e : Entry) {e' : Entry} {es : List Sent}
    → give_back v e ≡ some (e', es)
    → IsServed e' (asked_for es)
unfolding give_back try_fetch_next_version asked_for
give_back-IsServed v e k =
    let w : ℕ = elim (e.partition_version) [ none ↦ 0 | some u ↦ u ] in
    let ((e1, sent), k1, k2) =
      >>=-eq-some
        (try_fetch_next_version v w (record e { partition_version = none; partition_cache = none }))
        _ k in
    let (es1, k3, k4) = >>=-eq-some (ask_first v (above w e.requesting_versions)) _ k1 in
    record { served = ground (arith, ask_first-asked v (above w e.requesting_versions) k3) }

finish-IsServed :
    (v : ℕ) (o : Option ℕ) (e : Entry) (n : ℕ) {e' : Entry} {es : List Sent}
    → e.local_access_count ≡ o
    → IsServed e n
    → finish v e ≡ some (e', es)
    → IsServed e' (n + asked_for es)
unfolding finish asked_for
finish-IsServed v none e n o s k =
    let k1 = rw (o, finish) at k in record { served = ground (arith, s.served) }
finish-IsServed v (some a) e n {e'} {es} o s k = elim (Bool-cases (a == 1)) [
  | inl one ↦
      let gb : give_back v e ≡ some (e', es) = ground arith in
      let none_left : n ≡ 0 = ground (arith, s.served) in
      record { served = ground (arith, (give_back-IsServed v e gb).served, none_left) }
  | inr more ↦ record { served = ground (arith, s.served) }
]

Step-IsServed : {e e' : Entry} {n n' : ℕ} → Step e n e' n' → IsServed e n → IsServed e' n'
unfolding fetch_part_request asked_for access try_access_local fetch_part_reply_remote
    fetch_part_reply_local
Step-IsServed {e} {n = n} (asks v) s = elim (Bool-cases (is_version_satisfied v e)) [
  | inl has ↦ rw has (record { served = omega (arith, s.served) })
  | inr not ↦ rw not (request-IsServed v e.requesting_versions e n s.served)
]
Step-IsServed (reads v h) s = record { served = ground (arith, s.served) }
Step-IsServed {e} (remote w m bytes n h) s =
    next-IsServed w w (record e { partition_version = some w; partition_cache = some bytes }) m
      (ground (arith, s.served)) h
Step-IsServed (granted w m bytes n h) s = record { served = ground (arith, s.served) }
Step-IsServed {e} {n = n} (finishes v h) s = finish-IsServed v e.local_access_count e n refl s h

pub data Reach (e : Entry) (n : ℕ) : Entry → ℕ → Type 0 where
  here : Reach e n e n
  next : {f g : Entry} {m k : ℕ} → Reach e n f m → Step f m g k → Reach e n g k

pub Reach-IsServed :
    {e : Entry} {n : ℕ} {f : Entry} {m : ℕ} → IsServed e n → Reach e n f m → IsServed f m
Reach-IsServed s here = s
Reach-IsServed s (next r st) = Step-IsServed st (Reach-IsServed s r)

abbrev pub no_entry : Entry
no_entry = record {
  partition_version = none;
  partition_cache = none;
  requesting_versions = [];
  local_access_count = none;
}

-- From the empty entry of a partition on, whatever is asked for, answered, read and finished in whatever order:
-- while a request has no reply, it is the only one, a version is queued for it, and the CHECK of
-- FetchPartReplyLocal passes if access in place is granted.
pub Reach-granted :
    (e : Entry) (n w : ℕ) (part : Bytes)
    → Reach no_entry 0 e n
    → 0 < n
    → (n ≡ 1)
      × (is_empty e.requesting_versions ≡ false)
      × (fetch_part_reply_local w part e
          ≡ some (
            record e {
              partition_version = some w;
              partition_cache = some part;
              local_access_count = some 0;
            },
            [],
          ))
unfolding fetch_part_reply_local
Reach-granted e n w part r h =
    let s = Reach-IsServed (record { served = refl }) r in
    (ground (arith, s.served), ground (arith, s.served), ground (arith, s.served))

-- The versions above one that is at least as new as all are none.
above-none : (w : ℕ) (q : List ℕ) → all_within w q ≡ true → above w q ≡ []
unfolding above all_within
above-none w [] h = refl
above-none w (u ∷ us) h = ground (arith, above-none w us)

-- If access in place to version `w` has been granted, one thread reads, no newer version is queued, and another
-- thread waits for version `v`, at most `w`, and has not run since: then that thread could go on before the
-- reader calls FinishPart, and afterwards its condition does not hold, nothing is queued, and nothing but the
-- end of the fetch is sent.
pub finish-forgets :
    (v w asked : ℕ) (e : Entry)
    → e.partition_version ≡ some w
    → e.local_access_count ≡ some 1
    → all_within w e.requesting_versions ≡ true
    → v ≤ w
    → (e' : Entry) × (is_version_satisfied v e ≡ true)
      × (finish asked e ≡ some (e', finish_part ∷ []))
      × (access v e' ≡ none)
      × (e'.requesting_versions ≡ [])
unfolding finish give_back try_fetch_next_version ask_first access is_version_satisfied
finish-forgets v w asked e pv lc all le = (
  record e {
    partition_version = none;
    partition_cache = none;
    requesting_versions = [];
    local_access_count = none;
  },
  ground arith,
  ground (arith, above-none w e.requesting_versions all),
  refl,
  refl,
)
