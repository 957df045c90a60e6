-- ===== src/Worker/PlanController/IsValid.antt =====
-- core/worker/plan_controller.cpp: who may be at work on a partition, and where requests wait.
use tangram.Base.{
  ℕ, ◌≡◌, arith, Bool, true, not, ◌&&◌, ◌||◌, List, [], ◌∷◌, ◌++◌, get, has, member, pos, is_pos,
  set, get-set, Map, erase, get-erase,
}
use tangram.Worker.Elem.{VersionedJoinMeta, join, fetch}
use tangram.Worker.PlanController.{
  PlanController, same_collection, update_fetch, all_of_part, track, push_waiting, push_pending,
  push_buffered,
}

-- No map and no fetch of the partition runs beside an update of it, where they are on one collection.
unfoldable pub is_apart : ℕ → PlanController → Bool
is_apart p s = not (
    has p s.running_updates
    && ((update_fetch s && is_pos (get (pos 0) p s.running_fetches))
        || (same_collection s && member p s.running_maps)))

-- Each partition is apart, and what waits for a partition is a request for it.
pub record IsValid (s : PlanController) : Type 0 where
  pub apart : (p : ℕ) → is_apart p s ≡ true
  pub waiting : (p : ℕ) → all_of_part p (get [] p s.waiting_updates) ≡ true
  pub pending : (p v : ℕ) → all_of_part p (get [] v (get [] p s.pending_updates)) ≡ true
  pub buffered : (p : ℕ) → all_of_part p (get [] p s.buffered_requests) ≡ true

pub all_of_part-append :
    (p : ℕ) (xs ys : List VersionedJoinMeta)
    → all_of_part p xs ≡ true
    → all_of_part p ys ≡ true
    → all_of_part p (xs ++ ys) ≡ true
unfolding all_of_part
all_of_part-append p [] ys hx hy = hy
all_of_part-append p (join j ∷ xs) ys hx hy = ground (arith, all_of_part-append p xs ys)
all_of_part-append p (fetch f ∷ xs) ys hx hy = ground (arith, all_of_part-append p xs ys)

-- A queue at its own partition stays so when another takes its place.
pub all_of_part-set :
    (p q : ℕ) (xs : List VersionedJoinMeta) (m : Map (List VersionedJoinMeta))
    → all_of_part p xs ≡ true
    → all_of_part q (get [] q m) ≡ true
    → all_of_part q (get [] q (set p xs m)) ≡ true
all_of_part-set p q xs m hx hm = ground (arith, get-set [] q p xs m)

pub all_of_part-erase :
    (p q : ℕ) (m : Map (List VersionedJoinMeta))
    → all_of_part q (get [] q m) ≡ true
    → all_of_part q (get [] q (erase p m)) ≡ true
unfolding all_of_part
all_of_part-erase p q m h = ground (arith, get-erase [] q p m)

pub pop_waiting-IsValid :
    (p : ℕ) (w : List VersionedJoinMeta) (s : PlanController)
    → all_of_part p w ≡ true
    → IsValid s
    → IsValid (record s { waiting_updates = set p w s.waiting_updates })
unfolding is_apart
pop_waiting-IsValid p w s h x = record {
  apart = λ q. x.apart q;
  waiting = λ q. all_of_part-set p q w s.waiting_updates h (x.waiting q);
  pending = λ q v. x.pending q v;
  buffered = λ q. x.buffered q;
}

pub push_waiting-IsValid :
    (p : ℕ) (ms : List VersionedJoinMeta) (s : PlanController)
    → all_of_part p ms ≡ true
    → IsValid s
    → IsValid (push_waiting p ms s)
unfolding push_waiting
push_waiting-IsValid p ms s h x =
    pop_waiting-IsValid p (get [] p s.waiting_updates ++ ms) s
      (all_of_part-append p (get [] p s.waiting_updates) ms (x.waiting p) h) x

pub push_buffered-IsValid :
    (p : ℕ) (m : VersionedJoinMeta) (s : PlanController)
    → all_of_part p (m ∷ []) ≡ true
    → IsValid s
    → IsValid (push_buffered p m s)
unfolding push_buffered is_apart
push_buffered-IsValid p m s h x = record {
  apart = λ q. x.apart q;
  waiting = λ q. x.waiting q;
  pending = λ q v. x.pending q v;
  buffered = λ q.
      all_of_part-set p q (get [] p s.buffered_requests ++ m ∷ []) s.buffered_requests
        (all_of_part-append p (get [] p s.buffered_requests) (m ∷ []) (x.buffered p) h)
        (x.buffered q);
}

-- The requests that wait for one version of one partition are written.
pub pend-IsValid :
    (p v : ℕ) (ms : List VersionedJoinMeta) (s : PlanController)
    → all_of_part p ms ≡ true
    → IsValid s
    → IsValid (record s {
      pending_updates = set p (set v ms (get [] p s.pending_updates)) s.pending_updates;
    })
unfolding is_apart
pend-IsValid p v ms s h x = record {
  apart = λ q. x.apart q;
  waiting = λ q. x.waiting q;
  pending = λ q u. ground (
    arith,
    get-set [] q p (set v ms (get [] p s.pending_updates)) s.pending_updates,
    get-set [] u v ms (get [] p s.pending_updates),
    x.pending q u,
    x.pending p u,
  );
  buffered = λ q. x.buffered q;
}

-- The requests of one version leave.
pub unpend-IsValid :
    (p v : ℕ) (s : PlanController)
    → IsValid s
    → IsValid (record s {
      pending_updates = set p (erase v (get [] p s.pending_updates)) s.pending_updates;
    })
unfolding is_apart all_of_part
unpend-IsValid p v s x = record {
  apart = λ q. x.apart q;
  waiting = λ q. x.waiting q;
  pending = λ q u. ground (
    arith,
    get-set [] q p (erase v (get [] p s.pending_updates)) s.pending_updates,
    get-erase [] u v (get [] p s.pending_updates),
    x.pending q u,
    x.pending p u,
  );
  buffered = λ q. x.buffered q;
}

pub push_pending-IsValid :
    (p v : ℕ) (m : VersionedJoinMeta) (s : PlanController)
    → all_of_part p (m ∷ []) ≡ true
    → IsValid s
    → IsValid (push_pending p v m s)
unfolding push_pending
push_pending-IsValid p v m s h x =
    pend-IsValid p v (get [] v (get [] p s.pending_updates) ++ m ∷ []) s
      (all_of_part-append p (get [] v (get [] p s.pending_updates)) (m ∷ []) (x.pending p v) h) x

pub track-IsValid :
    (p v : ℕ) (t : List ℕ) (s : PlanController) → IsValid s → IsValid (track p v t s)
unfolding track is_apart
track-IsValid p v t s x = record {
  apart = λ q. x.apart q;
  waiting = λ q. x.waiting q;
  pending = λ q v. x.pending q v;
  buffered = λ q. x.buffered q;
}

-- A step that leaves the queues.
pub with_apart :
    (s s' : PlanController)
    → IsValid s
    → s'.waiting_updates ≡ s.waiting_updates
    → s'.pending_updates ≡ s.pending_updates
    → s'.buffered_requests ≡ s.buffered_requests
    → ((p : ℕ) → is_apart p s' ≡ true)
    → IsValid s'
with_apart s s' x ew ep eb a = record {
  apart = a;
  waiting = λ q. rw ew (x.waiting q);
  pending = λ q v. rw ep (x.pending q v);
  buffered = λ q. rw eb (x.buffered q);
}
