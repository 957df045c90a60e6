-- ===== src/Worker/DelayedCombiner/Shuffle.antt =====
-- core/worker/delayed_combiner.cpp: the shuffle combine, one message for all maps of a node.
use mathlib.Core.List.{append_assoc, foldl}
use tangram.Base.{
  ℕ, suc, ◌+◌, ◌≡◌, refl, arith, ◌==◌, true, false, Option, some, List, [], ◌∷◌, ◌++◌, length,
  length-append, get_elem?, get_elem?-write_at, lt-length, write_at, ◌>>=◌, Map, set, erase, get,
  if◌then◌else◌, none, lookup, lookup-set, lookup-erase, map, get-set, pos, ◌∙◌, ap,
}
use tangram.Worker.DelayedCombiner.{
  StreamPair, Output, DelayedCombiner, combine_serialize_send, append_all, upstreams, add_waiting,
  add_stream,
}

module _ {ℓ} {S : Type ℓ} (append : S → S → S) (combine : S → S) where
  -- The streams of the maps of the node, one after the other.
  unfoldable pub add_each :
      (num_local_map_part version part_id : ℕ)
      → List (StreamPair S)
      → DelayedCombiner S
      → Option (DelayedCombiner S × List (Output S))
  add_each n version p [] d = some (d, [])
  add_each n version p ((u, s) ∷ v) d = do
    one ← add_stream append combine n u version p s d
    rest ← add_each n version p v one.0
    some (rest.0, one.1 ++ rest.1)

  add_stream-waits :
      (n k u version p : ℕ) (s : S) (d : DelayedCombiner S) (versions : Map (List (StreamPair S)))
      → d.combine_timeout ≡ pos (suc k)
      → get_elem? d.store p ≡ some versions
      → (length (get [] version versions ++ (u, s) ∷ []) == n) ≡ false
      → add_stream append combine n u version p s d
        ≡ some (
          record d {
            store =
                write_at d.store p (set version (get [] version versions ++ (u, s) ∷ []) versions);
          },
          [],
        )
  unfolding add_stream add_waiting
  add_stream-waits n k u version p s d versions t e h = rw (t, e, h) refl

  add_stream-submits :
      (n k u version p : ℕ) (s : S) (d : DelayedCombiner S) (versions : Map (List (StreamPair S)))
      {o : Output S}
      → d.combine_timeout ≡ pos (suc k)
      → get_elem? d.store p ≡ some versions
      → (length (get [] version versions ++ (u, s) ∷ []) == n) ≡ true
      → combine_serialize_send append combine p version (get [] version versions ++ (u, s) ∷ [])
        ≡ some o
      → add_stream append combine n u version p s d
        ≡ some (record d { store = write_at d.store p (erase version versions) }, o ∷ [])
  unfolding add_stream add_waiting
  add_stream-submits n k u version p s d versions t e h c = rw (t, e, h, c) refl

  -- What is left when all streams of the version are sent: the partition has nothing under the version, and all
  -- else is as it was.
  abbrev pub Cleared : ℕ → ℕ → Map (List (StreamPair S)) → (d d' : DelayedCombiner S) → Type ℓ
  Cleared p version versions d d' =
      (versions' : Map (List (StreamPair S))) × ((j : ℕ)
        → lookup j versions' ≡ (if version == j then none else lookup j versions))
      × ((q : ℕ) → get_elem? d'.store q ≡ (if p == q then some versions' else get_elem? d.store q))
      × (d'.combine_timeout ≡ d.combine_timeout)

  add_each-from :
      (n k version p u : ℕ) (s : S) (v q : List (StreamPair S)) (d : DelayedCombiner S)
      (versions : Map (List (StreamPair S))) (o : Output S)
      → d.combine_timeout ≡ pos (suc k)
      → get_elem? d.store p ≡ some versions
      → get [] version versions ≡ q
      → length q + suc (length v) ≡ n
      → combine_serialize_send append combine p version (q ++ (u, s) ∷ v) ≡ some o
      → (d' : DelayedCombiner S) × (add_each n version p ((u, s) ∷ v) d ≡ some (d', o ∷ []))
        × Cleared p version versions d d'
  unfolding add_each
  add_each-from n k version p u s [] q d versions o t e g l c =
      let now =
        add_stream-submits n k u version p s d versions t e
          (ground (arith, ap length g, length-append (get [] version versions) ((u, s) ∷ [])))
          (rw g c) in
      let there = λ (j : ℕ).
        get_elem?-write_at d.store p j (erase version versions) (lt-length d.store p e) in
      (
        record d { store = write_at d.store p (erase version versions) },
        rw now refl,
        (erase version versions, λ j. lookup-erase j version versions, there, refl),
      )
  add_each-from n k version p u s ((w, r) ∷ v) q d versions o t e g l c =
      let streams = get [] version versions ++ (u, s) ∷ [] in
      let now =
        add_stream-waits n k u version p s d versions t e
          (ground (arith, ap length g, length-append (get [] version versions) ((u, s) ∷ []))) in
      let d1 = record d { store = write_at d.store p (set version streams versions) } in
      let there = λ (j : ℕ).
        get_elem?-write_at d.store p j (set version streams versions) (lt-length d.store p e) in
      let (d', later, kept) =
        add_each-from n k version p w r v (q ++ (u, s) ∷ []) d1 (set version streams versions) o t
          (ground (arith, there p))
          (ground (arith, get-set [] version version streams versions)
            ∙ ap (λ x. x ++ (u, s) ∷ []) g)
          (omega (arith, l, length-append q ((u, s) ∷ [])))
          (rw (append_assoc q ((u, s) ∷ []) ((w, r) ∷ v)) c) in
      (
        d',
        rw now (rw later refl),
        (
          kept.0,
          λ j. ground (arith, kept.1 j, lookup-set j version streams versions),
          λ j. ground (arith, kept.2 j, there j),
          kept.3,
        ),
      )

  abbrev pub upstream_of : StreamPair S → ℕ
  upstream_of r = r.0

  abbrev pub stream_of : StreamPair S → S
  stream_of r = r.1

  upstreams_lem : (v : List (StreamPair S)) → upstreams append combine v ≡ map upstream_of v
  unfolding upstreams
  upstreams_lem [] = refl
  upstreams_lem ((u, t) ∷ v) = ap (λ us. u ∷ us) (upstreams_lem v)

  append_all_lem :
      (s : S) (v : List (StreamPair S))
      → append_all append combine s v ≡ foldl append s (map stream_of v)
  unfolding append_all
  append_all_lem s [] = refl
  append_all_lem s ((u, t) ∷ v) = append_all_lem (append s t) v

  -- If the combine timeout is positive and no stream of a version waits for a partition, and the streams of the
  -- node's map partitions for it come one after the other, with no round of PeriodicCombine between: then
  -- exactly one message goes out, with the upstream partitions in the order of their streams, and as its stream
  -- the first stream with the others appended to it in that order, combined once at the end. Afterwards the
  -- partition has no entry under the version, and its other versions, the other partitions and the timeout are
  -- as before.
  pub add_each-shuffle :
      (n k version p u : ℕ) (s : S) (v : List (StreamPair S)) (d : DelayedCombiner S)
      (versions : Map (List (StreamPair S)))
      → d.combine_timeout ≡ pos (suc k)
      → get_elem? d.store p ≡ some versions
      → get [] version versions ≡ []
      → suc (length v) ≡ n
      → (d' : DelayedCombiner S) × (add_each n version p ((u, s) ∷ v) d
          ≡ some (
            d',
            record {
              part_id = p;
              version = version;
              upstream_part_ids = map upstream_of ((u, s) ∷ v);
              stream = combine (foldl append s (map stream_of v));
            }
                ∷ [],
          ))
        × Cleared p version versions d d'
  unfolding combine_serialize_send
  add_each-shuffle n k version p u s v d versions t e g l =
      let (d', sent, left) =
        add_each-from n k version p u s v [] d versions _ t e g (omega (arith, l)) refl in
      (d', rw (← upstreams_lem v, ← append_all_lem s v) sent, left)
