-- ===== src/Worker/IndexedSeqPartition/Messages.antt =====
-- core/partition/indexed_seq_partition.hpp: a partition that is not sorted holds, for each key, what its messages made of it.
use tangram.Base.{
  ℕ, zero, suc, ◌≡◌, refl, arith, ◌==◌, if◌then◌else◌, false, Option, some, none, List, [], ◌∷◌,
  ◌++◌, length, get_elem?, get_elem?-write_at, lt-length, write_at, lookup, lookup-set, ◌>>=◌,
  Option-cases, Bool-cases, inl, inr, some_injective, ap, sym, ◌∙◌,
}
use tangram.Worker.IndexedSeqPartition.{
  IndexedSeqPartition, typed_add, lower_bound, find, get_object, find_or_create, join_one,
  join_part,
}

module _ {ℓ κ} {V : Type ℓ} {M : Type κ} (make : ℕ → V) (update : V → M → V) where
  -- The abstract partition: what is held under each key. A message makes what is not there.
  unfoldable pub take_message : ℕ → M → Option V → V
  take_message k m none = update (make k) m
  take_message k m (some v) = update v m

  unfoldable pub replay : (k : ℕ) → List (ℕ × M) → Option V → Option V
  replay k [] o = o
  replay k (m ∷ ms) o = replay k ms (if m.0 == k then some (take_message k m.1 o) else o)

module _ {ℓ} {V : Type ℓ} where
  unfoldable pub view : IndexedSeqPartition V → ℕ → Option V
  view p k = get_object k p >>= λ o. some o.1

  -- No object is in a sorted part, and the index leads to the objects.
  pub record IsIndexed (p : IndexedSeqPartition V) : Type ℓ where
    pub plain : p.sorted_size ≡ 0
    pub indexed :
        (k i : ℕ) → lookup k p.unsorted ≡ some i → (v : V) × (get_elem? p.storage i ≡ some (k, v))

  get_elem?-end : (xs : List (ℕ × V)) (o : ℕ × V) → get_elem? (xs ++ o ∷ []) (length xs) ≡ some o
  get_elem?-end [] o = refl
  get_elem?-end (x ∷ xs) o = get_elem?-end xs o

  get_elem?-before :
      (xs ys : List (ℕ × V)) (i : ℕ) {o : ℕ × V}
      → get_elem? xs i ≡ some o
      → get_elem? (xs ++ ys) i ≡ some o
  get_elem?-before [] ys i e = cc
  get_elem?-before (x ∷ xs) ys zero e = e
  get_elem?-before (x ∷ xs) ys (suc i) e = get_elem?-before xs ys i e

  find-plain :
      (k : ℕ) (p : IndexedSeqPartition V) → p.sorted_size ≡ 0 → find k p ≡ lookup k p.unsorted
  unfolding find lower_bound
  find-plain k p h = rw h refl

  view-some :
      (k i : ℕ) (v : V) (p : IndexedSeqPartition V)
      → IsIndexed p
      → lookup k p.unsorted ≡ some i
      → get_elem? p.storage i ≡ some (k, v)
      → view p k ≡ some v
  unfolding view get_object
  view-some k i v p s e at_i = rw (find-plain k p s.plain, e, at_i) refl

  view-none :
      (k : ℕ) (p : IndexedSeqPartition V)
      → IsIndexed p
      → lookup k p.unsorted ≡ none
      → view p k ≡ none
  unfolding view get_object
  view-none k p s e = rw (find-plain k p s.plain, e) refl

  -- Two partitions that hold the same under `k`.
  view-same :
      (k : ℕ) (p q : IndexedSeqPartition V)
      → IsIndexed p
      → IsIndexed q
      → lookup k q.unsorted ≡ lookup k p.unsorted
      → ((i : ℕ) (v : V)
          → get_elem? p.storage i ≡ some (k, v)
          → get_elem? q.storage i ≡ some (k, v))
      → view q k ≡ view p k
  view-same k p q s t e keep = elim (Option-cases (lookup k p.unsorted)) [
    | inl gone ↦ view-none k q t (e ∙ gone) ∙ sym (view-none k p s gone)
    | inr (i, here) ↦
        let (v, at_i) = s.indexed k i here in
        view-some k i v q t (e ∙ here) (keep i v at_i) ∙ sym (view-some k i v p s here at_i)
  ]

  typed_add-IsIndexed :
      (k : ℕ) (v : V) (p : IndexedSeqPartition V) → IsIndexed p → IsIndexed (typed_add (k, v) p)
  unfolding typed_add
  typed_add-IsIndexed k v p s = record {
    plain = s.plain;
    indexed = λ j i e. elim (Bool-cases (k == j)) [
      | inl same ↦
          let end : i ≡ length p.storage =
            ground (arith, e, lookup-set j k (length p.storage) p.unsorted) in
          let key : k ≡ j = ground arith in (v, rw (end, ← key) (get_elem?-end p.storage (k, v)))
      | inr other ↦
          let before : lookup j p.unsorted ≡ some i =
            ground (arith, e, lookup-set j k (length p.storage) p.unsorted) in
          let (w, at_i) = s.indexed j i before in
          (w, get_elem?-before p.storage ((k, v) ∷ []) i at_i)
    ];
  }

  -- The object under `k` is replaced.
  abbrev put : ℕ → ℕ → V → IndexedSeqPartition V → IndexedSeqPartition V
  put i k w q = record q { storage = write_at q.storage i (k, w) }

  get_elem?-put :
      (i j k : ℕ) (v w : V) (q : IndexedSeqPartition V)
      → get_elem? q.storage i ≡ some (k, v)
      → get_elem? (put i k w q).storage j ≡ (if i == j then some (k, w) else get_elem? q.storage j)
  get_elem?-put i j k v w q e = get_elem?-write_at q.storage i j (k, w) (lt-length q.storage i e)

  put-IsIndexed :
      (i k : ℕ) (v w : V) (q : IndexedSeqPartition V)
      → IsIndexed q
      → lookup k q.unsorted ≡ some i
      → get_elem? q.storage i ≡ some (k, v)
      → IsIndexed (put i k w q)
  put-IsIndexed i k v w q s e at_i = record {
    plain = s.plain;
    indexed = λ j h f. elim (Bool-cases (i == h)) [
      | inl same ↦
          let (u, at_h) = s.indexed j h f in
          let here : i ≡ h = ground arith in
          let key : k ≡ j =
            ap (λ o. o.0) (some_injective (sym at_i ∙ ap (get_elem? q.storage) here ∙ at_h)) in
          (w, rw (← key) (ground (arith, get_elem?-put i h k v w q at_i)))
      | inr other ↦
          let (u, at_h) = s.indexed j h f in
          (u, ground (arith, get_elem?-put i h k v w q at_i, at_h))
    ];
  }

  view-put :
      (i j k : ℕ) (v w : V) (q : IndexedSeqPartition V)
      → IsIndexed q
      → lookup k q.unsorted ≡ some i
      → get_elem? q.storage i ≡ some (k, v)
      → view (put i k w q) j ≡ (if k == j then some w else view q j)
  view-put i j k v w q s e at_i =
      let t = put-IsIndexed i k v w q s e at_i in
      elim (Bool-cases (k == j)) [
        | inl same ↦
            let key : k ≡ j = ground arith in
            rw (same, ← key)
              (view-some k i w (put i k w q) t e (ground (arith, get_elem?-put i i k v w q at_i)))
        | inr other ↦ rw other (
            view-same j q (put i k w q) s t refl (λ h u at_h. elim (Bool-cases (i == h)) [
              | inl here ↦ absurd (ground (arith, at_i, at_h))
              | inr apart ↦ ground (arith, get_elem?-put i h k v w q at_i, at_h)
            ]))
      ]

module _ {ℓ} {V : Type ℓ} (make : ℕ → V) where
  abbrev current : ℕ → Option V → V
  current k none = make k
  current k (some v) = v

  found-none :
      (k : ℕ) (p : IndexedSeqPartition V)
      → find k p ≡ none
      → find_or_create make k p ≡ (length p.storage, typed_add (k, make k) p)
  unfolding find_or_create
  found-none k p e = rw (e, find_or_create) refl

  found-some :
      (k : ℕ) (p : IndexedSeqPartition V) {i : ℕ}
      → find k p ≡ some i
      → find_or_create make k p ≡ (i, p)
  unfolding find_or_create
  found-some k p e = rw (e, find_or_create) refl

  -- `FindOrCreate` gives the place of an object, and the partition then holds it.
  found :
      (k : ℕ) (p : IndexedSeqPartition V)
      → IsIndexed p
      → (i : ℕ) × (q : IndexedSeqPartition V) × (find_or_create make k p ≡ (i, q))
        × IsIndexed q
        × (lookup k q.unsorted ≡ some i)
        × (get_elem? q.storage i ≡ some (k, current k (view p k)))
        × ((j : ℕ) → (k == j) ≡ false → view q j ≡ view p j)
  found k p s = elim (Option-cases (lookup k p.unsorted)) [
    | inl gone ↦
        let q = typed_add (k, make k) p in
        let t = typed_add-IsIndexed k (make k) p s in
        (
          length p.storage,
          q,
          found-none k p (find-plain k p s.plain ∙ gone),
          t,
          unfold typed_add in ground (arith, lookup-set k k (length p.storage) p.unsorted),
          rw (view-none k p s gone) (unfold typed_add in get_elem?-end p.storage (k, make k)),
          λ j h.
              view-same j p q s t
                (unfold typed_add in ground (arith, lookup-set j k (length p.storage) p.unsorted))
                (λ i v at_i.
                  unfold typed_add in get_elem?-before p.storage ((k, make k) ∷ []) i at_i),
        )
    | inr (i, here) ↦
        let (v, at_i) = s.indexed k i here in
        (
          i,
          p,
          found-some k p (find-plain k p s.plain ∙ here),
          s,
          here,
          rw (view-some k i v p s here at_i) at_i,
          λ j h. refl,
        )
  ]

module _ {ℓ κ} {V : Type ℓ} {M : Type κ} (make : ℕ → V) (update : V → M → V) where
  take_message-current :
      (k : ℕ) (m : M) (o : Option V) → take_message make update k m o ≡ update (current make k o) m
  unfolding take_message
  take_message-current k m none = refl
  take_message-current k m (some v) = refl

  join_one-IsIndexed :
      (m : ℕ × M) (p : IndexedSeqPartition V)
      → IsIndexed p
      → (q : IndexedSeqPartition V) × (join_one make update m p ≡ some q)
        × IsIndexed q
        × ((j : ℕ)
            → view q j
              ≡ (if m.0 == j then some (take_message make update j m.1 (view p j)) else view p j))
  unfolding join_one
  join_one-IsIndexed (k, m) p s =
      let (i, q, e, t, at_k, at_i, others) = found make k p s in
      let v = current make k (view p k) in
      (
        put i k (update v m) q,
        rw (e, at_i) refl,
        put-IsIndexed i k v (update v m) q t at_k at_i,
        λ j. elim (Bool-cases (k == j)) [
          | inl same ↦
              let key : k ≡ j = ground arith in
              rw (view-put i j k v (update v m) q t at_k at_i, same, ← key)
                (ap (λ w. some w) (sym (take_message-current k m (view p k))))
          | inr other ↦ rw (view-put i j k v (update v m) q t at_k at_i, other) (others j other)
        ],
      )

  -- A partition that has not been sorted and whose index leads to its objects refines a map from keys to
  -- values: joining any messages fails nowhere, keeps the index right, and leaves under each key what the
  -- messages of that key, in their order, make of what was there, or of a new object.
  pub join_part-replay :
      (ms : List (ℕ × M)) (p : IndexedSeqPartition V) (k : ℕ)
      → IsIndexed p
      → (q : IndexedSeqPartition V) × (join_part make update ms p ≡ some q)
        × IsIndexed q
        × (view q k ≡ replay make update k ms (view p k))
  unfolding join_part replay
  join_part-replay [] p k s = (p, refl, s, refl)
  join_part-replay (m ∷ ms) p k s =
      let (q, e, t, v) = join_one-IsIndexed m p s in
      let (r, e', t', v') = join_part-replay ms q k t in
      (r, rw e e', t', v' ∙ ap (replay make update k ms) (v k))
