-- ===== src/Worker/PlanController/Payload.antt =====
-- core/worker/plan_controller.cpp: what an update will apply to its partition, before and after the partition moves.
use tangram.Base.{
  ℕ, ◌≡◌, refl, arith, ◌==◌, if◌then◌else◌, true, false, Option, some, none, List, [], ◌∷◌, ◌>>=◌,
  >>=-eq-some, Bool-cases, inl, inr, Map, get, lookup,
}
use tangram.Worker.Elem.{Bytes, VersionedJoinMeta, join, fetch, upstream_part_ids}
use tangram.Worker.StreamStore.{
  StreamKey, stream_key, StreamStore, same_ids, same_key, find_stream, erase_stream, take_stream,
}
use tangram.Worker.PlanController.Migrate.{serialize_meta, serialize_metas, serialize_pending}

same_ids-eq : (xs ys : List ℕ) → same_ids xs ys ≡ true → xs ≡ ys
unfolding same_ids
same_ids-eq [] [] h = refl
same_ids-eq [] (y ∷ ys) h = cc
same_ids-eq (x ∷ xs) [] h = cc
same_ids-eq (x ∷ xs) (y ∷ ys) h = ground (arith, same_ids-eq xs ys)

same_key-eq : (a b : StreamKey) → same_key a b ≡ true → a ≡ b
unfolding same_key
same_key-eq a b h = ground (arith, same_ids-eq a.upstream_part_ids b.upstream_part_ids)

find_stream-erase_self : (k : StreamKey) (m : StreamStore) → find_stream k (erase_stream k m) ≡ none
unfolding find_stream erase_stream
find_stream-erase_self k [] = refl
find_stream-erase_self k ((i, s) ∷ m) = ground (arith, find_stream-erase_self k m)

-- A stream that is found after others were taken was there before.
find_stream-erase_stream :
    (j k : StreamKey) (m : StreamStore) (b : Bytes)
    → find_stream k (erase_stream j m) ≡ some b
    → find_stream k m ≡ some b
unfolding find_stream erase_stream
find_stream-erase_stream j k [] b h = h
find_stream-erase_stream j k ((i, s) ∷ m) b h = ground (
  arith,
  find_stream-erase_stream j k m b,
  find_stream-erase_self j m,
  same_key-eq i j,
  same_key-eq i k,
)

-- A waiting request as it is carried to another node: a local one with the stream that `store` holds for it.
unfoldable pub carry : StreamStore → VersionedJoinMeta → Option VersionedJoinMeta
carry store (join j) =
    if j.local_mode
    then (find_stream (stream_key j.part_id (upstream_part_ids j.upstream) j.version) store >>= λ b.
        some (join (record j { bin = b; local_mode = false })))
    else some (join j)
carry store (fetch f) =
    if f.local_mode
    then (f.version >>= λ v.
        find_stream (stream_key f.part_id (f.upstream_part_id ∷ []) v) store >>= λ b.
        some (fetch (record f { bin = b; local_mode = false })))
    else some (fetch f)

unfoldable pub carry_all : StreamStore → List VersionedJoinMeta → Option (List VersionedJoinMeta)
unfolding carry
carry_all store [] = some []
carry_all store (m ∷ ms) = do one ← carry store m; rest ← carry_all store ms; some (one ∷ rest)

-- Each stream of the first is in the second.
abbrev pub Within : StreamStore → StreamStore → Type 0
Within st st0 = (k : StreamKey) (b : Bytes) → find_stream k st ≡ some b → find_stream k st0 ≡ some b

take_stream-Within :
    (k : StreamKey) (st st0 st' : StreamStore) (b : Bytes)
    → take_stream k st ≡ some (b, st')
    → Within st st0
    → (find_stream k st0 ≡ some b) × Within st' st0
unfolding take_stream
take_stream-Within k st st0 st' b e w =
    let (c, e1, e2) = >>=-eq-some (find_stream k st) _ e in
    let found : find_stream k st ≡ some b = ground arith in
    let left : erase_stream k st ≡ st' = ground arith in
    (w k b found, λ j x h. w j x (find_stream-erase_stream k j st x (rw left h)))

serialize_meta-carry :
    (m m' : VersionedJoinMeta) (st st0 st' : StreamStore)
    → serialize_meta m st ≡ some (m', st')
    → Within st st0
    → (carry st0 m ≡ some m') × Within st' st0
unfolding serialize_meta carry
serialize_meta-carry (join j) m' st st0 st' e w =
    let k = stream_key j.part_id (upstream_part_ids j.upstream) j.version in
    elim (Bool-cases j.local_mode) [
      | inl here ↦
          let ((b, st1), e1, e2) = >>=-eq-some (take_stream k st) _ (rw here at e) in
          let (found, w') = take_stream-Within k st st0 st1 b e1 w in
          let same : st1 ≡ st' = cc in (ground (arith, found), rw (← same) w')
      | inr away ↦
          let e1 = rw away at e in let same : st ≡ st' = cc in (ground arith, rw (← same) w)
    ]
serialize_meta-carry (fetch f) m' st st0 st' e w = elim (Bool-cases f.local_mode) [
  | inl here ↦
      let (v, e0, e1) = >>=-eq-some f.version _ (rw here at e) in
      let k = stream_key f.part_id (f.upstream_part_id ∷ []) v in
      let ((b, st1), e2, e3) = >>=-eq-some (take_stream k st) _ e1 in
      let (found, w') = take_stream-Within k st st0 st1 b e2 w in
      let same : st1 ≡ st' = cc in (ground (arith, found), rw (← same) w')
  | inr away ↦ let e1 = rw away at e in let same : st ≡ st' = cc in (ground arith, rw (← same) w)
]

pub serialize_metas-carry :
    (ms ms' : List VersionedJoinMeta) (st st0 st' : StreamStore)
    → serialize_metas ms st ≡ some (ms', st')
    → Within st st0
    → (carry_all st0 ms ≡ some ms') × Within st' st0
unfolding serialize_metas carry_all
serialize_metas-carry [] ms' st st0 st' e w =
    let same : st ≡ st' = cc in (ground arith, rw (← same) w)
serialize_metas-carry (m ∷ ms) ms' st st0 st' e w =
    let ((m1, st1), e1, e2) = >>=-eq-some (serialize_meta m st) _ e in
    let ((ms2, st2), e3, e4) = >>=-eq-some (serialize_metas ms st1) _ e2 in
    let (c1, w1) = serialize_meta-carry m m1 st st0 st1 e1 w in
    let (c2, w2) = serialize_metas-carry ms ms2 st1 st0 st2 e3 w1 in
    let same : st2 ≡ st' = cc in (ground (arith, c1, c2), rw (← same) w2)

pub serialize_pending-carry :
    (m m' : Map (List VersionedJoinMeta)) (st st0 st' : StreamStore)
    → serialize_pending m st ≡ some (m', st')
    → Within st st0
    → ((v : ℕ) → carry_all st0 (get [] v m) ≡ some (get [] v m')) × Within st' st0
unfolding serialize_pending get lookup carry_all
serialize_pending-carry [] m' st st0 st' e w =
    let same : st ≡ st' = cc in
    let none_left : [] ≡ m' = cc in (λ v. rw (← none_left) refl, rw (← same) w)
serialize_pending-carry ((u, ms) ∷ m) m' st st0 st' e w =
    let ((ms1, st1), e1, e2) = >>=-eq-some (serialize_metas ms st) _ e in
    let ((m2, st2), e3, e4) = >>=-eq-some (serialize_pending m st1) _ e2 in
    let (c1, w1) = serialize_metas-carry ms ms1 st st0 st1 e1 w in
    let (c2, w2) = serialize_pending-carry m m2 st1 st0 st2 e3 w1 in
    let same : st2 ≡ st' = cc in
    let built : (u, ms1) ∷ m2 ≡ m' = cc in
    (
      λ v. rw (← built) (elim (Bool-cases (u == v)) [
        | inl at ↦ rw (at, get, lookup) c1
        | inr off ↦ rw (off, get, lookup) (c2 v)
      ]),
      rw (← same) w2,
    )
