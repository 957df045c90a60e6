-- ===== src/Io/Assigner/Total.antt =====
-- `Load` of io/assigner.cpp hands out every block once.
use tangram.Base.{
  ℕ, zero, suc, ◌+◌, ◌<◌, some, List, [], ◌∷◌, ◌++◌, Map, ◌≡◌, refl, get, has, erase, lookup, range,
  has-set, Bool, false, ◌||◌, ◌==◌, set, insert, map, size, length, count, member, if◌then◌else◌,
  has-erase, arith, ap, ◌∙◌,
}
use tangram.Io.Assigner.{
  Assigner, Slave, LoadBlock, new_assigner, init_blocks, assign_all, next_slaves, load,
}
use tangram.Io.Assigner.Listed.{IsListed, Assigned, init_blocks-IsListed, assign-Assigned}

abbrev pub id_of : LoadBlock → ℕ
id_of m = m.id

abbrev pub block_of : LoadBlock → ℕ
block_of m = m.block

-- All blocks of `a` are sent, each once, under the ids that follow.
pub record AllAssigned (a a' : Assigner) (sent : List LoadBlock) : Type 0 where
  pub none_left : size a'.blocks ≡ 0
  pub ids : map id_of sent ≡ range a.block_id (size a.blocks)
  pub once : (b : ℕ) → count b (map block_of sent) ≡ (if has b a.blocks then 1 else 0)
  pub counted : a'.num_assigned ≡ a.num_assigned + size a.blocks

nothing_left : (a : Assigner) → size a.blocks ≡ 0 → AllAssigned a a []
unfolding count range has lookup size
nothing_left a h = record {
  none_left = h;
  ids = rw h refl;
  once = λ b. empty b a.blocks h;
  counted = omega (arith, h);
}
  where
    empty : (b : ℕ) (m : Map (List ℕ)) → size m ≡ 0 → count b [] ≡ (if has b m then 1 else 0)
    empty b [] e = refl
    empty b ((k, v) ∷ m) e = absurd (omega arith)

one_more :
    (cid : ℕ) (slave : Slave) (a a1 a2 : Assigner) (block : ℕ) (sent rest : List LoadBlock)
    → Assigned cid slave a a1 block sent
    → AllAssigned a1 a2 rest
    → AllAssigned a a2 (sent ++ rest)
unfolding count range
one_more cid slave a a1 a2 block sent rest o r = rw (o.message) (record {
  none_left = r.none_left;
  ids = ids;
  once = λ b. ground (arith, r.once b, has-erase b block a.blocks, has_left b, o.was_left);
  counted = omega (arith, r.counted, o.one_more, o.fewer);
})
  where
    has_left : (b : ℕ) → has b a1.blocks ≡ has b (erase block a.blocks)
    has_left b = ap (has b) o.blocks

    tail : map id_of rest ≡ range (a.block_id + 1) (size a1.blocks)
    tail = r.ids ∙ ap (λ i. range i (size a1.blocks)) o.next_id

    ids : a.block_id ∷ map id_of rest ≡ range a.block_id (size a.blocks)
    ids =
        rw (← o.fewer)
          (ap (λ xs. a.block_id ∷ xs) (tail ∙ ap (λ i. range i (size a1.blocks)) (omega arith)))

next_slaves-pos : (all rest : List Slave) → 0 < length all → 0 < length (next_slaves all rest)
next_slaves-pos all [] h = h
next_slaves-pos all (x ∷ []) h = h
next_slaves-pos all (x ∷ y ∷ rest) h = omega arith

assign_all-AllAssigned :
    (cid : ℕ) (all rest : List Slave) (n : ℕ) (a : Assigner)
    → 0 < length all
    → 0 < length rest
    → IsListed a
    → size a.blocks ≡ n
    → (a' : Assigner) × (sent : List LoadBlock) × (assign_all cid all rest n a ≡ some (a', sent))
      × AllAssigned a a' sent
unfolding assign_all
assign_all-AllAssigned cid all rest zero a pos turn l e = (a, [], refl, nothing_left a e)
assign_all-AllAssigned cid all [] (suc n) a pos turn l e = absurd (omega arith)
assign_all-AllAssigned cid all (x ∷ xs) (suc n) a pos turn l e =
    let (a1, sent, block, done, o) = assign-Assigned cid x a l (omega (arith, e)) in
    let (a2, more, rest, r) =
      assign_all-AllAssigned cid all (next_slaves all (x ∷ xs)) n a1 pos
        (next_slaves-pos all (x ∷ xs) pos) o.listed (omega (arith, o.fewer, e)) in
    (a2, sent ++ more, ground (arith, done, rest), one_more cid x a a1 a2 block sent more o r)

new-IsListed : IsListed new_assigner
unfolding get lookup member
new-IsListed = record { sorted = tt; local = λ h b m. cc; hosted = λ b hs e. cc }

block_id-init_blocks :
    (found : List (ℕ × ℕ)) (a : Assigner) → (init_blocks found a).block_id ≡ a.block_id
unfolding init_blocks
block_id-init_blocks [] a = refl
block_id-init_blocks ((block, host) ∷ found) a = block_id-init_blocks found _

-- Whether the browser lists the block.
unfoldable pub is_listed : ℕ → List (ℕ × ℕ) → Bool
is_listed b [] = false
is_listed b ((block, host) ∷ found) = block == b || is_listed b found

has-init_blocks :
    (b : ℕ) (found : List (ℕ × ℕ)) (a : Assigner)
    → has b (init_blocks found a).blocks ≡ (is_listed b found || has b a.blocks)
unfolding init_blocks is_listed
has-init_blocks b [] a = refl
has-init_blocks b ((block, host) ∷ found) a =
    let hosts = get [] block a.blocks ++ host ∷ [] in
    let a' : Assigner = record a {
      locality_map = set host (insert block (get [] host a.locality_map)) a.locality_map;
      blocks = set block hosts a.blocks;
    } in
    ground (arith, has-init_blocks b found a', has-set b block hosts a.blocks)

as_listed :
    (b : ℕ) (found : List (ℕ × ℕ))
    → has b (init_blocks found new_assigner).blocks ≡ is_listed b found
unfolding has lookup
as_listed b found = ground (arith, has-init_blocks b found new_assigner)

length-map_id : (sent : List LoadBlock) → length (map id_of sent) ≡ length sent
length-map_id [] = refl
length-map_id (m ∷ sent) = ap suc (length-map_id sent)

length-range : (i n : ℕ) → length (range i n) ≡ n
unfolding range
length-range i zero = refl
length-range i (suc n) = ap suc (length-range (suc i) n)

-- If there is a slave, and there are as many numbers of threads as slaves, then Load of a new assigner fails no
-- CHECK, leaves no block, sends each block that the browser lists once, however many hosts it is listed with,
-- and no other, under the ids from 0 on, and counts the blocks sent.
pub load-AllAssigned :
    (found : List (ℕ × ℕ)) (cid : ℕ) (slaves : List Slave) (threads : List ℕ)
    → 0 < length slaves
    → length slaves ≡ length threads
    → (a : Assigner) × (sent : List LoadBlock) × (load found cid slaves threads new_assigner
        ≡ some (a, sent))
      × (size a.blocks ≡ 0)
      × ((b : ℕ) → count b (map block_of sent) ≡ (if is_listed b found then 1 else 0))
      × (map id_of sent ≡ range 0 (length sent))
      × (a.num_assigned ≡ length sent)
unfolding load
load-AllAssigned found cid slaves threads pos same =
    let l = init_blocks-IsListed found new_assigner new-IsListed in
    let a0 = init_blocks found new_assigner in
    let a1 : Assigner = record a0 {
      num_finished = 0;
      num_assigned = 0;
      expected_num_finished = size a0.blocks;
    } in
    let (a, sent, e, r) =
      assign_all-AllAssigned cid slaves slaves (size a0.blocks) a1 pos pos
        (record { sorted = l.sorted; local = l.local; hosted = l.hosted }) refl in
    let ids =
      r.ids ∙ ap (λ i. range i (size a0.blocks)) (block_id-init_blocks found new_assigner) in
    let many : length sent ≡ size a0.blocks =
      omega (arith, length-map_id sent, ap length ids, length-range 0 (size a0.blocks)) in
    (
      a,
      sent,
      ground (arith, same, e),
      r.none_left,
      λ b. r.once b ∙ ap (λ t. if t then 1 else 0) (as_listed b found),
      rw many ids,
      omega (arith, r.counted, many),
    )
