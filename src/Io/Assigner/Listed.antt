-- ===== src/Io/Assigner/Listed.antt =====
-- What `InitBlocks` of io/assigner.cpp makes of the blocks that the browser lists, and what `Assign` takes of it.
use tangram.Base.{
  ℕ, suc, ◌+◌, ◌<◌, true, false, ◌&&◌, none, some, List, [], ◌∷◌, ◌++◌, Map, ◌≡◌, refl, inl, inr,
  lookup, set, get, has, erase, insert, insert_new, remove, size, length, member, if◌then◌else◌,
  ◌==◌, Above, IsSorted, Above-set, Above-erase, lookup_below, get-set, lookup-set, lookup-erase,
  get-erase, member-insert, member-remove, member-append, length-append, arith, Option-cases,
  get-some, get-none,
}
use tangram.Io.Assigner.{
  Assigner, Slave, LoadBlock, init_blocks, forget, choose, assign_block, assign, first_key,
}

-- A block that is local to a host names the host, and every block has a host.
pub record IsListed (a : Assigner) : Type 0 where
  pub sorted : IsSorted a.blocks
  pub local :
      (h b : ℕ) → member b (get [] h a.locality_map) ≡ true → member h (get [] b a.blocks) ≡ true
  pub hosted : (b : ℕ) (hosts : List ℕ) → lookup b a.blocks ≡ some hosts → 0 < length hosts

pub init_blocks-IsListed :
    (found : List (ℕ × ℕ)) (a : Assigner) → IsListed a → IsListed (init_blocks found a)
unfolding init_blocks member
init_blocks-IsListed [] a l = l
init_blocks-IsListed ((block, host) ∷ found) a l =
    let hosts = get [] block a.blocks in
    let blocks = get [] host a.locality_map in
    init_blocks-IsListed found _ (record {
      sorted = Above-set 0 block (hosts ++ host ∷ []) a.blocks (omega arith) l.sorted;
      local = λ h b m. ground (
        arith,
        get-set [] h host (insert block blocks) a.locality_map,
        get-set [] b block (hosts ++ host ∷ []) a.blocks,
        member-insert b block blocks,
        member-append h hosts (host ∷ []),
        l.local h b,
      );
      hosted = λ b hs e. ground (
        arith,
        lookup-set b block (hosts ++ host ∷ []) a.blocks,
        length-append hosts (host ∷ []),
        l.hosted b hs,
      );
    })

pub size-erase :
    (b k : ℕ) (v : List ℕ) (m : Map (List ℕ))
    → Above b m
    → lookup k m ≡ some v
    → suc (size (erase k m)) ≡ size m
unfolding size erase lookup
size-erase b k v [] a e = cc
size-erase b k v ((j, w) ∷ m) a e =
    ground (arith, size-erase (suc j) k v m a.1, lookup_below k (suc j) m, size-erase_none k m)
  where
    size-erase_none : (k : ℕ) (m : Map (List ℕ)) → lookup k m ≡ none → size (erase k m) ≡ size m
    size-erase_none k [] h = refl
    size-erase_none k ((j, w) ∷ m) h = ground (arith, size-erase_none k m)

member-forget :
    (block h b : ℕ) (locs : List ℕ) (m : Map (List ℕ))
    → member b (get [] h (forget block locs m))
      ≡ (if member h locs && block == b then false else member b (get [] h m))
unfolding forget member
member-forget block h b [] m = refl
member-forget block h b (loc ∷ locs) m =
    let left = remove block (get [] loc m) in
    ground (
      arith,
      member-forget block h b locs (set loc left m),
      get-set [] h loc left m,
      member-remove b block (get [] loc m),
    )

-- A block is left to be chosen.
choose-some :
    (host : ℕ) (a : Assigner)
    → IsListed a
    → 0 < size a.blocks
    → (b : ℕ) × (hosts : List ℕ) × (choose host a ≡ some b) × (lookup b a.blocks ≡ some hosts)
unfolding choose
choose-some host a l pos =
    let (k, hosts, first, found) = first_key-some a.blocks pos in
    elim (get [] host a.locality_map)
        as (λ bs.
          get [] host a.locality_map ≡ bs
          → (b : ℕ) × (hosts : List ℕ) × (choose host a ≡ some b)
            × (lookup b a.blocks ≡ some hosts)) [
              | [] ↦ λ e. (k, hosts, rw (choose, first, e) refl, found)
              | b ∷ bs ↦ λ e.
                  let named = l.local host b (rw e (unfold member in ground arith)) in
                  elim (Option-cases (lookup b a.blocks)) [
                    | inl missing ↦
                        absurd
                          (nobody host (get [] b a.blocks) (get-none [] b a.blocks missing) named)
                    | inr (hs, there) ↦ (b, hs, rw (choose, first, e) refl, there)
                  ]
            ]
      refl
  where
    first_key-some :
        (m : Map (List ℕ))
        → 0 < size m
        → (k : ℕ) × (v : List ℕ) × (first_key m ≡ some k) × (lookup k m ≡ some v)
    first_key-some [] h = absurd (unfold size in omega arith)
    first_key-some ((k, v) ∷ m) h = (k, v, refl, unfold lookup in ground arith)

    nobody : (h : ℕ) (xs : List ℕ) → xs ≡ [] → member h xs ≡ true → ⊥
    nobody h [] e m = unfold member in cc
    nobody h (x ∷ xs) e m = cc

-- One block is assigned: it is sent under the next id, and is no longer left.
pub record Assigned (collection_id : ℕ) (slave : Slave) (a a' : Assigner) (block : ℕ)
    (sent : List LoadBlock) : Type 0 where
  pub listed : IsListed a'
  pub was_left : has block a.blocks ≡ true
  pub blocks : a'.blocks ≡ erase block a.blocks
  pub fewer : suc (size a'.blocks) ≡ size a.blocks
  pub next_id : a'.block_id ≡ a.block_id + 1
  pub one_more : a'.num_assigned ≡ a.num_assigned + 1
  pub message :
      sent
      ≡ record { to = slave.node_id; id = a.block_id; block = block; collection_id = collection_id }
        ∷ []

pub assign-Assigned :
    (collection_id : ℕ) (slave : Slave) (a : Assigner)
    → IsListed a
    → 0 < size a.blocks
    → (a' : Assigner) × (sent : List LoadBlock) × (block : ℕ) × (assign collection_id slave a
        ≡ some ((a', sent), true))
      × Assigned collection_id slave a a' block sent
unfolding assign assign_block has
assign-Assigned collection_id slave a l pos =
    let (b, hosts, chosen, found) = choose-some slave.hostname a l pos in
    let a' : Assigner = record a {
      locality_map = forget b hosts a.locality_map;
      blocks = erase b a.blocks;
      assigned_blocks = insert_new a.block_id b a.assigned_blocks;
      block_id = a.block_id + 1;
      num_assigned = a.num_assigned + 1;
    } in
    (
      a',
      _,
      b,
      ground (arith, chosen, found, l.hosted b hosts),
      record {
        listed = record {
          sorted = Above-erase 0 b a.blocks l.sorted;
          local = λ h c m. ground (
            arith,
            member-forget b h c hosts a.locality_map,
            l.local h c,
            get-erase [] c b a.blocks,
            get-some [] b a.blocks found,
          );
          hosted = λ c hs e. ground (arith, lookup-erase c b a.blocks, l.hosted c hs);
        };
        was_left = ground (arith, found);
        blocks = refl;
        fewer = size-erase 0 b hosts a.blocks l.sorted found;
        next_id = refl;
        one_more = refl;
        message = refl;
      },
    )
