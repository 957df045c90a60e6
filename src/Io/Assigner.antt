-- ===== src/Io/Assigner.antt =====
-- io/assigner.hpp and assigner.cpp: the blocks of a file are handed to the nodes one after the other, blocks stored on the
-- node first. A block is a number, which stands for its filename and offset and ascends with them; a hostname is a
-- number too. What the browser lists is an argument. Nothing else of the block readers is modelled.
pub mod Listed
pub mod Total
use tangram.Base.{
  ℕ, zero, suc, ◌+◌, Bool, true, false, Option, none, some, List, [], ◌∷◌, ◌++◌, Map, lookup, set,
  get, erase, insert, insert_new, remove, size, length, ltb, if◌then◌else◌, ◌==◌, check, ◌>>=◌,
  ◌>>◌,
}

pub record Slave : Type 0 where
  pub hostname : ℕ
  pub node_id : ℕ

-- The message `kLoadBlock`.
pub record LoadBlock : Type 0 where
  pub to : ℕ
  pub id : ℕ
  pub block : ℕ
  pub collection_id : ℕ

pub record FinishedBlock : Type 0 where
  pub block_id : ℕ
  pub node_id : ℕ
  pub hostname : ℕ
  pub collection_id : ℕ

pub record StoredBlock : Type 0 where
  pub block : ℕ
  pub node_id : ℕ

pub record Assigner : Type 0 where
  pub locality_map : Map (List ℕ)
  pub blocks : Map (List ℕ)
  pub assigned_blocks : Map ℕ
  pub finished_blocks : Map StoredBlock
  pub block_id : ℕ
  pub num_finished : ℕ
  pub num_assigned : ℕ
  pub expected_num_finished : ℕ

abbrev pub new_assigner : Assigner
new_assigner = record {
  locality_map = [];
  blocks = [];
  assigned_blocks = [];
  finished_blocks = [];
  block_id = 0;
  num_finished = 0;
  num_assigned = 0;
  expected_num_finished = 0;
}

-- The browser lists a block with one of its hosts.
unfoldable pub init_blocks : List (ℕ × ℕ) → Assigner → Assigner
init_blocks [] a = a
init_blocks ((block, host) ∷ found) a = init_blocks found (record a {
  locality_map = set host (insert block (get [] host a.locality_map)) a.locality_map;
  blocks = set block (get [] block a.blocks ++ host ∷ []) a.blocks;
})

-- `locality_map_[loc].erase(block)`.
unfoldable pub forget : ℕ → List ℕ → Map (List ℕ) → Map (List ℕ)
forget block [] locality_map = locality_map
forget block (loc ∷ locs) locality_map =
    forget block locs (set loc (remove block (get [] loc locality_map)) locality_map)

abbrev pub first_key : Map (List ℕ) → Option ℕ
first_key [] = none
first_key ((k, v) ∷ m) = some k

-- The block that is assigned, if one is left: the first of the host, or else the first of all.
unfoldable pub choose : ℕ → Assigner → Option ℕ
choose host a = elim (first_key a.blocks) [
  | none ↦ none
  | some k ↦ elim (get [] host a.locality_map) [ [] ↦ some k | b ∷ bs ↦ some b ]
]

-- `none` is a failed CHECK; without a block left the code returns false and sends nothing.
unfoldable pub assign_block : ℕ → Slave → ℕ → Assigner → Option (Assigner × List LoadBlock)
unfolding forget
assign_block collection_id slave block a = do
  locs ← lookup block a.blocks
  check (ltb 0 (length locs))
  some (
    record a {
      locality_map = forget block locs a.locality_map;
      blocks = erase block a.blocks;
      assigned_blocks = insert_new a.block_id block a.assigned_blocks;
      block_id = a.block_id + 1;
      num_assigned = a.num_assigned + 1;
    },
    record { to = slave.node_id; id = a.block_id; block = block; collection_id = collection_id }
        ∷ [],
  )

unfoldable pub assign : ℕ → Slave → Assigner → Option ((Assigner × List LoadBlock) × Bool)
unfolding choose assign_block
assign collection_id slave a = elim (choose slave.hostname a) [
  | none ↦ some ((a, []), false)
  | some block ↦ do r ← assign_block collection_id slave block a; some (r, true)
]

abbrev pub next_slaves : List Slave → List Slave → List Slave
next_slaves all [] = all
next_slaves all (x ∷ []) = all
next_slaves all (x ∷ y ∷ rest) = y ∷ rest

-- The loop of Load: `n` blocks are left to assign, and `rest` is what is left of the slaves in this turn.
unfoldable pub assign_all :
    ℕ → List Slave → List Slave → ℕ → Assigner → Option (Assigner × List LoadBlock)
unfolding assign
assign_all collection_id all rest zero a = some (a, [])
assign_all collection_id all rest (suc n) a = elim rest [
  | [] ↦ none
  | x ∷ xs ↦ do
    one ← assign collection_id x a
    check one.1
    more ← assign_all collection_id all (next_slaves all (x ∷ xs)) n one.0.0
    some (more.0, one.0.1 ++ more.1)
]

-- `num_local_threads` has a number for each slave, and the turn starts again after as many slaves as it is long.
unfoldable pub load :
    List (ℕ × ℕ)
    → ℕ
    → List Slave
    → (num_local_threads : List ℕ) → Assigner
    → Option (Assigner × List LoadBlock)
unfolding init_blocks assign_all
load found collection_id slaves num_local_threads a = do
  check (length slaves == length num_local_threads)
  let a' = init_blocks found a
  assign_all collection_id slaves slaves (size a'.blocks)
      (record a' { num_finished = 0; num_assigned = 0; expected_num_finished = size a'.blocks })

unfoldable pub finish_block : FinishedBlock → Assigner → Option ((Assigner × List LoadBlock) × Bool)
unfolding assign
finish_block f a = do
  block ← lookup f.block_id a.assigned_blocks
  let a' = record a {
    assigned_blocks = erase f.block_id a.assigned_blocks;
    finished_blocks =
        insert_new f.block_id (record { block = block; node_id = f.node_id }) a.finished_blocks;
    num_finished = a.num_finished + 1;
  }
  let next = (do
    r ← assign f.collection_id (record { hostname = f.hostname; node_id = f.node_id }) a'
    some (r.0, false))
  if a'.num_finished == a'.expected_num_finished then some ((a', []), true) else next
