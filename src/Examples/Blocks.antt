-- ===== src/Examples/Blocks.antt =====
-- A file of two blocks, the second with two hosts, for two nodes (io/assigner.cpp).
use tangram.Base.{
  length, ℕ, some, List, [], ◌∷◌, ◌≡◌, refl, arith, size, count, range, map, if◌then◌else◌,
}
use tangram.Io.Assigner.{Assigner, Slave, LoadBlock, new_assigner, load}
use tangram.Io.Assigner.Total.{id_of, block_of, is_listed, load-AllAssigned}

abbrev slaves : List Slave
slaves = record { hostname = 1; node_id = 1 } ∷ record { hostname = 2; node_id = 2 } ∷ []

abbrev found : List (ℕ × ℕ)
found = (10, 1) ∷ (20, 1) ∷ (20, 2) ∷ []

load-AllAssigned_example :
    (a : Assigner) × (sent : List LoadBlock) × (load found 7 slaves (4 ∷ 4 ∷ []) new_assigner
      ≡ some (a, sent))
    × (size a.blocks ≡ 0)
    × ((b : ℕ) → count b (map block_of sent) ≡ (if is_listed b found then 1 else 0))
    × (map id_of sent ≡ range 0 (length sent))
    × (a.num_assigned ≡ length sent)
load-AllAssigned_example = load-AllAssigned found 7 slaves (4 ∷ 4 ∷ []) (omega arith) refl
