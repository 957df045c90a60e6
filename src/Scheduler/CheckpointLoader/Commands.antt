-- ===== src/Scheduler/CheckpointLoader/Commands.antt =====
-- The commands that core/scheduler/checkpoint_loader.cpp sends.
use tangram.Base.{
  range, ℕ, suc, ◌+◌, some, List, [], ◌∷◌, ◌≡◌, refl, arith, get_elem?, length, ap, ◌∙◌,
}
use tangram.Plan.Spec.{Url}
use tangram.Scheduler.CheckpointLoader.{load_commands, load_commands_of}

load_commands-range_from :
    (cid i : ℕ) (all nodes : List ℕ) (url : Url)
    → ((j : ℕ) → get_elem? all (i + j) ≡ get_elem? nodes j)
    → load_commands_of cid (range i (length nodes)) all url ≡ some (load_commands cid i nodes url)
unfolding load_commands load_commands_of range
load_commands-range_from cid i all [] url h = refl
load_commands-range_from cid i all (n ∷ ns) url h =
    let here : get_elem? all i ≡ some n = ap (get_elem? all) (omega arith) ∙ h 0 in
    ground (
      arith,
      here,
      load_commands-range_from cid (suc i) all ns url
          (λ j. rw (← h (suc j)) (ap (get_elem? all) (omega arith))),
    )

-- LoadCheckpoint sends the same commands as LoadCheckpointPartial of all partitions.
pub load_commands-range :
    (cid : ℕ) (nodes : List ℕ) (url : Url)
    → load_commands_of cid (range 0 (length nodes)) nodes url ≡ some (load_commands cid 0 nodes url)
load_commands-range cid nodes url =
    load_commands-range_from cid 0 nodes nodes url (λ j. ap (get_elem? nodes) (omega arith))
