-- ===== src/Worker/Commands/Stored.antt =====
-- core/scheduler/worker.cpp: what the nodes store of a collection, on the commands of
-- core/scheduler/checkpoint_manager.cpp, and load again, on those of core/scheduler/checkpoint_loader.cpp.
use tangram.Base.{
  ℕ, suc, ◌≡◌, refl, arith, ◌==◌, if◌then◌else◌, leb, false, Option, some, [], ◌∷◌, ◌++◌, List,
  length, get, lookup, lookup-set, get-set, set, Map, Bool-cases, inl, inr, ◌&&◌, ◌>>=◌, ap, ◌∙◌,
  sym, some_injective,
}
use tangram.Plan.Spec.{Url}
use tangram.Scheduler.Elem.{Effect}
use tangram.Scheduler.CheckpointManager.{checkpoint_commands}
use tangram.Scheduler.CheckpointLoader.{load_commands, send_load_command}
use tangram.Scheduler.Process.Dispatch.{Message}
use tangram.Worker.Elem.{Bytes}
use tangram.Worker.Partitions.{PartitionManager, get_part, insert_part}
use tangram.Worker.Commands.{
  Worker, Answer, Sources, check_point, load_check_point, process_command,
}

get_part-insert_part :
    (c p c' p' : ℕ) (b : Bytes) (m : PartitionManager)
    → get_part c' p' (insert_part c p b m)
      ≡ (if c == c' && p == p' then some b else get_part c' p' m)
unfolding get_part insert_part
get_part-insert_part c p c' p' b m = elim (Bool-cases (c == c')) [
  | inl same ↦
      let e : c ≡ c' = ground arith in
      rw (same, get-set [] c' c (set p b (get [] c m)) m, same, ← e)
        (lookup-set p' p b (get [] c m))
  | inr other ↦ rw (other, get-set [] c' c (set p b (get [] c m)) m, other) refl
]

-- Every command goes to its node, one after the other; the workers stand under the numbers of their nodes.
unfoldable pub run_commands : Sources → List Effect → Map Worker → Option (Map Worker × List Answer)
run_commands src [] ws = some (ws, [])
run_commands src (Effect.to_worker n cmd ∷ es) ws = do
  w ← lookup n ws
  one ← process_command src cmd w
  rest ← run_commands src es (set n one.0 ws)
  some (rest.0, one.1 ++ rest.1)
run_commands src (e ∷ es) ws = run_commands src es ws

-- What `FromBin` reads of what `ToBin` wrote, which is not empty.
pub record HasCodec (src : Sources) (c : ℕ) : Type 0 where
  pub read_back : (b : Bytes) → src.from_bin c (src.to_bin c b) ≡ b
  pub written : (b : Bytes) → (length (src.to_bin c b) == 0) ≡ false

-- The nodes have the parts as partitions of the collection, from `i` on.
abbrev pub Held : ℕ → ℕ → List ℕ → List Bytes → Map Worker → Type 0
Held c i [] [] ws = Unit
Held c i (n ∷ ns) (b ∷ bs) ws =
    ((w : Worker) × (lookup n ws ≡ some w) × (get_part c i w.partitions ≡ some b))
    × Held c (suc i) ns bs ws
Held c i ns bs ws = ⊥

abbrev pub Known : List ℕ → Map Worker → Type 0
Known [] ws = Unit
Known (n ∷ ns) ws = ((w : Worker) × (lookup n ws ≡ some w)) × Known ns ws

-- The files hold what was written of the parts.
abbrev pub Filed : Sources → ℕ → ℕ → Url → List Bytes → Type 0
Filed src c i url [] = Unit
Filed src c i url (b ∷ bs) =
    (src.file (Url.checkpoint_url url c i) ≡ src.to_bin c b) × Filed src c (suc i) url bs

-- The answers to the commands.
abbrev pub saved : Sources → ℕ → ℕ → Url → List Bytes → List Answer
saved src c i url [] = []
saved src c i url (b ∷ bs) =
    Answer.write_file (Url.checkpoint_url url c i) (src.to_bin c b)
    ∷ Answer.reply (Message.checkpoint_finished c)
    ∷ saved src c (suc i) url bs

abbrev pub loaded : ℕ → List Bytes → List Answer
loaded c [] = []
loaded c (b ∷ bs) = Answer.reply (Message.load_checkpoint_finished c) ∷ loaded c bs

-- Workers that read alike.
abbrev Alike : Map Worker → Map Worker → Type 0
Alike ws ws' = (n : ℕ) → lookup n ws' ≡ lookup n ws

Held-Alike :
    (c i : ℕ) (ns : List ℕ) (bs : List Bytes) (ws ws' : Map Worker)
    → Alike ws ws'
    → Held c i ns bs ws
    → Held c i ns bs ws'
Held-Alike c i [] [] ws ws' a h = tt
Held-Alike c i (n ∷ ns) (b ∷ bs) ws ws' a ((w, there, part), more) =
    ((w, a n ∙ there, part), Held-Alike c (suc i) ns bs ws ws' a more)
Held-Alike c i [] (b ∷ bs) ws ws' a h = absurd h
Held-Alike c i (n ∷ ns) [] ws ws' a h = absurd h

checkpoint_commands-saved :
    (src : Sources) (c i : ℕ) (url : Url) (ns : List ℕ) (bs : List Bytes) (ws : Map Worker)
    → Held c i ns bs ws
    → (ws' : Map Worker) × (run_commands src (checkpoint_commands c i ns url) ws
        ≡ some (ws', saved src c i url bs))
      × Alike ws ws'
unfolding run_commands checkpoint_commands process_command check_point
checkpoint_commands-saved src c i url [] [] ws h = (ws, refl, λ n. refl)
checkpoint_commands-saved src c i url (n ∷ ns) (b ∷ bs) ws ((w, there, part), more) =
    let same : Alike ws (set n w ws) = λ j. ground (arith, lookup-set j n w ws, there) in
    let (ws', done, alike) =
      checkpoint_commands-saved src c (suc i) url ns bs (set n w ws)
        (Held-Alike c (suc i) ns bs ws (set n w ws) same more) in
    (ws', rw (there, part, done) refl, λ j. alike j ∙ same j)
checkpoint_commands-saved src c i url [] (b ∷ bs) ws h = absurd h
checkpoint_commands-saved src c i url (n ∷ ns) [] ws h = absurd h

-- The workers are still there, with the partitions that are not loaded: those of other collections, and
-- those below `i`.
abbrev Kept : ℕ → ℕ → Map Worker → Map Worker → Type 0
Kept c i ws ws' =
    (n : ℕ) (w : Worker)
    → lookup n ws ≡ some w
    → (w' : Worker) × (lookup n ws' ≡ some w')
      × ((c' j : ℕ)
          → (c == c' && leb i j) ≡ false
          → get_part c' j w'.partitions ≡ get_part c' j w.partitions)

abbrev with_part : ℕ → ℕ → Bytes → Worker → Worker
with_part c i b w = record w { partitions = insert_part c i b w.partitions }

set-Kept :
    (c i n : ℕ) (b : Bytes) (ws : Map Worker) (w : Worker)
    → lookup n ws ≡ some w
    → Kept c i ws (set n (with_part c i b w) ws)
set-Kept c i n b ws w there k v found = elim (Bool-cases (n == k)) [
  | inl same ↦
      let hit : n ≡ k = ground arith in
      let e : w ≡ v = some_injective (sym there ∙ rw hit found) in
      (
        with_part c i b w,
        ground (arith, lookup-set k n (with_part c i b w) ws),
        λ c' j h.
            ground (arith, get_part-insert_part c i c' j b w.partitions)
            ∙ ap (λ (x : Worker). get_part c' j x.partitions) e,
      )
  | inr other ↦ (v, ground (arith, lookup-set k n (with_part c i b w) ws), λ c' j h. refl)
]

Known-Kept :
    (c i : ℕ) (ns : List ℕ) (ws ws' : Map Worker) → Kept c i ws ws' → Known ns ws → Known ns ws'
Known-Kept c i [] ws ws' k h = tt
Known-Kept c i (n ∷ ns) ws ws' k ((w, there), more) =
    let (w', there', part) = k n w there in ((w', there'), Known-Kept c i ns ws ws' k more)

load_commands-Held :
    (src : Sources) (c i : ℕ) (url : Url) (ns : List ℕ) (bs : List Bytes) (ws : Map Worker)
    → HasCodec src c
    → Known ns ws
    → length ns ≡ length bs
    → Filed src c i url bs
    → (ws' : Map Worker) × (run_commands src (load_commands c i ns url) ws
        ≡ some (ws', loaded c bs))
      × Held c i ns bs ws'
      × Kept c i ws ws'
unfolding run_commands load_commands send_load_command process_command load_check_point
load_commands-Held src c i url [] [] ws h known all filed =
    (ws, refl, tt, λ n w there. (w, there, λ c' j e. refl))
load_commands-Held src c i url [] (b ∷ bs) ws h known all filed = absurd (omega (arith, all))
load_commands-Held src c i url (n ∷ ns) [] ws h known all filed = absurd (omega (arith, all))
load_commands-Held src c i url (n ∷ ns) (b ∷ bs) ws h ((w, there), known) all (file, filed) =
    let w1 = with_part c i b w in
    let kept1 = set-Kept c i n b ws w there in
    let (ws', done, held, kept) =
      load_commands-Held src c (suc i) url ns bs (set n w1 ws) h
        (Known-Kept c i ns ws (set n w1 ws) kept1 known) (omega (arith, all)) filed in
    let (w2, there2, part2) = kept n w1 (ground (arith, lookup-set n n w1 ws)) in
    (
      ws',
      rw (there, file, h.written b, h.read_back b, done) refl,
      (
        (
          w2,
          there2,
          part2 c i (ground arith) ∙ ground (arith, get_part-insert_part c i c i b w.partitions),
        ),
        held,
      ),
      λ k v found.
          let (v1, t1, p1) = kept1 k v found in
          let (v2, t2, p2) = kept k v1 t1 in (v2, t2, λ c' j e. p2 c' j (ground arith) ∙ p1 c' j e),
    )

-- If the FromBin of a collection reads back what its ToBin wrote, which is never empty, the nodes of a
-- placement have the given parts as the partitions of the collection, each file holds what was written to its
-- URL, and every node of a second placement of as many partitions has a worker: then the commands of the
-- checkpoint manager write each partition to its URL and reply once for each, and change no worker, and the
-- commands of the checkpoint loader for the second placement fail no CHECK, reply once for each partition, and
-- leave each partition with its content on its node of the second placement, and no worker lost or with another
-- collection changed.
pub checkpoint_commands-load_commands :
    (src : Sources) (c k : ℕ) (url : Url) (nodes nodes' : List ℕ) (parts : List Bytes)
    (vs ws : Map Worker) (n c' j : ℕ) (w : Worker)
    → HasCodec src c
    → Held c 0 nodes parts vs
    → Filed src c 0 url parts
    → Known nodes' ws
    → length nodes' ≡ length parts
    → lookup n ws ≡ some w
    → (c == c') ≡ false
    → (vs' ws' : Map Worker) × (w' : Worker) × (run_commands src
          (checkpoint_commands c 0 nodes url)
          vs
        ≡ some (vs', saved src c 0 url parts))
      × (lookup k vs' ≡ lookup k vs)
      × (run_commands src (load_commands c 0 nodes' url) ws ≡ some (ws', loaded c parts))
      × Held c 0 nodes' parts ws'
      × (lookup n ws' ≡ some w')
      × (get_part c' j w'.partitions ≡ get_part c' j w.partitions)
checkpoint_commands-load_commands src c k url nodes nodes' parts vs ws n c' j w codec held filed
      known all there other =
    let (vs', stored, alike) = checkpoint_commands-saved src c 0 url nodes parts vs held in
    let (ws', back, held', kept) =
      load_commands-Held src c 0 url nodes' parts ws codec known all filed in
    let (w', there', part) = kept n w there in
    (vs', ws', w', stored, alike k, back, held', there', part c' j (ground arith))
