-- ===== src/Scheduler/RecoverManager/Pending.antt =====
-- When `RecoverDoneForACollection` of core/scheduler/recover_manager.cpp calls back.
use tangram.Base.{
  ℕ, Bool, true, false, ◌&&◌, none, some, List, [], ◌∷◌, ◌≡◌, refl, arith, length, member, remove,
  if◌then◌else◌, ◌==◌, Bool-cases, inl, inr, ◌⊎◌, member-remove, member_none,
}
use tangram.Scheduler.Elem.{Callback, Effect, call}
use tangram.Scheduler.RecoverManager.{
  RecoverManager, Step, notify_if_done, recover_done_for_a_collection,
}

-- The step `s` of collection `c` is still to be done.
abbrev pub is_pending : ℕ → Step → RecoverManager → Bool
is_pending c Step.loaded m = member c m.recovering_collections
is_pending c Step.updated m = member c m.updating_collections

abbrev pub same_step : Step → Step → Bool
same_step Step.loaded Step.loaded = true
same_step Step.updated Step.updated = true
same_step _ _ = false

-- Nothing is pending, and the closure has run.
pub record IsRecovered (f : Callback) (m : RecoverManager) (effects : List Effect) : Type 0 where
  pub idle : (c : ℕ) (s : Step) → is_pending c s m ≡ false
  pub stopped : m.started ≡ false
  pub called : effects ≡ call f ∷ []

-- Something is pending, and nothing has been called.
pub record IsRecovering (f : Callback) (m : RecoverManager) (effects : List Effect) : Type 0 where
  pub busy : (c : ℕ) × (s : Step) × (is_pending c s m ≡ true)
  pub going : m.started ≡ true
  pub kept : m.callback ≡ some f
  pub quiet : effects ≡ []

first_member : (xs : List ℕ) → (length xs == 0) ≡ false → (c : ℕ) × (member c xs ≡ true)
unfolding member
first_member [] h = cc
first_member (x ∷ xs) h = (x, ground arith)

notify-Recover :
    (m : RecoverManager) (f : Callback)
    → m.started ≡ true
    → m.callback ≡ some f
    → (m' : RecoverManager) × (effects : List Effect) × (notify_if_done m ≡ some (m', effects))
      × (m'.recovering_collections ≡ m.recovering_collections)
      × (m'.updating_collections ≡ m.updating_collections)
      × (IsRecovered f m' effects ⊎ IsRecovering f m' effects)
unfolding notify_if_done
notify-Recover m f on e = elim (Bool-cases (length m.recovering_collections == 0)) [
  | inr loading ↦ (
    m,
    [],
    ground arith,
    refl,
    refl,
    inr (record {
      busy = (let (c, h) = first_member m.recovering_collections loading in (c, Step.loaded, h));
      going = on;
      kept = e;
      quiet = refl;
    }),
  )
  | inl loaded ↦ elim (Bool-cases (length m.updating_collections == 0)) [
    | inr updating ↦ (
      m,
      [],
      ground arith,
      refl,
      refl,
      inr (record {
        busy = (let (c, h) = first_member m.updating_collections updating in (c, Step.updated, h));
        going = on;
        kept = e;
        quiet = refl;
      }),
    )
    | inl updated ↦ (
      record m { started = false; callback = none },
      call f ∷ [],
      ground arith,
      refl,
      refl,
      inl (record {
        idle = none_left (ground arith) (ground arith);
        stopped = refl;
        called = refl;
      }),
    )
  ]
]
  where
    none_left :
        length m.recovering_collections ≡ 0
        → length m.updating_collections ≡ 0
        → (c : ℕ) (s : Step)
        → is_pending c s (record m { started = false; callback = none }) ≡ false
    none_left a b c Step.loaded = member_none c m.recovering_collections a
    none_left a b c Step.updated = member_none c m.updating_collections b

-- When a recovering collection reports a pending step, no CHECK fails, exactly that step is no longer pending,
-- and either nothing is pending and the closure of Recover is called, once, or something is pending and nothing
-- is called.
pub recover_done-Recover :
    (cid : ℕ) (s : Step) (m : RecoverManager) (f : Callback)
    → m.started ≡ true
    → m.callback ≡ some f
    → is_pending cid s m ≡ true
    → (m' : RecoverManager) × (effects : List Effect) × (recover_done_for_a_collection cid s m
        ≡ some (m', effects))
      × ((c : ℕ) (r : Step)
          → is_pending c r m' ≡ (if same_step s r && cid == c then false else is_pending c r m))
      × (IsRecovered f m' effects ⊎ IsRecovering f m' effects)
unfolding recover_done_for_a_collection
recover_done-Recover cid Step.loaded m f on e h =
    let (m', effects, done, same, same', r) =
      notify-Recover (record m { recovering_collections = remove cid m.recovering_collections }) f
        on e in
    (m', effects, ground (arith, done), only m' same same', r)
  where
    only :
        (m' : RecoverManager)
        → m'.recovering_collections ≡ remove cid m.recovering_collections
        → m'.updating_collections ≡ m.updating_collections
        → (c : ℕ) (r : Step)
        → is_pending c r m'
          ≡ (if same_step Step.loaded r && cid == c then false else is_pending c r m)
    only m' a b c Step.loaded = rw a (ground (arith, member-remove c cid m.recovering_collections))
    only m' a b c Step.updated = rw b refl
recover_done-Recover cid Step.updated m f on e h =
    let (m', effects, done, same, same', r) =
      notify-Recover (record m { updating_collections = remove cid m.updating_collections }) f on
        e in
    (m', effects, ground (arith, done), only m' same same', r)
  where
    only :
        (m' : RecoverManager)
        → m'.recovering_collections ≡ m.recovering_collections
        → m'.updating_collections ≡ remove cid m.updating_collections
        → (c : ℕ) (r : Step)
        → is_pending c r m'
          ≡ (if same_step Step.updated r && cid == c then false else is_pending c r m)
    only m' a b c Step.loaded = rw a refl
    only m' a b c Step.updated = rw b (ground (arith, member-remove c cid m.updating_collections))
