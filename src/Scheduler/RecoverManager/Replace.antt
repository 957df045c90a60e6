-- ===== src/Scheduler/RecoverManager/Replace.antt =====
-- Which node a partition of a dead node gets in core/scheduler/recover_manager.cpp.
use tangram.Base.{
  ℕ, zero, suc, ◌+◌, ◌<◌, true, false, some, List, [], ◌∷◌, ◌≡◌, refl, arith, get_elem?, length,
  member, Bool-cases, inl, inr,
}
use tangram.Scheduler.RecoverManager.{replace_dead, advance}

-- The partitions `ns`, from `i` on, have become `ns'`: the ones of dead nodes have live nodes, and are those that are updated.
pub record Replaced (all dead : List ℕ) (i : ℕ) (ns ns' updates : List ℕ) : Type 0 where
  pub same_length : length ns' ≡ length ns
  pub kept : (j n : ℕ) → get_elem? ns j ≡ some n → member n dead ≡ false → get_elem? ns' j ≡ some n
  pub moved :
      (j n : ℕ)
      → get_elem? ns j ≡ some n
      → member n dead ≡ true
      → (m : ℕ) × (get_elem? ns' j ≡ some m) × (member m all ≡ true)
  pub named : (j n : ℕ) → get_elem? ns j ≡ some n → member (i + j) updates ≡ member n dead
  pub above : (k : ℕ) → k < i → member k updates ≡ false

-- What is left of the turn has only live nodes, and is not empty.
record IsTurn (all rest : List ℕ) : Type 0 where
  live : (m : ℕ) → member m rest ≡ true → member m all ≡ true
  some_left : 0 < length rest

advance-IsTurn :
    (all rest : List ℕ) → 0 < length all → IsTurn all rest → IsTurn all (advance all rest)
unfolding member
advance-IsTurn all [] pos t = record { live = λ m h. h; some_left = pos }
advance-IsTurn all (x ∷ []) pos t = record { live = λ m h. h; some_left = pos }
advance-IsTurn all (x ∷ y ∷ rest) pos t = record {
  live = λ m h. t.live m (ground arith);
  some_left = omega arith;
}

stays :
    (all dead : List ℕ) (i n : ℕ) (ns ns' updates : List ℕ)
    → member n dead ≡ false
    → Replaced all dead (suc i) ns ns' updates
    → Replaced all dead i (n ∷ ns) (n ∷ ns') updates
stays all dead i n ns ns' updates alive r = record {
  same_length = omega (arith, r.same_length);
  kept = kept;
  moved = moved;
  named = named;
  above = λ k h. r.above k (omega arith);
}
  where
    kept :
        (j m : ℕ)
        → get_elem? (n ∷ ns) j ≡ some m
        → member m dead ≡ false
        → get_elem? (n ∷ ns') j ≡ some m
    kept zero m h d = h
    kept (suc j) m h d = r.kept j m h d

    moved :
        (j m : ℕ)
        → get_elem? (n ∷ ns) j ≡ some m
        → member m dead ≡ true
        → (k : ℕ) × (get_elem? (n ∷ ns') j ≡ some k) × (member k all ≡ true)
    moved zero m h d = absurd (ground arith)
    moved (suc j) m h d = r.moved j m h d

    named : (j m : ℕ) → get_elem? (n ∷ ns) j ≡ some m → member (i + j) updates ≡ member m dead
    named zero m h = ground (arith, r.above i (omega arith))
    named (suc j) m h = ground (arith, r.named j m h)

moves :
    (all dead : List ℕ) (i n x : ℕ) (ns ns' updates : List ℕ)
    → member n dead ≡ true
    → member x all ≡ true
    → Replaced all dead (suc i) ns ns' updates
    → Replaced all dead i (n ∷ ns) (x ∷ ns') (i ∷ updates)
unfolding member
moves all dead i n x ns ns' updates died live r = record {
  same_length = omega (arith, r.same_length);
  kept = kept;
  moved = moved;
  named = named;
  above = λ k h. ground (arith, r.above k (omega arith));
}
  where
    kept :
        (j m : ℕ)
        → get_elem? (n ∷ ns) j ≡ some m
        → member m dead ≡ false
        → get_elem? (x ∷ ns') j ≡ some m
    kept zero m h d = absurd (ground arith)
    kept (suc j) m h d = r.kept j m h d

    moved :
        (j m : ℕ)
        → get_elem? (n ∷ ns) j ≡ some m
        → member m dead ≡ true
        → (k : ℕ) × (get_elem? (x ∷ ns') j ≡ some k) × (member k all ≡ true)
    moved zero m h d = (x, refl, live)
    moved (suc j) m h d = r.moved j m h d

    named : (j m : ℕ) → get_elem? (n ∷ ns) j ≡ some m → member (i + j) (i ∷ updates) ≡ member m dead
    named zero m h = ground arith
    named (suc j) m h = ground (arith, r.named j m h)

replace_dead-turn :
    (all rest dead : List ℕ) (i : ℕ) (ns : List ℕ)
    → 0 < length all
    → IsTurn all rest
    → (ns' updates : List ℕ) × (replace_dead all rest dead i ns ≡ some (ns', updates))
      × Replaced all dead i ns ns' updates
unfolding replace_dead member
replace_dead-turn all rest dead i [] pos t = (
  [],
  [],
  refl,
  record {
    same_length = refl;
    kept = λ j n h d. cc;
    moved = λ j n h d. cc;
    named = λ j n h. cc;
    above = λ k h. refl;
  },
)
replace_dead-turn all rest dead i (n ∷ ns) pos t = elim (Bool-cases (member n dead)) [
  | inr alive ↦
      let (ns', updates, e, r) = replace_dead-turn all rest dead (suc i) ns pos t in
      (
        n ∷ ns',
        updates,
        rw (replace_dead, alive, e) refl,
        stays all dead i n ns ns' updates alive r,
      )
  | inl died ↦
      elim rest
          as (λ rest.
            IsTurn all rest
            → (ns' updates : List ℕ) × (replace_dead all rest dead i (n ∷ ns) ≡ some (ns', updates))
              × Replaced all dead i (n ∷ ns) ns' updates) [
                | [] ↦ λ t. absurd (omega (arith, t.some_left))
                | x ∷ xs ↦ λ t.
                    let (ns', updates, e, r) =
                      replace_dead-turn all (advance all (x ∷ xs)) dead (suc i) ns pos
                        (advance-IsTurn all (x ∷ xs) pos t) in
                    (
                      x ∷ ns',
                      i ∷ updates,
                      rw (replace_dead, died, e) refl,
                      moves all dead i n x ns ns' updates died (t.live x (ground arith)) r,
                    )
              ]
        t
]

-- If a live node is left, then replacing the dead nodes of a collection fails nowhere, gives each partition of
-- a dead node a live node, leaves the other partitions where they are, and names exactly the partitions that it
-- moves.
pub replace_dead-Replaced :
    (all dead : List ℕ) (ns : List ℕ)
    → 0 < length all
    → (ns' updates : List ℕ) × (replace_dead all all dead 0 ns ≡ some (ns', updates))
      × Replaced all dead 0 ns ns' updates
replace_dead-Replaced all dead ns pos =
    replace_dead-turn all all dead 0 ns pos (record { live = λ m h. h; some_left = pos })
