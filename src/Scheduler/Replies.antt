-- ===== src/Scheduler/Replies.antt =====
-- Counting replies, as the managers of core/scheduler do: each reply raises a count, and the expected last one acts.
use tangram.Base.{
  ℕ, zero, suc, ◌+◌, ◌≤◌, ◌<◌, Option, some, List, [], ◌∷◌, ◌++◌, ◌≡◌, ◌≢◌, refl, arith,
  if◌then◌else◌, ◌==◌, ◌>>=◌, Bool-cases, inl, inr,
}
use tangram.Scheduler.Elem.{Effect}

module _ {ℓ} {S : Type ℓ} (step : S → Option (S × List Effect)) where
  -- The same reply `n` times.
  unfoldable pub replies : ℕ → S → Option (S × List Effect)
  replies zero s = some (s, [])
  replies (suc n) s = do one ← step s; rest ← replies n one.0; some (rest.0, one.1 ++ rest.1)

  module _ (count expected : S → ℕ) where
    -- A reply that is not the expected last one is only counted.
    abbrev pub Counts : (S → Type 0) → Type ℓ
    Counts Keeps =
        (s : S)
        → Keeps s
        → count s + 1 ≢ expected s
        → (s' : S) × (step s ≡ some (s', []))
          × (count s' ≡ count s + 1)
          × (expected s' ≡ expected s)
          × Keeps s'

    pub replies-early :
        {Keeps : S → Type 0}
        → Counts Keeps
        → (n : ℕ) (s : S) → Keeps s
        → count s + n < expected s
        → (s' : S) × (replies n s ≡ some (s', []))
    unfolding replies
    replies-early c zero s k h = (s, refl)
    replies-early c (suc n) s k h =
        let (s1, e, up, same, k') = c s k (omega arith) in
        let (s2, rest) = replies-early c n s1 k' (rw (up, same) (omega arith)) in
        (s2, ground (arith, e, rest))

    pub replies-late :
        {Keeps : S → Type 0}
        → Counts Keeps
        → (n : ℕ) (s : S) → Keeps s
        → expected s ≤ count s
        → (s' : S) × (replies n s ≡ some (s', []))
    unfolding replies
    replies-late c zero s k h = (s, refl)
    replies-late c (suc n) s k h =
        let (s1, e, up, same, k') = c s k (omega arith) in
        let (s2, rest) = replies-late c n s1 k' (rw (up, same) (omega arith)) in
        (s2, ground (arith, e, rest))

    module _ {Keeps : S → Type 0} (c : Counts Keeps) (last : Effect)
        (acts : (s : S)
          → Keeps s
          → count s + 1 ≡ expected s
          → (s' : S) × (step s ≡ some (s', last ∷ []))) where
      replies-last :
          (n : ℕ) (s : S)
          → Keeps s
          → count s + suc n ≡ expected s
          → (s' : S) × (replies (suc n) s ≡ some (s', last ∷ []))
      unfolding replies
      replies-last zero s k h = let (s1, e) = acts s k h in (s1, ground (arith, e))
      replies-last (suc n) s k h =
          let (s1, e, up, same, k') = c s k (omega arith) in
          let (s2, rest) = replies-last n s1 k' (rw (up, same) (omega arith)) in
          (s2, ground (arith, e, rest))

      -- The replies up to the expected last one act exactly if that one is among them.
      pub replies-acts :
          (n : ℕ) (s : S)
          → Keeps s
          → count s + suc n ≤ expected s
          → (s' : S) × (replies (suc n) s
              ≡ some (s', if count s + suc n == expected s then last ∷ [] else []))
      replies-acts n s k h = elim (Bool-cases (count s + suc n == expected s)) [
        | inl all ↦ let (s', e) = replies-last n s k (ground arith) in (s', rw all e)
        | inr some_left ↦
            let (s', e) = replies-early c (suc n) s k (ground arith) in (s', rw some_left e)
      ]
