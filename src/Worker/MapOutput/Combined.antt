-- ===== src/Worker/MapOutput/Combined.antt =====
-- core/map_output/map_output_stream.hpp: the loop in place joins the runs of equal keys.
use tangram.Base.{
  ℕ, suc, ◌+◌, ◌≤◌, ◌≡◌, subst, refl, arith, ◌==◌, if◌then◌else◌, true, false, some, [], ◌∷◌, ◌++◌,
  length, get_elem?, write_at, length-append, Bool-cases, inl, inr, ◌∙◌, ap, sym,
}
use mathlib.Core.List.{append_assoc}
use tangram.Worker.MapOutput.{
  Buffer, take, combine_at, combine_step, combine_loop, combine_one_buffer,
}

module _ {ℓ} {M : Type ℓ} (combine : M → M → M) where
  -- The runs of equal keys after `x`, each as one message.
  unfoldable pub runs : ℕ × M → Buffer M → Buffer M
  runs x [] = x ∷ []
  runs x (y ∷ ys) =
      let joined = runs (x.0, combine x.1 y.1) ys in
      let apart = x ∷ runs y ys in if x.0 == y.0 then joined else apart

  get_elem?-append : (p q : Buffer M) (x : ℕ × M) → get_elem? (p ++ x ∷ q) (length p) ≡ some x
  get_elem?-append [] q x = refl
  get_elem?-append (y ∷ p) q x = get_elem?-append p q x

  write_at-append : (p q : Buffer M) (x y : ℕ × M) → write_at (p ++ x ∷ q) (length p) y ≡ p ++ y ∷ q
  write_at-append [] q x y = refl
  write_at-append (z ∷ p) q x y = ap (λ b. z ∷ b) (write_at-append p q x y)

  take-append : (p q : Buffer M) (x : ℕ × M) → take (suc (length p)) (p ++ x ∷ q) ≡ p ++ x ∷ []
  unfolding take
  take-append [] q x = refl
  take-append (z ∷ p) q x = ap (λ b. z ∷ b) (take-append p q x)

  -- A buffer split at its position `l`.
  read_at :
      (b p q : Buffer M) (x : ℕ × M) (l : ℕ)
      → b ≡ p ++ x ∷ q
      → length p ≡ l
      → get_elem? b l ≡ some x
  read_at b p q x l e h = rw (e, ← h) (get_elem?-append p q x)

  written_at :
      (b p q : Buffer M) (x y : ℕ × M) (l : ℕ)
      → b ≡ p ++ x ∷ q
      → length p ≡ l
      → write_at b l y ≡ p ++ y ∷ q
  written_at b p q x y l e h = rw (e, ← h) (write_at-append p q x y)

  -- The end of what was read over moves on by one.
  read_over : (g ys : Buffer M) (y : ℕ × M) → g ++ y ∷ ys ≡ (g ++ y ∷ []) ++ ys
  read_over g ys y = sym (append_assoc g (y ∷ []) ys)

  step_same :
      (b : Buffer M) (x y : ℕ × M) (l r : ℕ)
      → get_elem? b l ≡ some x
      → get_elem? b r ≡ some y
      → (x.0 == y.0) ≡ true
      → combine_step combine l r b ≡ (l, write_at b l (x.0, combine x.1 y.1))
  unfolding combine_step combine_at
  step_same b x y l r at_l at_r h = rw (at_l, at_r, h) refl

  step_apart :
      (b : Buffer M) (x y : ℕ × M) (l r : ℕ)
      → get_elem? b l ≡ some x
      → get_elem? b r ≡ some y
      → (x.0 == y.0) ≡ false
      → combine_step combine l r b ≡ (l + 1, if l + 1 == r then b else write_at b (l + 1) y)
  unfolding combine_step combine_at
  step_apart b x y l r at_l at_r h = rw (at_l, at_r, h) refl

  combine_loop-suc :
      (n l r : ℕ) (b : Buffer M) {s : ℕ × Buffer M}
      → combine_step combine l r b ≡ s
      → combine_loop combine (suc n) l r b ≡ combine_loop combine n s.0 (r + 1) s.1
  unfolding combine_loop
  combine_loop-suc n l r b e = ap (λ s. combine_loop combine n s.0 (r + 1) s.1) e

  -- A new run starts after the last of the old.
  apart_buffer :
      (g ys p b : Buffer M) (x y : ℕ × M) (l r : ℕ)
      → b ≡ p ++ x ∷ (g ++ y ∷ ys)
      → length p ≡ l
      → length p + suc (length g) ≡ r
      → (g' : Buffer M) × ((if l + 1 == r then b else write_at b (l + 1) y)
          ≡ (p ++ x ∷ []) ++ y ∷ (g' ++ ys))
        × (length g' ≡ length g)
  apart_buffer [] ys p b x y l r e hl hr =
      let next : (l + 1 == r) ≡ true = ground (arith, hl, hr) in
      ([], rw next (e ∙ sym (append_assoc p (x ∷ []) (y ∷ ys))), refl)
  apart_buffer (z ∷ g) ys p b x y l r e hl hr =
      let later : (l + 1 == r) ≡ false = ground (arith, hl, hr) in
      (
        g ++ y ∷ [],
        rw later (
            written_at b (p ++ x ∷ []) (g ++ y ∷ ys) z y (l + 1)
              (e ∙ sym (append_assoc p (x ∷ []) (z ∷ (g ++ y ∷ ys))))
              (length-append p (x ∷ []) ∙ omega (arith, hl))
            ∙ ap (λ t. (p ++ x ∷ []) ++ y ∷ t) (read_over g ys y)),
        length-append g (y ∷ []) ∙ omega arith,
      )

  -- The state of the loop: what is joined, the last of it, what was read over, and the rest.
  combine_loop-runs :
      (ys p g b : Buffer M) (x : ℕ × M) (l r : ℕ)
      → b ≡ p ++ x ∷ (g ++ ys)
      → length p ≡ l
      → length p + suc (length g) ≡ r
      → take
          ((combine_loop combine (length ys) l r b).0 + 1)
          (combine_loop combine (length ys) l r b).1
        ≡ p ++ runs x ys
  unfolding combine_loop runs
  combine_loop-runs [] p g b x l r e hl hr =
      let n : l + 1 ≡ suc (length p) = omega (arith, hl) in rw (e, n) (take-append p (g ++ []) x)
  combine_loop-runs (y ∷ ys) p g b x l r e hl hr =
      let at_l = read_at b p (g ++ y ∷ ys) x l e hl in
      let at_r =
        read_at b (p ++ x ∷ g) ys y r (e ∙ sym (append_assoc p (x ∷ g) (y ∷ ys)))
          (length-append p (x ∷ g) ∙ hr) in
      elim (Bool-cases (x.0 == y.0)) [
        | inl same ↦
            let joined : ℕ × M = (x.0, combine x.1 y.1) in
            rw (combine_loop-suc (length ys) l r b (step_same b x y l r at_l at_r same), same)
              (combine_loop-runs ys p (g ++ y ∷ []) (write_at b l joined) joined l (r + 1)
                (written_at b p (g ++ y ∷ ys) x joined l e hl
                  ∙ ap (λ t. p ++ joined ∷ t) (read_over g ys y))
                hl (omega (arith, hr, length-append g (y ∷ []))))
        | inr apart ↦
            rw (combine_loop-suc (length ys) l r b (step_apart b x y l r at_l at_r apart), apart)
              (let (g', e', n') = apart_buffer g ys p b x y l r e hl hr in
                combine_loop-runs ys (p ++ x ∷ []) g'
                  (if l + 1 == r then b else write_at b (l + 1) y) y (l + 1) (r + 1) e'
                  (length-append p (x ∷ []) ∙ omega (arith, hl))
                  (omega (arith, hr, n', length-append p (x ∷ [])))
                ∙ append_assoc p (x ∷ []) (runs y ys))
      ]

  -- CombineOneBuffer, which moves and joins messages in place behind two indices, gives the list of the runs of
  -- equal keys, each run as one message that is combined from the left.
  pub combine_one_buffer-runs :
      (x : ℕ × M) (xs : Buffer M) → combine_one_buffer combine (x ∷ xs) ≡ runs x xs
  unfolding combine_one_buffer
  combine_one_buffer-runs x xs = combine_loop-runs xs [] [] (x ∷ xs) x 0 1 refl refl (omega arith)

  -- The keys ascend, from `k` on; and no key comes twice.
  abbrev pub From : ℕ → Buffer M → Type 0
  From k [] = Unit
  From k (y ∷ ys) = (k ≤ y.0) × From y.0 ys

  abbrev pub StrictFrom : ℕ → Buffer M → Type 0
  StrictFrom k [] = Unit
  StrictFrom k (y ∷ ys) = (k ≤ y.0) × StrictFrom (suc y.0) ys

  StrictFrom-mono : (j k : ℕ) (ys : Buffer M) → j ≤ k → StrictFrom k ys → StrictFrom j ys
  StrictFrom-mono j k [] h s = tt
  StrictFrom-mono j k (y ∷ ys) h s = (omega arith, s.1)

  runs-StrictFrom : (x : ℕ × M) (ys : Buffer M) → From x.0 ys → StrictFrom x.0 (runs x ys)
  unfolding runs
  runs-StrictFrom x [] h = (omega arith, tt)
  runs-StrictFrom x (y ∷ ys) h = elim (Bool-cases (x.0 == y.0)) [
    | inl same ↦
        let e : y.0 ≡ x.0 = ground arith in
        rw same (runs-StrictFrom (x.0, combine x.1 y.1) ys (subst (λ k. From k ys) e h.1))
    | inr apart ↦ rw apart (
      omega arith,
      StrictFrom-mono (suc x.0) y.0 (runs y ys) (ground arith) (runs-StrictFrom y ys h.1),
    )
  ]

  -- If the keys of a buffer ascend, not strictly, then after CombineOneBuffer they ascend strictly from the
  -- first key on: no key comes twice.
  pub combine_one_buffer-StrictFrom :
      (x : ℕ × M) (xs : Buffer M)
      → From x.0 xs
      → StrictFrom x.0 (combine_one_buffer combine (x ∷ xs))
  combine_one_buffer-StrictFrom x xs h = rw (combine_one_buffer-runs x xs) (runs-StrictFrom x xs h)
