-- ===== src/Worker/MapOutput/Joined.antt =====
-- core/map_output/map_output_stream.hpp with core/plan/update_helper.hpp: a stream that is combined before it is joined.
use mathlib.Core.List.{Permᴰ}
use tangram.Base.{
  ℕ, ◌≡◌, refl, arith, ◌==◌, if◌then◌else◌, true, false, Bool-cases, inl, inr, Option, some, none,
  [], ◌∷◌, ap, sym, ◌∙◌,
}
use tangram.Worker.MapOutput.{Buffer, combine_stream, combine_one_buffer}
use tangram.Worker.MapOutput.Combined.{runs, combine_one_buffer-runs}
use tangram.Worker.IndexedSeqPartition.{IndexedSeqPartition, join_part}
use tangram.Worker.IndexedSeqPartition.Messages.{
  take_message, replay, view, IsIndexed, join_part-replay,
}

module _ {ℓ κ} {V : Type ℓ} {M : Type κ} (make : ℕ → V) (update : V → M → V) (combine : M → M → M)
    (joins : (v : V) (a b : M) → update (update v a) b ≡ update v (combine a b)) where
  take_message-combine :
      (k : ℕ) (a b : M) (o : Option V)
      → take_message make update k b (some (take_message make update k a o))
        ≡ take_message make update k (combine a b) o
  unfolding take_message
  take_message-combine k a b none = joins (make k) a b
  take_message-combine k a b (some v) = joins v a b

  -- What one message makes of what is held under `k`.
  abbrev apply : ℕ → ℕ × M → Option V → Option V
  apply k m o = if m.0 == k then some (take_message make update k m.1 o) else o

  apply-combine :
      (k i j : ℕ) (a b : M) (o : Option V)
      → (i == j) ≡ true
      → apply k (i, combine a b) o ≡ apply k (j, b) (apply k (i, a) o)
  apply-combine k i j a b o same = elim (Bool-cases (i == k)) [
    | inl here ↦
        let there : (j == k) ≡ true = ground arith in
        rw (here, there) (ap (λ w. some w) (sym (take_message-combine k a b o)))
    | inr other ↦ let there : (j == k) ≡ false = ground arith in rw (other, there) refl
  ]

  replay-runs :
      (k : ℕ) (x : ℕ × M) (ys : Buffer M) (o : Option V)
      → replay make update k (runs combine x ys) o ≡ replay make update k (x ∷ ys) o
  unfolding runs replay
  replay-runs k x [] o = refl
  replay-runs k x (y ∷ ys) o = elim (Bool-cases (x.0 == y.0)) [
    | inl same ↦ rw same (
        replay-runs k (x.0, combine x.1 y.1) ys o
        ∙ ap (replay make update k ys) (apply-combine k x.0 y.0 x.1 y.1 o same))
    | inr apart ↦
        rw apart
          (replay-runs k y ys (if x.0 == k then some (take_message make update k x.1 o) else o))
  ]

  replay-combine_one_buffer :
      (k : ℕ) (xs : Buffer M) (o : Option V)
      → replay make update k (combine_one_buffer combine xs) o ≡ replay make update k xs o
  replay-combine_one_buffer k [] o = unfold combine_one_buffer in refl
  replay-combine_one_buffer k (x ∷ xs) o =
      rw (combine_one_buffer-runs combine x xs) (replay-runs k x xs o)

  module _ (commutes : (v : V) (a b : M) → update (update v a) b ≡ update (update v b) a) where
    take_message_comm :
        (k : ℕ) (a b : M) (o : Option V)
        → take_message make update k b (some (take_message make update k a o))
          ≡ take_message make update k a (some (take_message make update k b o))
    unfolding take_message
    take_message_comm k a b none = commutes (make k) a b
    take_message_comm k a b (some v) = commutes v a b

    apply_comm :
        (k : ℕ) (m n : ℕ × M) (o : Option V) → apply k m (apply k n o) ≡ apply k n (apply k m o)
    apply_comm k m n o = elim (Bool-cases (m.0 == k)) [
      | inl here ↦ elim (Bool-cases (n.0 == k)) [
        | inl there ↦ rw (here, there) (ap (λ w. some w) (take_message_comm k n.1 m.1 o))
        | inr other ↦ rw (here, other) refl
      ]
      | inr other ↦ rw other refl
    ]

    replay-Permᴰ :
        (k : ℕ) {xs ys : Buffer M} (o : Option V)
        → Permᴰ xs ys
        → replay make update k xs o ≡ replay make update k ys o
    unfolding replay
    replay-Permᴰ k o Permᴰ.nil = refl
    replay-Permᴰ k o (Permᴰ.cons {b = b} {l₁ = xs} e d) =
        ap (λ m. replay make update k xs (apply k m o)) e ∙ replay-Permᴰ k (apply k b o) d
    replay-Permᴰ k o (Permᴰ.swap {a = a} {b = b} {b' = b'} {l = l} e f) =
        ap (replay make update k l) (
          apply_comm k b a o
          ∙ ap (λ m. apply k m (apply k b o)) e
          ∙ ap (λ m. apply k b' (apply k m o)) f)
    replay-Permᴰ k o (Permᴰ.trans d e) = replay-Permᴰ k o d ∙ replay-Permᴰ k o e

    -- If an update with a combined message is the two updates, one after the other, two updates of an object
    -- can be swapped, and the sort gives a permutation: then joining the stream that Combine makes leaves the
    -- same under each key as joining the stream itself.
    pub combine_stream-join :
        (sort : Buffer M → Buffer M) (ms : Buffer M) (p : IndexedSeqPartition V) (k : ℕ)
        → Permᴰ (sort ms) ms
        → IsIndexed p
        → (q r : IndexedSeqPartition V) × (join_part make update
              (combine_stream sort (some combine) ms)
              p
            ≡ some q)
          × (join_part make update ms p ≡ some r)
          × (view q k ≡ view r k)
    unfolding combine_stream
    combine_stream-join sort ms p k perm s =
        let (q, e, _, v) =
          join_part-replay make update (combine_one_buffer combine (sort ms)) p k s in
        let (r, e', _, v') = join_part-replay make update ms p k s in
        (
          q,
          r,
          e,
          e',
          v
              ∙ replay-combine_one_buffer k (sort ms) (view p k)
              ∙ replay-Permᴰ k (view p k) perm
              ∙ sym v',
        )
