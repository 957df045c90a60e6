-- ===== src/Worker/PlanController/Leaves.antt =====
-- Rules for the steps of core/worker/plan_controller.cpp: what holds of the state after each part holds after all.
use tangram.Base.{
  ◌≡◌, refl, Bool, true, false, Option, some, none, List, [], ◌∷◌, ◌++◌, ◌>>=◌, ◌>>◌, check, subst,
  >>=-eq-some, if◌then◌else◌,
}
use tangram.Worker.Elem.{Effect}
use tangram.Worker.PlanController.{PlanController, Result, ◌and_then◌, send_one}

-- A step that goes through leaves a state, and has effects, with `Q`.
module _ (Q : PlanController × List Effect → Type 0) where
  abbrev pub Ensures : Result → Type 0
  Ensures m = (r : PlanController × List Effect) → m ≡ some r → Q r

  pub some-Ensures : (r : PlanController × List Effect) → Q r → Ensures (some r)
  some-Ensures r h r' e = let e' : r ≡ r' = cc in subst Q e' h

  pub none-Ensures : Ensures none
  none-Ensures r e = cc

  -- A test that fails ends the step.
  pub check-Ensures :
      (b : Bool) (r : PlanController × List Effect) → (b ≡ true → Q r) → Ensures (check b >> some r)
  check-Ensures true r h = some-Ensures r (h refl)
  check-Ensures false r h = none-Ensures

  pub if-Ensures :
      (b : Bool) (m n : Result)
      → (b ≡ true → Ensures m)
      → (b ≡ false → Ensures n)
      → Ensures (if b then m else n)
  if-Ensures true m n h k = h refl
  if-Ensures false m n h k = k refl

  pub bind-Ensures :
      {A : Type 0} (o : Option A) (m : A → Result)
      → ((a : A) → o ≡ some a → Ensures (m a))
      → Ensures (o >>= m)
  bind-Ensures none m h = none-Ensures
  bind-Ensures (some a) m h = h a refl

-- What the parts ensure of their states and effects, taken together.
pub and_then-Ensures :
    (Q S : PlanController × List Effect → Type 0)
    → (R : PlanController → PlanController × List Effect → Type 0)
    → (m : Result) (next : PlanController → Result) → Ensures Q m
    → ((s : PlanController) (es : List Effect) → Q (s, es) → Ensures (R s) (next s))
    → ((r t : PlanController × List Effect) → Q r → R r.0 t → S (t.0, r.1 ++ t.1))
    → Ensures S (m and_then next)
and_then-Ensures Q S R none next h k j r e = cc
and_then-Ensures Q S R (some u) next h k j r e =
    let (t, e1, e2) = >>=-eq-some (next u.0) (λ rest. some (rest.0, u.1 ++ rest.1)) e in
    let e3 : (t.0, u.1 ++ t.1) ≡ r = cc in subst S e3 (j u t (h u refl) (k u.0 u.1 (h u refl) t e1))

-- The same of the state alone.
module _ (P : PlanController → Type 0) where
  abbrev pub Leaves : Result → Type 0
  Leaves m = Ensures (λ r. P r.0) m

  pub some-Leaves : (s : PlanController) (es : List Effect) → P s → Leaves (some (s, es))
  some-Leaves s es h = some-Ensures (λ r. P r.0) (s, es) h

  pub none-Leaves : Leaves none
  none-Leaves = none-Ensures (λ r. P r.0)

  pub and_then-Leaves :
      (m : Result) (next : PlanController → Result)
      → Leaves m
      → ((s : PlanController) → P s → Leaves (next s))
      → Leaves (m and_then next)
  and_then-Leaves m next h k =
      and_then-Ensures (λ r. P r.0) (λ r. P r.0) (λ _ r. P r.0) m next h (λ s _. k s) (λ r t _ y. y)

  pub send_one-Leaves : (e : Effect) (s : PlanController) → P s → Leaves (send_one e s)
  unfolding send_one
  send_one-Leaves e s h = some-Leaves s (e ∷ []) h

  pub check-Leaves :
      (b : Bool) (s : PlanController) (es : List Effect)
      → (b ≡ true → P s)
      → Leaves (check b >> some (s, es))
  check-Leaves b s es h = check-Ensures (λ r. P r.0) b (s, es) h

  pub if-Leaves :
      (b : Bool) (m n : Result)
      → (b ≡ true → Leaves m)
      → (b ≡ false → Leaves n)
      → Leaves (if b then m else n)
  if-Leaves b m n h k = if-Ensures (λ r. P r.0) b m n h k

  pub bind-Leaves :
      {A : Type 0} (o : Option A) (m : A → Result)
      → ((a : A) → o ≡ some a → Leaves (m a))
      → Leaves (o >>= m)
  bind-Leaves o m h = bind-Ensures (λ r. P r.0) o m h
