-- ===== src/Scheduler/CollectionStatus/Counts.antt =====
-- The counters of core/scheduler/collection_status.cpp under the loops of AddPlan and FinishPlan.
use tangram.Base.{
  ℕ, zero, suc, ◌+◌, ◌-◌, ◌≤◌, ◌<◌, false, Option, none, some, List, [], ◌∷◌, Map, ◌≡◌, refl, inl,
  inr, lookup, set, get, has, erase, if◌then◌else◌, ◌==◌, arith, count, lookup-set, lookup-erase,
  Bool-cases, get-none, get-some,
}
use tangram.Scheduler.CollectionStatus.{
  take_reads, take_writes, release_read, release_reads, release_writes,
}

-- The entry of a counter that stands at `n`: there is none at 0.
abbrev pub tally : ℕ → Option ℕ
tally zero = none
tally (suc n) = some (suc n)

get-tally : (c n : ℕ) (m : Map ℕ) → lookup c m ≡ tally n → get 0 c m ≡ n
get-tally c zero m e = get-none 0 c m e
get-tally c (suc n) m e = get-some 0 c m e

pub take_reads-tally :
    (c : ℕ) (rs : List ℕ) (n : ℕ) (m : Map ℕ)
    → lookup c m ≡ tally n
    → lookup c (take_reads rs m) ≡ tally (n + count c rs)
unfolding take_reads count
take_reads-tally c [] n m e = rw (e) (ground arith)
take_reads-tally c (r ∷ rs) n m e = elim (Bool-cases (r == c)) [
  | inl hit ↦ ground (
    arith,
    take_reads-tally c rs (suc n) (set r (get 0 r m + 1) m),
    lookup-set c r (get 0 r m + 1) m,
    get-tally c n m e,
  )
  | inr miss ↦
      ground
        (arith, take_reads-tally c rs n (set r (get 0 r m + 1) m), lookup-set c r (get 0 r m + 1) m)
]

has-tally : (c n : ℕ) (m : Map ℕ) → lookup c m ≡ tally n → has c m ≡ false → n ≡ 0
unfolding has
has-tally c zero m e h = refl
has-tally c (suc n) m e h = ground arith

pub take_writes-tally :
    (c : ℕ) (ws : List ℕ) (read_ids m m' : Map ℕ) (n : ℕ)
    → take_writes ws read_ids m ≡ some m'
    → lookup c m ≡ tally n
    → (lookup c m' ≡ tally (n + count c ws))
      × (0 < count c ws → (n ≡ 0) × (count c ws ≡ 1) × (has c read_ids ≡ false))
unfolding take_writes count
take_writes-tally c [] read_ids m m' n done e = (ground arith, λ h. absurd (omega arith))
take_writes-tally c (w ∷ ws) read_ids m m' n done e = elim (Bool-cases (has w m)) [
  | inl held ↦ absurd (ground arith)
  | inr free ↦ elim (Bool-cases (has w read_ids)) [
    | inl held ↦ absurd (ground arith)
    | inr unread ↦
        let rest = λ (k : ℕ).
          take_writes-tally c ws read_ids (set w (get 0 w m + 1) m) m' k (ground arith) in
        elim (Bool-cases (w == c)) [
          | inl hit ↦
              ground
                (arith, rest 1, has-tally c n m, get-tally c n m, lookup-set c w (get 0 w m + 1) m)
          | inr miss ↦ ground (arith, rest n, lookup-set c w (get 0 w m + 1) m)
        ]
  ]
]

release_read-tally :
    (r : ℕ) (n : ℕ → ℕ) (m : Map ℕ)
    → ((c : ℕ) → lookup c m ≡ tally (n c))
    → 0 < n r
    → (m' : Map ℕ) × (release_read r m ≡ some m')
      × ((c : ℕ) → lookup c m' ≡ tally (n c - (if r == c then 1 else 0)))
unfolding release_read
release_read-tally r n m e h = (
  if n r - 1 == 0 then erase r m else set r (n r - 1) m,
  ground (arith, e r),
  λ c. ground (arith, e c, e r, lookup-erase c r m, lookup-set c r (n r - 1) m),
)

pub release_reads-tally :
    (rs : List ℕ) (n : ℕ → ℕ) (m : Map ℕ)
    → ((c : ℕ) → lookup c m ≡ tally (n c))
    → ((c : ℕ) → count c rs ≤ n c)
    → (m' : Map ℕ) × (release_reads rs m ≡ some m')
      × ((c : ℕ) → lookup c m' ≡ tally (n c - count c rs))
unfolding release_reads count
release_reads-tally [] n m e h = (m, refl, λ c. ground (arith, e c))
release_reads-tally (r ∷ rs) n m e h =
    let (m1, done, e1) = release_read-tally r n m e (ground (arith, h r)) in
    let (m', rest, e') =
      release_reads-tally rs (λ c. n c - (if r == c then 1 else 0)) m1 e1
        (λ c. ground (arith, h c)) in
    (m', rw done rest, λ c. ground (arith, e' c, h c))

pub release_writes-tally :
    (ws : List ℕ) (n : ℕ → ℕ) (m : Map ℕ)
    → ((c : ℕ) → lookup c m ≡ tally (n c))
    → ((c : ℕ) → n c ≤ 1)
    → ((c : ℕ) → count c ws ≤ n c)
    → (m' : Map ℕ) × (release_writes ws m ≡ some m')
      × ((c : ℕ) → lookup c m' ≡ tally (n c - count c ws))
unfolding release_writes count has
release_writes-tally [] n m e one h = (m, refl, λ c. ground (arith, e c))
release_writes-tally (w ∷ ws) n m e one h =
    let (m', rest, e') =
      release_writes-tally ws (λ c. n c - (if w == c then 1 else 0)) (erase w m)
        (λ c. ground (arith, e c, one c, h c, lookup-erase c w m)) (λ c. ground (arith, one c))
        (λ c. ground (arith, h c)) in
    (m', ground (arith, e w, h w, rest), λ c. ground (arith, e' c, h c))
