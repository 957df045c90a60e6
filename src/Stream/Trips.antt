-- ===== src/Stream/Trips.antt =====
-- base/sarray_binstream.hpp: what is written comes back, type by type.
use mathlib.Core.List.{append_assoc, append-nil}
use tangram.Base.{
  ℕ, suc, ◌≤◌, ◌<◌, ◌≡◌, refl, arith, none, some, List, [], ◌∷◌, ◌++◌, length, Map, size,
  insert_new, Above, lookup, set, IsSorted, ap, sym, subst, ◌∙◌,
}
use tangram.Stream.{
  Bytes, SArrayBinStream, In, Out, add_bin, pop_bin, bytes_of, out_number, in_number, out_all,
  in_all, out_vector, in_vector, out_pair, in_pair, out_map, in_map, insert_entries, len_size,
  int_size,
}
use tangram.Stream.Numbers.{
  At, At-nil, add_bin-At, pop_bin-At, add_bin-append, bound, length-bytes_of, value_of-bytes_of,
}

-- `write` appends bytes, from which `inn` reads `a` and leaves what follows.
pub record Trip {ℓ} {A : Type ℓ} (write : SArrayBinStream → SArrayBinStream) (inn : In A) (a : A)
    : Type ℓ where
  pub bytes : Bytes
  pub written : (s : SArrayBinStream) → write s ≡ add_bin bytes s
  pub back :
      (t : SArrayBinStream) (rest : Bytes)
      → At (bytes ++ rest) t
      → (t' : SArrayBinStream) × (inn t ≡ some (a, t')) × At rest t'

pub number-Trip : (w n : ℕ) → n < bound w → Trip (out_number w n) (in_number w) n
unfolding out_number in_number
number-Trip w n h = record {
  bytes = bytes_of w n;
  written = λ s. refl;
  back = λ t rest ahead.
      let (t', e, later) = pop_bin-At (bytes_of w n) rest t ahead in
      (
        t',
        rw
            (
              subst (λ k. pop_bin k t ≡ some (bytes_of w n, t')) (length-bytes_of w n) e,
              value_of-bytes_of w n h,
            )
            refl,
        later,
      );
}

-- The second value is written after the first, and `inn` reads the two as `c`.
module _ {ℓ κ μ} {A : Type ℓ} {B : Type κ} {C : Type μ} {f g : SArrayBinStream → SArrayBinStream}
    {in_a : In A} {in_b : In B} {a : A} {b : B} (u : Trip f in_a a) (v : Trip g in_b b) where
  pub then-Trip :
      (inn : In C) (c : C)
      → ((t t1 t2 : SArrayBinStream)
          → in_a t ≡ some (a, t1)
          → in_b t1 ≡ some (b, t2)
          → inn t ≡ some (c, t2))
      → Trip (λ s. g (f s)) inn c
  then-Trip inn c joined = record {
    bytes = u.bytes ++ v.bytes;
    written =
        λ s. ap g (u.written s) ∙ v.written (add_bin u.bytes s) ∙ add_bin-append u.bytes v.bytes s;
    back = λ t rest ahead.
        let (t1, e1, h1) =
          u.back t (v.bytes ++ rest)
            (subst (λ c. At c t) (append_assoc u.bytes v.bytes rest) ahead) in
        let (t2, e2, h2) = v.back t1 rest h1 in (t2, joined t t1 t2 e1 e2, h2);
  }

nothing-Trip {ℓ} :
    {A : Type ℓ} (inn : In A) (a : A)
    → ((t : SArrayBinStream) → inn t ≡ some (a, t))
    → Trip (λ s. s) inn a
unfolding add_bin
nothing-Trip inn a e = record {
  bytes = [];
  written = λ s. sym (ap (λ c. record s { buffer = c }) (append-nil s.buffer));
  back = λ t rest ahead. (t, e t, ahead);
}

module _ {ℓ} {A : Type ℓ} (out : Out A) (inn : In A) where
  abbrev pub AllTrip : List A → Type ℓ
  AllTrip [] = Unit
  AllTrip (x ∷ xs) = Trip (out x) inn x × AllTrip xs

  all-Trip : (xs : List A) → AllTrip xs → Trip (out_all out xs) (in_all inn (length xs)) xs
  unfolding out_all in_all
  all-Trip [] h = nothing-Trip (in_all inn 0) [] (λ t. refl)
  all-Trip (x ∷ xs) h =
      then-Trip h.0 (all-Trip xs h.1) (in_all inn (suc (length xs))) (x ∷ xs)
        (λ t t1 t2 e1 e2. rw (e1, e2) refl)

  pub vector-Trip :
      (xs : List A)
      → AllTrip xs
      → length xs < bound len_size
      → Trip (out_vector out xs) (in_vector inn) xs
  unfolding out_vector in_vector
  vector-Trip xs h l =
      then-Trip (number-Trip len_size (length xs) l) (all-Trip xs h) (in_vector inn) xs
        (λ t t1 t2 e1 e2. rw e1 e2)

pub pair-Trip {ℓ κ} :
    {A : Type ℓ} {B : Type κ} (out_a : Out A) (out_b : Out B) {in_a : In A} {in_b : In B} (a : A)
    (b : B)
    → Trip (out_a a) in_a a
    → Trip (out_b b) in_b b
    → Trip (out_pair out_a out_b (a, b)) (in_pair in_a in_b) (a, b)
unfolding out_pair in_pair
pair-Trip out_a out_b {in_a = in_a} {in_b = in_b} a b u v =
    then-Trip u v (in_pair in_a in_b) (a, b) (λ t t1 t2 e1 e2. rw (e1, e2) refl)

module _ {ℓ} {V : Type ℓ} (out : Out V) (inn : In V) where
  -- The keys fit, and each value comes back.
  abbrev pub EntriesTrip : Map V → Type ℓ
  EntriesTrip [] = Unit
  EntriesTrip ((k, v) ∷ m) = (k < bound int_size) × Trip (out v) inn v × EntriesTrip m

  abbrev Below : ℕ → Map V → Type 0
  Below k [] = Unit
  Below k ((j, v) ∷ m) = (j < k) × Below k m

  Below-append :
      (b k : ℕ) (v : V) (m : Map V) → Below b m → b ≤ k → Below (suc k) (m ++ (k, v) ∷ [])
  Below-append b k v [] h l = (omega arith, tt)
  Below-append b k v ((j, w) ∷ m) h l = (omega (arith, h.0), Below-append b k v m h.1 l)

  lookup-Below : (b k : ℕ) (m : Map V) → Below b m → b ≤ k → lookup k m ≡ none
  unfolding lookup
  lookup-Below b k [] h l = refl
  lookup-Below b k ((j, w) ∷ m) h l = ground (arith, h.0, lookup-Below b k m h.1 l)

  set-Below : (b k : ℕ) (v : V) (m : Map V) → Below b m → b ≤ k → set k v m ≡ m ++ (k, v) ∷ []
  unfolding set
  set-Below b k v [] h l = refl
  set-Below b k v ((j, w) ∷ m) h l = ground (arith, h.0, set-Below b k v m h.1 l)

  -- An entry above all others is inserted at the end.
  insert_new-Below :
      (b k : ℕ) (v : V) (m : Map V) → Below b m → b ≤ k → insert_new k v m ≡ m ++ (k, v) ∷ []
  unfolding insert_new
  insert_new-Below b k v m h l = rw (lookup-Below b k m h l, insert_new) (set-Below b k v m h l)

  entries-Trip :
      (m acc : Map V) (b : ℕ)
      → Below b acc
      → Above b m
      → EntriesTrip m
      → Trip
          (out_all (out_pair (out_number int_size) out) m)
          (insert_entries inn (size m) acc)
          (acc ++ m)
  unfolding out_all insert_entries size
  entries-Trip [] acc b below above h =
      nothing-Trip (insert_entries inn 0 acc) (acc ++ []) (λ t. rw (append-nil acc) refl)
  entries-Trip ((k, v) ∷ m) acc b below above h =
      let last = acc ++ (k, v) ∷ [] in
      let entry = pair-Trip (out_number int_size) out k v (number-Trip int_size k h.0) h.1 in
      let more = entries-Trip m last (suc k) (Below-append b k v acc below above.0) above.1 h.2 in
      then-Trip entry more (insert_entries inn (suc (size m)) acc) (acc ++ (k, v) ∷ m)
        (λ t t1 t2 e1 e2. rw e1 (
          ap (λ q. insert_entries inn (size m) q t1) (insert_new-Below b k v acc below above.0)
          ∙ e2
          ∙ ap (λ q. some (q, t2)) (append_assoc acc ((k, v) ∷ []) m)))

  pub map-Trip :
      (m : Map V)
      → IsSorted m
      → EntriesTrip m
      → size m < bound len_size
      → Trip (out_map out m) (in_map inn) m
  unfolding out_map in_map
  map-Trip m sorted h l =
      then-Trip (number-Trip len_size (size m) l) (entries-Trip m [] 0 tt sorted h) (in_map inn) m
        (λ t t1 t2 e1 e2. rw e1 e2)

-- From a stream that has been read, what is written comes back, and then the stream has been read again.
pub Trip-read {ℓ} :
    {A : Type ℓ} (write : SArrayBinStream → SArrayBinStream) (inn : In A) (a : A)
    (s : SArrayBinStream)
    → Trip write inn a
    → s.front ≡ length s.buffer
    → (t : SArrayBinStream) × (inn (write s) ≡ some (a, t)) × (t.front ≡ length t.buffer)
Trip-read write inn a s u e =
    let ahead = add_bin-At u.bytes s e in
    let (t, read, rest) =
      u.back (add_bin u.bytes s) []
        (subst (λ b. At b (add_bin u.bytes s)) (sym (append-nil u.bytes)) ahead) in
    (t, ap inn (u.written s) ∙ read, At-nil t rest)
