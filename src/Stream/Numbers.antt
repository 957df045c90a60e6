-- ===== src/Stream/Numbers.antt =====
-- base/sarray_binstream.cpp: what `PopBin` gives of what is ahead in a stream, and the bytes of numbers.
use mathlib.Core.List.{append_assoc}
use tangram.Base.{
  ℕ, zero, suc, ◌+◌, ◌-◌, ◌*◌, ◌/◌, ◌≤◌, ◌<◌, ◌≡◌, refl, arith, leb, true, some, [], ◌∷◌, ◌++◌,
  length, length-append, ap, sym, ◌∙◌,
}
use tangram.Stream.{
  Bytes, SArrayBinStream, drop_bytes, take_bytes, add_bin, pop_bin, bytes_of, value_of,
}

-- What is ahead in a stream.
pub record At (b : Bytes) (t : SArrayBinStream) : Type 0 where
  pub fits : t.front ≤ length t.buffer
  pub ahead : drop_bytes t.front t.buffer ≡ b

length-drop_bytes : (n : ℕ) (b : Bytes) → length (drop_bytes n b) ≡ length b - n
unfolding drop_bytes
length-drop_bytes zero b = omega arith
length-drop_bytes (suc n) [] = omega arith
length-drop_bytes (suc n) (x ∷ b) = omega (arith, length-drop_bytes n b)

drop_bytes-nil : (n : ℕ) → drop_bytes n [] ≡ []
unfolding drop_bytes
drop_bytes-nil zero = refl
drop_bytes-nil (suc n) = refl

drop_bytes_add : (m n : ℕ) (b : Bytes) → drop_bytes (m + n) b ≡ drop_bytes n (drop_bytes m b)
unfolding drop_bytes
drop_bytes_add zero n b = let e : zero + n ≡ n = omega arith in rw e refl
drop_bytes_add (suc m) n [] =
    let e : suc m + n ≡ suc (m + n) = omega arith in rw e (sym (drop_bytes-nil n))
drop_bytes_add (suc m) n (x ∷ b) =
    let e : suc m + n ≡ suc (m + n) = omega arith in rw e (drop_bytes_add m n b)

take_bytes-append : (a b : Bytes) → take_bytes (length a) (a ++ b) ≡ a
unfolding take_bytes
take_bytes-append [] b = refl
take_bytes-append (x ∷ a) b = ap (λ c. x ∷ c) (take_bytes-append a b)

drop_bytes-append : (a b : Bytes) → drop_bytes (length a) (a ++ b) ≡ b
unfolding drop_bytes
drop_bytes-append [] b = refl
drop_bytes-append (x ∷ a) b = drop_bytes-append a b

pub pop_bin-At :
    (a b : Bytes) (t : SArrayBinStream)
    → At (a ++ b) t
    → (t' : SArrayBinStream) × (pop_bin (length a) t ≡ some (a, t')) × At b t'
unfolding pop_bin
pop_bin-At a b t h =
    let long : t.front + length a ≤ length t.buffer =
      omega
        (arith, h.fits, length-drop_bytes t.front t.buffer, ap length h.ahead, length-append a b) in
    let enough : leb (t.front + length a) (length t.buffer) ≡ true = ground arith in
    (
      record t { front = t.front + length a },
      rw (enough, h.ahead, take_bytes-append a b) refl,
      record {
        fits = long;
        ahead = drop_bytes_add t.front (length a) t.buffer ∙ rw h.ahead (drop_bytes-append a b);
      },
    )

pub add_bin-append :
    (a b : Bytes) (s : SArrayBinStream) → add_bin b (add_bin a s) ≡ add_bin (a ++ b) s
unfolding add_bin
add_bin-append a b s = ap (λ c. record s { buffer = c }) (append_assoc s.buffer a b)

-- The numbers of `w` bytes are those below.
abbrev pub bound : ℕ → ℕ
bound zero = 1
bound (suc w) = 256 * bound w

pub length-bytes_of : (w n : ℕ) → length (bytes_of w n) ≡ w
unfolding bytes_of
length-bytes_of zero n = refl
length-bytes_of (suc w) n = ap (λ k. suc k) (length-bytes_of w (n / 256))

pub value_of-bytes_of : (w n : ℕ) → n < bound w → value_of (bytes_of w n) ≡ n
unfolding value_of bytes_of
value_of-bytes_of zero n h = omega arith
value_of-bytes_of (suc w) n h = omega (arith, value_of-bytes_of w (n / 256) (omega arith))

-- What is added to a stream that has been read is all that is ahead.
pub add_bin-At : (b : Bytes) (s : SArrayBinStream) → s.front ≡ length s.buffer → At b (add_bin b s)
unfolding add_bin
add_bin-At b s e = record {
  fits = omega (arith, e, length-append s.buffer b);
  ahead = rw e (drop_bytes-append s.buffer b);
}

pub At-nil : (t : SArrayBinStream) → At [] t → t.front ≡ length t.buffer
At-nil t h = omega (arith, h.fits, ap length h.ahead, length-drop_bytes t.front t.buffer)
