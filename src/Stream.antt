-- ===== src/Stream.antt =====
-- base/sarray_binstream.hpp and sarray_binstream.cpp: values as bytes. The bytes of a trivially copyable number are those of
-- its memory, the lowest first. Messages (base/message.hpp) are left out, and so are the types of users.
use tangram.Base.{
  ℕ, zero, suc, ◌+◌, ◌-◌, ◌*◌, ◌/◌, ◌%◌, leb, ◌==◌, Option, some, none, List, [], ◌∷◌, ◌++◌, length,
  Map, insert_new, size, check, ◌>>=◌, ◌>>◌,
}
pub mod Numbers
pub mod Trips
pub mod Graphs

abbrev pub Bytes : Type 0
Bytes = List ℕ

pub record SArrayBinStream : Type 0 where
  pub buffer : Bytes
  pub front : ℕ

abbrev pub empty_stream : SArrayBinStream
empty_stream = record { buffer = []; front = 0 }

unfoldable pub drop_bytes : ℕ → Bytes → Bytes
drop_bytes zero b = b
drop_bytes (suc n) [] = []
drop_bytes (suc n) (x ∷ b) = drop_bytes n b

unfoldable pub take_bytes : ℕ → Bytes → Bytes
take_bytes zero b = []
take_bytes (suc n) [] = []
take_bytes (suc n) (x ∷ b) = x ∷ take_bytes n b

unfoldable pub stream_size : SArrayBinStream → ℕ
stream_size s = length s.buffer - s.front

unfoldable pub add_bin : Bytes → SArrayBinStream → SArrayBinStream
add_bin b s = record s { buffer = s.buffer ++ b }

unfoldable pub pop_bin : ℕ → SArrayBinStream → Option (Bytes × SArrayBinStream)
unfolding take_bytes drop_bytes
pop_bin n s = do
  check (leb (s.front + n) (length s.buffer))
  some (take_bytes n (drop_bytes s.front s.buffer), record s { front = s.front + n })

-- The bytes of a number, of which there are `w`.
unfoldable pub bytes_of : (w n : ℕ) → Bytes
bytes_of zero n = []
bytes_of (suc w) n = (n % 256) ∷ bytes_of w (n / 256)

unfoldable pub value_of : Bytes → ℕ
value_of [] = 0
value_of (b ∷ bs) = b + 256 * value_of bs

-- `operator<<` and `operator>>` of a type.
abbrev pub Out {ℓ} : Type ℓ → Type ℓ
Out A = A → SArrayBinStream → SArrayBinStream

abbrev pub In {ℓ} : Type ℓ → Type ℓ
In A = SArrayBinStream → Option (A × SArrayBinStream)

unfoldable pub out_number : (w : ℕ) → Out ℕ
unfolding add_bin bytes_of
out_number w n s = add_bin (bytes_of w n) s

unfoldable pub in_number : (w : ℕ) → In ℕ
unfolding pop_bin value_of
in_number w s = do r ← pop_bin w s; some (value_of r.0, r.1)

-- `int` and `size_t`.
abbrev pub int_size : ℕ
int_size = 4

abbrev pub len_size : ℕ
len_size = 8

module _ {ℓ} {A : Type ℓ} where
  unfoldable pub out_all : Out A → List A → SArrayBinStream → SArrayBinStream
  out_all out [] s = s
  out_all out (x ∷ xs) s = out_all out xs (out x s)

  unfoldable pub in_all : In A → ℕ → In (List A)
  in_all inn zero s = some ([], s)
  in_all inn (suc n) s = do one ← inn s; rest ← in_all inn n one.1; some (one.0 ∷ rest.0, rest.1)

  -- `std::vector`, and so `std::basic_string` and `std::deque`.
  unfoldable pub out_vector : Out A → Out (List A)
  unfolding out_all out_number
  out_vector out xs s = out_all out xs (out_number len_size (length xs) s)

  unfoldable pub in_vector : In A → In (List A)
  unfolding in_all in_number
  in_vector inn s = do n ← in_number len_size s; in_all inn n.0 n.1

module _ {ℓ κ} {A : Type ℓ} {B : Type κ} where
  unfoldable pub out_pair : Out A → Out B → Out (A × B)
  out_pair out_a out_b p s = out_b p.1 (out_a p.0 s)

  unfoldable pub in_pair : In A → In B → In (A × B)
  in_pair in_a in_b s = do a ← in_a s; b ← in_b a.1; some ((a.0, b.0), b.1)

module _ {ℓ} {V : Type ℓ} where
  -- `std::map<int, V>`: the entries are inserted one by one.
  unfoldable pub out_map : Out V → Out (Map V)
  unfolding out_all out_number out_pair
  out_map out m s = out_all (out_pair (out_number int_size) out) m (out_number len_size (size m) s)

  unfoldable pub insert_entries : In V → ℕ → Map V → In (Map V)
  unfolding in_pair in_number
  insert_entries inn zero m s = some (m, s)
  insert_entries inn (suc n) m s = do
    one ← in_pair (in_number int_size) inn s
    insert_entries inn n (insert_new one.0.0 one.0.1 m) one.1

  unfoldable pub in_map : In V → In (Map V)
  unfolding insert_entries in_number
  in_map inn s = do n ← in_number len_size s; insert_entries inn n.0 [] n.1

-- `operator<<` of a stream to a stream, and back into an empty one.
unfoldable pub out_stream : Out SArrayBinStream
unfolding out_number stream_size add_bin drop_bytes
out_stream b s = add_bin (drop_bytes b.front b.buffer) (out_number len_size (stream_size b) s)

unfoldable pub in_stream : In SArrayBinStream
unfolding in_number pop_bin
in_stream s = do
  n ← in_number len_size s
  r ← pop_bin n.0 n.1
  some (record { buffer = r.0; front = 0 }, r.1)
