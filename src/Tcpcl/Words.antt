-- ===== src/Tcpcl/Words.antt =====
-- The big-endian words of encoding/binary and io.ReadFull, which the messages of
-- pkg/cla/tcpclv4/internal/msgs are written and read with.
use dtn.Prelude.{
  ℕ, zero, suc, ◌+◌, ◌*◌, ◌/◌, ◌%◌, ◌^◌, ◌<◌, ◌≡◌, refl, List, [], ◌∷◌, ◌++◌, true, Run, ok, err,
  ◌>>=◌, length, take, drop, leb, arith, take-append, drop-append, length-append, if◌then◌else◌,
}

-- Why a message cannot be read.
pub data ReadError : Type 0 where
  end_of_input wrong_magic : ReadError
  unknown_message invalid_reason : ℕ → ReadError
  wrong_header : ℕ → ℕ → ReadError

abbrev pub Result : Type 0 → Type 0
Result A = Run ReadError A

abbrev pub Reader : Type 0 → Type 0
Reader A = List ℕ → Result (A × List ℕ)

-- An unsigned word of the given number of octets.
unfoldable pub put_uint : ℕ → ℕ → List ℕ
put_uint zero n = []
put_uint (suc w) n = put_uint w (n / 256) ++ n % 256 ∷ []

unfoldable pub get_uint : ℕ → List ℕ → ℕ
get_uint acc [] = acc
get_uint acc (b ∷ bs) = get_uint (acc * 256 + b) bs

-- `io.ReadFull` on a buffer of the given length.
unfoldable pub read_bytes : ℕ → Reader (List ℕ)
read_bytes n bytes =
    if leb n (length bytes) then ok (take n bytes, drop n bytes) else err end_of_input

unfoldable pub read_uint : ℕ → Reader ℕ
unfolding read_bytes get_uint
read_uint w bytes = do (word, rest) ← read_bytes w bytes; ok (get_uint 0 word, rest)

pub length-put_uint : (w n : ℕ) → length (put_uint w n) ≡ w
unfolding put_uint
length-put_uint zero n = refl
length-put_uint (suc w) n =
    omega (arith, length-append (put_uint w (n / 256)) (n % 256 ∷ []), length-put_uint w (n / 256))

get_uint-append :
    (acc : ℕ) (bs : List ℕ) (b : ℕ) → get_uint acc (bs ++ b ∷ []) ≡ get_uint acc bs * 256 + b
unfolding get_uint
get_uint-append acc [] b = refl
get_uint-append acc (c ∷ bs) b = get_uint-append (acc * 256 + c) bs b

pub get_uint-put_uint : (w n : ℕ) → n < 256 ^ w → get_uint 0 (put_uint w n) ≡ n
unfolding put_uint get_uint
get_uint-put_uint zero n h = omega arith
get_uint-put_uint (suc w) n h =
    let high = get_uint-put_uint w (n / 256) (omega arith) in
    omega (arith, high, get_uint-append 0 (put_uint w (n / 256)) (n % 256))

pub read_bytes_back :
    (bytes rest : List ℕ) → read_bytes (length bytes) (bytes ++ rest) ≡ ok (bytes, rest)
unfolding read_bytes
read_bytes_back bytes rest =
    let fits : leb (length bytes) (length (bytes ++ rest)) ≡ true =
      ground (arith, length-append bytes rest) in
    rw (fits, take-append bytes rest, drop-append bytes rest) refl

pub read_uint_back :
    (w n : ℕ) (rest : List ℕ) → n < 256 ^ w → read_uint w (put_uint w n ++ rest) ≡ ok (n, rest)
unfolding read_uint
read_uint_back w n rest h =
    let back = read_bytes_back (put_uint w n) rest in
    let word : read_bytes w (put_uint w n ++ rest) ≡ ok (put_uint w n, rest) =
      rw (length-put_uint w n) at back in
    rw (word, get_uint-put_uint w n h) refl
