-- ===== src/Encoding/Decoder.antt =====
-- `decHelper` of types/encoding.go over a byte slice. Its error is sticky: once it is set every
-- method does nothing, so that an unmarshaller's result is that error, and the object is not used.
-- Hence a decoder either fails with the first error or returns a value and the state behind it.
pub mod Laws
use sia_prime.Prelude.{
  ℕ, zero, suc, ◌+◌, ◌-◌, ◌*◌, ◌%◌, ◌^◌, Bool, ◌||◌, List, [], ◌∷◌, ltb, ◌==◌, if◌then◌else◌,
  length, take, drop,
}
use sia_prime.Encoding.Integers.{dec_uint64}

pub data DecError : Type 0 where
  eof object_too_large slice_too_large : DecError

-- What is left of the input, and the number of bytes read.
pub record DecHelper : Type 0 where
  pub input : List ℕ
  pub n : ℕ

pub data Result {ℓ} (A : Type ℓ) : Type ℓ where
  ok : A → DecHelper → Result A
  err : DecError → Result A

abbrev pub Decoder {ℓ} : Type ℓ → Type ℓ
Decoder A = DecHelper → Result A

abbrev pub then_do {ℓ κ} : {A : Type ℓ} {B : Type κ} → Result A → (A → Decoder B) → Result B
then_do (ok a d) f = f a d
then_do (err e) f = err e

infixl 5 ◌>>=◌
unfoldable pub ◌>>=◌ {ℓ κ} : {A : Type ℓ} {B : Type κ} → Decoder A → (A → Decoder B) → Decoder B
◌>>=◌ m f d = then_do (m d) f

unfoldable pub pure {ℓ} : {A : Type ℓ} → A → Decoder A
pure a d = ok a d

unfoldable pub fail {ℓ} : {A : Type ℓ} → DecError → Decoder A
fail e d = err e

abbrev pub max_object_size : ℕ
max_object_size = 12_000_000

abbrev pub max_slice_size : ℕ
max_slice_size = 5_000_000

-- `Read` counts the bytes and checks the total. A short input ends in EOF, unless what it still
-- gave passed the limit.
unfoldable pub read_full : ℕ → Decoder (List ℕ)
read_full k d =
    if k == 0
    then ok [] d
    else if ltb (length d.input) k
    then (if ltb max_object_size (d.n + length d.input) then err object_too_large else err eof)
    else if ltb max_object_size (d.n + k)
    then err object_too_large
    else ok (take k d.input) (record { input = drop k d.input; n = d.n + k })

unfoldable pub next_uint64 : Decoder ℕ
next_uint64 = do b ← read_full 8; pure (dec_uint64 b)

-- The test of a slice's length against the limits; the product is of uint64s.
unfoldable pub prefix_too_large : ℕ → ℕ → Bool
prefix_too_large elem_size n = ltb (2 ^ 31 - 1) n || ltb max_slice_size (n * elem_size % 2 ^ 64)

unfoldable pub check_prefix : ℕ → ℕ → Decoder ℕ
check_prefix elem_size n = if prefix_too_large elem_size n then fail slice_too_large else pure n

unfoldable pub next_prefix : ℕ → Decoder ℕ
next_prefix elem_size = do n ← next_uint64; check_prefix elem_size n

unfoldable pub read_prefix : Decoder (List ℕ)
read_prefix = do n ← next_prefix 1; read_full n

-- `for i := range s { s[i].UnmarshalSia(d) }` over a new slice of the given length.
unfoldable pub read_each {ℓ} : {A : Type ℓ} → Decoder A → ℕ → Decoder (List A)
read_each m zero = pure []
read_each m (suc k) = do x ← m; xs ← read_each m k; pure (x ∷ xs)

-- A length prefix and the elements.
unfoldable pub read_slice {ℓ} : {A : Type ℓ} → ℕ → Decoder A → Decoder (List A)
read_slice elem_size m = do n ← next_prefix elem_size; read_each m n
