-- ===== src/Encoding/Integers.antt =====
-- encoding/integers.go: a uint64 as 8 bytes, least significant first.
use sia_prime.Prelude.{ℕ, ◌^◌, ◌<◌, ◌≡◌, List, ◌++◌, take, length, replicate, take-length_append}
use sia_prime.Prelude.Bytes.{le_bytes, of_le, length-le_bytes, of_le-le_bytes}

unfoldable pub enc_uint64 : ℕ → List ℕ
enc_uint64 i = le_bytes 8 i

-- `copy` into 8 zero bytes: a short slice is padded, a long one is cut.
unfoldable pub dec_uint64 : List ℕ → ℕ
dec_uint64 b = of_le (take 8 (b ++ replicate 8 0))

pub length-enc_uint64 : (i : ℕ) → length (enc_uint64 i) ≡ 8
unfolding enc_uint64
length-enc_uint64 i = length-le_bytes 8 i

-- A number below 2^64, encoded as 8 bytes, decodes to itself.
pub dec_uint64-enc_uint64 : (i : ℕ) → i < 2 ^ 64 → dec_uint64 (enc_uint64 i) ≡ i
unfolding dec_uint64 enc_uint64
dec_uint64-enc_uint64 i h =
    rw (take-length_append 8 (le_bytes 8 i) (replicate 8 0) (length-le_bytes 8 i))
      (of_le-le_bytes 8 i h)
