-- ===== src/Types/Marshal/Currency.antt =====
-- `Currency.MarshalSia`, `MarshalSiaSize` and `UnmarshalSia`: the significant bytes of the number,
-- most significant first, behind their count. `big.Int.Bits` is the list of the 64-bit words.
use native.Mathlib.Nat.{pow-suc, one-le-pow, pow-le-pow_right, div-add-mod, mod-lt}
use native.Mathlib.Decide.{dec_le}
use sia_prime.Prelude.{
  ℕ, zero, suc, ◌+◌, ◌*◌, ◌/◌, ◌^◌, ◌≤◌, ◌<◌, ◌≡◌, ap, List, ◌++◌, arith, ◌==◌, if◌then◌else◌,
  length, length-append, Bool-cases, inl, inr, ==→eq, ==→ne, ◌≢◌, subst,
}
use sia_prime.Prelude.Bytes.{be_bytes, of_be, length-be_bytes, of_be-be_bytes}
use sia_prime.Encoding.Integers.{enc_uint64, length-enc_uint64}
use sia_prime.Encoding.Decoder.{Decoder, ◌>>=◌, pure, max_slice_size, read_prefix}
use sia_prime.Encoding.Decoder.Laws.{Decodes, Decodes-map, Decodes-read_prefix}
use sia_prime.Types.Data.{Currency}

-- The number of 64-bit words, with the value as fuel.
unfoldable pub word_count : ℕ → ℕ → ℕ
word_count zero c = 0
word_count (suc fuel) c = let rest = word_count fuel (c / 2 ^ 64) in if c == 0 then 0 else suc rest

-- The loops that step down from the top byte to the first that is not zero; the result is the
-- number of bytes that are left, which is `i + 1` in `MarshalSia` and `size` in `MarshalSiaSize`.
unfoldable pub seek : Currency → ℕ → ℕ
seek c zero = 0
seek c (suc i) = if c / 256 ^ i == 0 then seek c i else suc i

unfoldable pub byte_count : Currency → ℕ
byte_count c = seek c (8 * word_count c c)

unfoldable pub marshal_currency : Currency → List ℕ
marshal_currency c = enc_uint64 (byte_count c) ++ be_bytes (byte_count c) c

unfoldable pub currency_size : Currency → ℕ
currency_size c = 8 + byte_count c

unfoldable pub unmarshal_currency : Decoder Currency
unmarshal_currency = do bs ← read_prefix; pure (of_be bs)

pow-word : (w : ℕ) → 256 ^ (8 * suc w) ≡ 256 ^ (8 * w) * 2 ^ 64
pow-word w =
    let n : ℕ = 8 * w in
    let e : 8 * suc w ≡ suc (suc (suc (suc (suc (suc (suc (suc n))))))) = omega arith in
    rw e (simp pow-suc (omega arith))

word_count-enough : (fuel c : ℕ) → c ≤ fuel → c < 256 ^ (8 * word_count fuel c)
unfolding word_count
word_count-enough zero c h = omega arith
word_count-enough (suc fuel) c h = elim (Bool-cases (c == 0)) [
  | inl e ↦ rw e (omega (arith, ==→eq c 0 e))
  | inr e ↦ rw e (
      omega (
        arith,
        pow-word (word_count fuel (c / 2 ^ 64)),
        word_count-enough fuel (c / 2 ^ 64) (omega (arith, ==→ne c 0 e)),
      ))
]

lt_of_div-zero : (c p : ℕ) → 0 < p → c / p ≡ 0 → c < p
lt_of_div-zero c p pos e = omega (arith, div-add-mod c p, mod-lt c pos, ap (λ (t : ℕ). p * t) e)

le_of_div-nonzero : (c p : ℕ) → c / p ≢ 0 → p ≤ c
le_of_div-nonzero c p ne = grind (arith, div-add-mod c p)

seek-lt : (c : Currency) (i : ℕ) → c < 256 ^ i → c < 256 ^ seek c i
unfolding seek
seek-lt c zero h = h
seek-lt c (suc i) h = elim (Bool-cases (c / 256 ^ i == 0)) [
  | inl e ↦
      rw e (seek-lt c i (lt_of_div-zero c (256 ^ i) (one-le-pow i 256 (omega arith)) (==→eq _ 0 e)))
  | inr e ↦ rw e h
]

-- No shorter count of bytes holds the value.
seek-le : (c : Currency) (k i : ℕ) → c < 256 ^ k → seek c i ≤ k
unfolding seek
seek-le c k zero h = omega arith
seek-le c k (suc i) h = elim (Bool-cases (c / 256 ^ i == 0)) [
  | inl e ↦ rw e (seek-le c k i h)
  | inr e ↦ rw e (elim (dec_le (suc i) k) [
    | yes p ↦ p
    | no p ↦ absurd (
        omega (
          arith,
          le_of_div-nonzero c (256 ^ i) (==→ne _ 0 e),
          pow-le-pow_right {n = 256} (omega arith) {i = k} {j = i} (omega arith),
        ))
  ])
]

pub byte_count-lt : (c : Currency) → c < 256 ^ byte_count c
unfolding byte_count
byte_count-lt c = seek-lt c (8 * word_count c c) (word_count-enough c c (omega arith))

-- The byte count is at most any count of bytes that holds the value.
pub byte_count-le : (c : Currency) (k : ℕ) → c < 256 ^ k → byte_count c ≤ k
unfolding byte_count
byte_count-le c k h = seek-le c k (8 * word_count c c) h

pub length-marshal_currency : (c : Currency) → length (marshal_currency c) ≡ currency_size c
unfolding marshal_currency currency_size
length-marshal_currency c = omega (
  arith,
  length-append (enc_uint64 (byte_count c)) (be_bytes (byte_count c) c),
  length-enc_uint64 (byte_count c),
  length-be_bytes (byte_count c) c,
)

-- The limit on slices bounds the bytes of a currency.
abbrev pub CurrencyFits : Currency → Type 0
CurrencyFits c = byte_count c ≤ max_slice_size

pub Decodes-unmarshal_currency :
    (c : Currency) → CurrencyFits c → Decodes (marshal_currency c) unmarshal_currency c
unfolding marshal_currency unmarshal_currency
Decodes-unmarshal_currency c h =
    let bs : List ℕ = be_bytes (byte_count c) c in
    let e : length bs ≡ byte_count c = length-be_bytes (byte_count c) c in
    subst (λ n. Decodes (enc_uint64 n ++ bs) (read_prefix >>= λ xs. pure (of_be xs)) c) e
      (subst (Decodes _ _) (of_be-be_bytes (byte_count c) c (byte_count-lt c))
        (Decodes-map of_be (Decodes-read_prefix bs (omega arith))))
