-- ===== src/Types/Marshal/RoundTrip/Parts.antt =====
-- The round trips of the parts of a transaction. Each predicate says which values the format and
-- the decoder's limits admit.
use sia_prime.Prelude.{ℕ, ◌^◌, ◌<◌, subst, List, length, All}
use sia_prime.Prelude.Bytes.{be_bytes, of_be, length-be_bytes, of_be-be_bytes}
use sia_prime.Encoding.Decoder.{Decoder, read_prefix, read_slice}
use sia_prime.Encoding.Decoder.Laws.{
  Decodes, Decodes-bind, Decodes-map, Decodes-read_full, Decodes-next_uint64, SliceFits,
  Decodes-read_prefix, Decodes-read_slice,
}
use sia_prime.Types.Data.{
  Hash, SiaPublicKey, UnlockConditions, SiacoinInput, SiacoinOutput, SiafundInput, SiafundOutput,
}
use sia_prime.Types.Marshal.Currency.{CurrencyFits, Decodes-unmarshal_currency}
use sia_prime.Types.Marshal.Encode.{
  write_hash, write_specifier, write_prefix, write_slice, marshal_public_key,
  marshal_unlock_conditions, marshal_siacoin_input, marshal_siacoin_output, marshal_siafund_input,
  marshal_siafund_output,
}
use sia_prime.Types.Marshal.Decode.{
  read_hash, read_specifier, unmarshal_public_key, unmarshal_unlock_conditions,
  unmarshal_siacoin_input, unmarshal_siacoin_output, unmarshal_siafund_input,
  unmarshal_siafund_output,
}

abbrev pub IsUint64 : ℕ → Type 0
IsUint64 n = n < 2 ^ 64

abbrev pub IsHash : Hash → Type 0
IsHash h = h < 256 ^ 32

pub Decodes-read_hash : (h : Hash) → IsHash h → Decodes (write_hash h) read_hash h
unfolding write_hash read_hash
Decodes-read_hash h fits =
    subst (Decodes (be_bytes 32 h) _) (of_be-be_bytes 32 h fits)
      (Decodes-map of_be (Decodes-read_full 32 (be_bytes 32 h) (length-be_bytes 32 h)))

Decodes-read_specifier : (s : ℕ) → s < 256 ^ 16 → Decodes (write_specifier s) read_specifier s
unfolding write_specifier read_specifier
Decodes-read_specifier s fits =
    subst (Decodes (be_bytes 16 s) _) (of_be-be_bytes 16 s fits)
      (Decodes-map of_be (Decodes-read_full 16 (be_bytes 16 s) (length-be_bytes 16 s)))

pub Decodes-write_prefix :
    (bs : List ℕ) → SliceFits 1 (length bs) → Decodes (write_prefix bs) read_prefix bs
unfolding write_prefix
Decodes-write_prefix bs h = Decodes-read_prefix bs h

-- A slice whose length the decoder admits and whose elements all fit.
abbrev pub ListFits {ℓ} : {A : Type ℓ} → ℕ → (A → Type 0) → List A → Type 0
ListFits size P xs = SliceFits size (length xs) × All P xs

pub Decodes-write_slice {ℓ} :
    {A : Type ℓ} {f : A → List ℕ} {m : Decoder A} {P : A → Type 0}
    → ((x : A) → P x → Decodes (f x) m x)
    → (size : ℕ) (xs : List A) → ListFits size P xs
    → Decodes (write_slice f xs) (read_slice size m) xs
unfolding write_slice
Decodes-write_slice {f} {m} {P} each size xs (fits, h) =
    Decodes-read_slice f m P each size xs fits h

abbrev pub PublicKeyFits : SiaPublicKey → Type 0
PublicKeyFits spk = (spk.algorithm < 256 ^ 16) × SliceFits 1 (length spk.key)

Decodes-public_key :
    (spk : SiaPublicKey)
    → PublicKeyFits spk
    → Decodes (marshal_public_key spk) unmarshal_public_key spk
unfolding marshal_public_key unmarshal_public_key
Decodes-public_key spk h =
    Decodes-bind _ (Decodes-read_specifier spk.algorithm h.0)
      (Decodes-map _ (Decodes-write_prefix spk.key h.1))

abbrev pub UnlockConditionsFit : UnlockConditions → Type 0
UnlockConditionsFit uc =
    IsUint64 uc.timelock
    × ListFits 40 PublicKeyFits uc.public_keys
    × IsUint64 uc.signatures_required

pub Decodes-unlock_conditions :
    (uc : UnlockConditions)
    → UnlockConditionsFit uc
    → Decodes (marshal_unlock_conditions uc) unmarshal_unlock_conditions uc
unfolding marshal_unlock_conditions unmarshal_unlock_conditions
Decodes-unlock_conditions uc h = Decodes-bind _ (Decodes-next_uint64 uc.timelock h.0) (
    Decodes-bind _ (Decodes-write_slice Decodes-public_key 40 uc.public_keys h.1)
      (Decodes-map _ (Decodes-next_uint64 uc.signatures_required h.2)))

abbrev pub SiacoinOutputFits : SiacoinOutput → Type 0
SiacoinOutputFits sco = CurrencyFits sco.value × IsHash sco.unlock_hash

pub Decodes-siacoin_output :
    (sco : SiacoinOutput)
    → SiacoinOutputFits sco
    → Decodes (marshal_siacoin_output sco) unmarshal_siacoin_output sco
unfolding marshal_siacoin_output unmarshal_siacoin_output
Decodes-siacoin_output sco h =
    Decodes-bind _ (Decodes-unmarshal_currency sco.value h.0)
      (Decodes-map _ (Decodes-read_hash sco.unlock_hash h.1))

abbrev pub SiafundOutputFits : SiafundOutput → Type 0
SiafundOutputFits sfo =
    CurrencyFits sfo.value × IsHash sfo.unlock_hash × CurrencyFits sfo.claim_start

pub Decodes-siafund_output :
    (sfo : SiafundOutput)
    → SiafundOutputFits sfo
    → Decodes (marshal_siafund_output sfo) unmarshal_siafund_output sfo
unfolding marshal_siafund_output unmarshal_siafund_output
Decodes-siafund_output sfo h = Decodes-bind _ (Decodes-unmarshal_currency sfo.value h.0) (
    Decodes-bind _ (Decodes-read_hash sfo.unlock_hash h.1)
      (Decodes-map _ (Decodes-unmarshal_currency sfo.claim_start h.2)))

abbrev pub SiacoinInputFits : SiacoinInput → Type 0
SiacoinInputFits sci = IsHash sci.parent_id × UnlockConditionsFit sci.unlock_conditions

pub Decodes-siacoin_input :
    (sci : SiacoinInput)
    → SiacoinInputFits sci
    → Decodes (marshal_siacoin_input sci) unmarshal_siacoin_input sci
unfolding marshal_siacoin_input unmarshal_siacoin_input
Decodes-siacoin_input sci h =
    Decodes-bind _ (Decodes-read_hash sci.parent_id h.0)
      (Decodes-map _ (Decodes-unlock_conditions sci.unlock_conditions h.1))

abbrev pub SiafundInputFits : SiafundInput → Type 0
SiafundInputFits sfi =
    IsHash sfi.parent_id × UnlockConditionsFit sfi.unlock_conditions × IsHash sfi.claim_unlock_hash

pub Decodes-siafund_input :
    (sfi : SiafundInput)
    → SiafundInputFits sfi
    → Decodes (marshal_siafund_input sfi) unmarshal_siafund_input sfi
unfolding marshal_siafund_input unmarshal_siafund_input
Decodes-siafund_input sfi h = Decodes-bind _ (Decodes-read_hash sfi.parent_id h.0) (
    Decodes-bind _ (Decodes-unlock_conditions sfi.unlock_conditions h.1)
      (Decodes-map _ (Decodes-read_hash sfi.claim_unlock_hash h.2)))
