-- ===== src/Types/Marshal/Layout.antt =====
-- The bytes of an encoding that the consensus code reads without decoding the rest:
-- `removeFileContract` (modules/consensus/consensusdb.go) takes bytes 48 to 56 of a contract for its
-- window end, `minimumValidChildTimestamp` (modules/consensus/block_rules.go) bytes 0 to 32 and 40
-- to 48 of a stored block for the parent's id and the timestamp.
use sia_prime.Prelude.{
  ℕ, ◌≡◌, List, ◌++◌, arith, append_assoc, take, drop, drop-append, take-length_append,
}
use sia_prime.Prelude.Bytes.{of_be, length-le_bytes, of_be-be_bytes}
use sia_prime.Encoding.Integers.{enc_uint64, dec_uint64, length-enc_uint64, dec_uint64-enc_uint64}
use sia_prime.Types.Data.{FileContract, Block}
use sia_prime.Types.Marshal.Encode.{write_hash, marshal_file_contract, marshal_block}
use sia_prime.Types.Marshal.Size.Laws.{length-write_hash}
use sia_prime.Types.Marshal.RoundTrip.Parts.{IsUint64, IsHash}

-- `b[from:from + count]`
abbrev pub slice : ℕ → ℕ → List ℕ → List ℕ
slice from count bs = take count (drop from bs)

-- Bytes 48 to 56 of an encoded file contract decode to the end of its proof window.
pub window_end_at :
    (fc : FileContract)
    → IsUint64 fc.window_end
    → dec_uint64 (slice 48 8 (marshal_file_contract fc)) ≡ fc.window_end
unfolding marshal_file_contract
window_end_at fc h =
    rw
      (
        drop-append 48 8 (enc_uint64 fc.file_size) _ (length-enc_uint64 _) (omega arith),
        drop-append 40 32 (write_hash fc.file_merkle_root) _ (length-write_hash _) (omega arith),
        drop-append 8 8 (enc_uint64 fc.window_start) _ (length-enc_uint64 _) (omega arith),
        take-length_append 8 (enc_uint64 fc.window_end) _ (length-enc_uint64 _),
      )
      (dec_uint64-enc_uint64 fc.window_end h)

-- In a stored block, whatever follows it, bytes 0 to 32 are the parent's id and bytes 40 to 48
-- decode to the timestamp.
pub parent_and_timestamp_at :
    (b : Block) (rest : List ℕ)
    → IsHash b.parent_id
    → IsUint64 b.timestamp
    → (of_be (slice 0 32 (marshal_block b ++ rest)) ≡ b.parent_id)
      × (dec_uint64 (slice 40 8 (marshal_block b ++ rest)) ≡ b.timestamp)
unfolding marshal_block
parent_and_timestamp_at b rest p t = (
  rw (append_assoc, take-length_append 32 (write_hash b.parent_id) _ (length-write_hash _))
      (unfold write_hash in of_be-be_bytes 32 b.parent_id p),
  simp append_assoc (
      rw
        (
          drop-append 40 32 (write_hash b.parent_id) _ (length-write_hash _) (omega arith),
          drop-append 8 8 _ _ (length-le_bytes 8 b.nonce) (omega arith),
          take-length_append 8 (enc_uint64 b.timestamp) _ (length-enc_uint64 _),
        )
        (dec_uint64-enc_uint64 b.timestamp t)),
)
