-- ===== src/Consensus/Bolt.antt =====
-- What the consensus set uses of gitlab.com/NebulousLabs/bolt: a bucket maps byte strings to byte
-- strings. A key is the number that its bytes spell, most significant byte first, and a value is
-- what the stored bytes encode. `entries` is the order in which `ForEach` visits a bucket.
pub mod AssocList
use sia_prime.Prelude.{
  ltb, leb, ◌==◌, if◌then◌else◌, leb→le, ltb→lt, ==→eq, ==→ne, eq→==, Bool-cases, Option-cases,
  length, get_elem?, take, drop, replicate, All, sum_of, length-append, take-length_append,
  drop-length_append, sum_of-append, drop-append, ℕ, zero, suc, ◌+◌, ◌-◌, ◌*◌, ◌/◌, ◌%◌, ◌^◌, ◌≤◌,
  ◌<◌, ◌≡◌, refl, sym, ap, ◌∙◌, subst, ◌≢◌, ◌↔◌, ◌⊎◌, inl, inr, Bool, true, false, not, ◌&&◌, ◌||◌,
  Option, none, some, List, [], ◌∷◌, ◌++◌, map, append-nil, append_assoc, arith,
}

pub record Bolt : Type 1 where
  pub Bucket : Type 0 → Type 0
  pub empty : {V : Type 0} → Bucket V
  pub get : {V : Type 0} → ℕ → Bucket V → Option V
  pub put : {V : Type 0} → ℕ → V → Bucket V → Bucket V
  pub delete : {V : Type 0} → ℕ → Bucket V → Bucket V
  pub entries : {V : Type 0} → Bucket V → List (ℕ × V)

-- What bolt documents: `Put` sets the value of a key, "if the key exist then its previous value will
-- be overwritten", `Delete` removes a key, "if the key does not exist then nothing is done", and
-- `Get` "returns a nil value if the key does not exist".
pub record IsLawful (db : Bolt) : Type 1 where
  pub get-empty : {V : Type 0} (k : ℕ) → db.get k (db.empty {V = V}) ≡ none
  pub get-put :
      {V : Type 0} (j k : ℕ) (v : V) (b : db.Bucket V)
      → db.get j (db.put k v b) ≡ (if j == k then some v else db.get j b)
  pub get-delete :
      {V : Type 0} (j k : ℕ) (b : db.Bucket V)
      → db.get j (db.delete k b) ≡ (if j == k then none else db.get j b)

-- Two buckets with the same content.
abbrev pub SameBucket : (db : Bolt) {V : Type 0} → db.Bucket V → db.Bucket V → Type 0
SameBucket db b c = (k : ℕ) → db.get k b ≡ db.get k c
