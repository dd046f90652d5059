-- ===== src/Encoding/Decoder/Laws.antt =====
-- Which bytes a decoder turns into which value: one rule for each way to build a decoder.
use native.Mathlib.Nat.{mod-eq_of_lt}
use sia_prime.Prelude.{
  ℕ, ◌+◌, ◌*◌, ◌%◌, ◌^◌, ◌≤◌, ◌<◌, ◌≡◌, refl, false, List, [], ◌∷◌, ◌++◌, append-nil, append_assoc,
  subst, arith, length, All, length-append, take-length_append, drop-length_append,
}
use sia_prime.Encoding.Integers.{enc_uint64, length-enc_uint64, dec_uint64-enc_uint64}
use sia_prime.Encoding.Decoder.{
  DecHelper, ok, Decoder, ◌>>=◌, pure, max_object_size, max_slice_size, read_full, next_uint64,
  prefix_too_large, check_prefix, next_prefix, read_prefix, read_each, read_slice,
}

abbrev state : List ℕ → ℕ → DecHelper
state bs n = record { input = bs; n = n }

-- Before any rest of the input, and within the limit on an object, `m` reads exactly the bytes `bs`
-- and returns `x`.
pub record Decodes {ℓ} {A : Type ℓ} (bs : List ℕ) (m : Decoder A) (x : A) : Type ℓ where
  pub at :
      (rest : List ℕ) (n : ℕ)
      → n + length bs ≤ max_object_size
      → m (record { input = bs ++ rest; n = n }) ≡ ok x (record { input = rest; n = n + length bs })

module _ {ℓ κ} {A : Type ℓ} {B : Type κ} where
  pub Decodes-bind :
      {bs cs : List ℕ} {m : Decoder A} {x : A} (f : A → Decoder B) {y : B}
      → Decodes bs m x
      → Decodes cs (f x) y
      → Decodes (bs ++ cs) (m >>= f) y
  unfolding ◌>>=◌
  Decodes-bind {bs} {cs} f h k = record {
    at = λ rest n fits.
        let total : n + length bs + length cs ≡ n + length (bs ++ cs) =
          omega (arith, length-append bs cs) in
        rw (
          append_assoc,
          h.at (cs ++ rest) n (omega (arith, length-append bs cs)),
          k.at rest (n + length bs) (omega (arith, length-append bs cs)),
          total,
        );
  }

  -- A last step that reads nothing.
  pub Decodes-bind_nil :
      {bs : List ℕ} {m : Decoder A} {x : A} (f : A → Decoder B) {y : B}
      → Decodes bs m x
      → Decodes [] (f x) y
      → Decodes bs (m >>= f) y
  Decodes-bind_nil {bs} {m} f {y} h k =
      subst (λ cs. Decodes cs (m >>= f) y) (append-nil bs) (Decodes-bind f h k)

  pub Decodes-map :
      {bs : List ℕ} {m : Decoder A} {x : A} (f : A → B)
      → Decodes bs m x
      → Decodes bs (m >>= λ a. pure (f a)) (f x)
  unfolding ◌>>=◌ pure
  Decodes-map f h = record { at = λ rest n fits. rw (h.at rest n fits) }

module _ {ℓ} {A : Type ℓ} where
  pub Decodes-pure : (x : A) → Decodes [] (pure x) x
  unfolding pure
  Decodes-pure x = record { at = λ rest n fits. let e : n + 0 ≡ n = omega arith in rw e }

pub Decodes-read_full : (k : ℕ) (bs : List ℕ) → length bs ≡ k → Decodes bs (read_full k) bs
unfolding read_full
Decodes-read_full k bs h = record {
  at = λ rest n fits. ground (
    arith,
    length-append bs rest,
    take-length_append k bs rest h,
    drop-length_append k bs rest h,
    empty-eq bs rest,
  );
}
  where
    empty-eq : (xs ys : List ℕ) → length xs ≡ 0 → xs ++ ys ≡ ys
    empty-eq [] ys e = refl
    empty-eq (x ∷ xs) ys e = absurd (omega arith)

pub Decodes-next_uint64 : (i : ℕ) → i < 2 ^ 64 → Decodes (enc_uint64 i) next_uint64 i
unfolding next_uint64
Decodes-next_uint64 i h =
    subst (Decodes (enc_uint64 i) _) (dec_uint64-enc_uint64 i h)
      (Decodes-map _ (Decodes-read_full 8 (enc_uint64 i) (length-enc_uint64 i)))

-- A length that passes the decoder's limits on slices of elements of that size.
abbrev pub SliceFits : ℕ → ℕ → Type 0
SliceFits elem_size n = (n < 2 ^ 31) × (n * elem_size ≤ max_slice_size)

SliceFits-not_too_large :
    (elem_size n : ℕ) → SliceFits elem_size n → prefix_too_large elem_size n ≡ false
unfolding prefix_too_large
SliceFits-not_too_large elem_size n (h, k) =
    let e : n * elem_size % 2 ^ 64 ≡ n * elem_size = mod-eq_of_lt (omega arith) in
    rw e (ground arith)

Decodes-check_prefix :
    (elem_size n : ℕ) → SliceFits elem_size n → Decodes [] (check_prefix elem_size n) n
unfolding check_prefix
Decodes-check_prefix elem_size n h = rw (SliceFits-not_too_large elem_size n h) (Decodes-pure n)

Decodes-next_prefix :
    (elem_size n : ℕ) → SliceFits elem_size n → Decodes (enc_uint64 n) (next_prefix elem_size) n
unfolding next_prefix
Decodes-next_prefix elem_size n h =
    Decodes-bind_nil (check_prefix elem_size) (Decodes-next_uint64 n (omega (arith, h.0)))
      (Decodes-check_prefix elem_size n h)

pub Decodes-read_prefix :
    (bs : List ℕ) → SliceFits 1 (length bs) → Decodes (enc_uint64 (length bs) ++ bs) read_prefix bs
unfolding read_prefix
Decodes-read_prefix bs h =
    Decodes-bind _ (Decodes-next_prefix 1 (length bs) h) (Decodes-read_full (length bs) bs refl)

-- The encodings of a list's elements, one after the other.
unfoldable pub concat_map {ℓ} : {A : Type ℓ} → (A → List ℕ) → List A → List ℕ
concat_map f [] = []
concat_map f (x ∷ xs) = f x ++ concat_map f xs

module _ {ℓ κ} {A : Type ℓ} (encode : A → List ℕ) (m : Decoder A) (P : A → Type κ)
    (each : (x : A) → P x → Decodes (encode x) m x) where
  Decodes-read_each :
      (xs : List A) → All P xs → Decodes (concat_map encode xs) (read_each m (length xs)) xs
  unfolding read_each concat_map
  Decodes-read_each [] h = Decodes-pure []
  Decodes-read_each (x ∷ xs) h =
      Decodes-bind _ (each x h.0) (Decodes-map _ (Decodes-read_each xs h.1))

  -- A length prefix and the elements are read back as the list.
  pub Decodes-read_slice :
      (elem_size : ℕ) (xs : List A)
      → SliceFits elem_size (length xs)
      → All P xs
      → Decodes (enc_uint64 (length xs) ++ concat_map encode xs) (read_slice elem_size m) xs
  unfolding read_slice
  Decodes-read_slice elem_size xs fits h =
      Decodes-bind _ (Decodes-next_prefix elem_size (length xs) fits) (Decodes-read_each xs h)
