-- ===== src/Consensus/Bolt/AssocList.antt =====
-- Buckets as association lists: an implementation of the interface, for the witnesses.
use sia_prime.Prelude.{
  ltb, ◌==◌, if◌then◌else◌, ℕ, ◌≡◌, refl, Option, none, some, List, [], ◌∷◌, arith,
}
use sia_prime.Consensus.Bolt.{Bolt, IsLawful}

abbrev AssocList : Type 0 → Type 0
AssocList V = List (ℕ × V)

abbrev get : {V : Type 0} → ℕ → AssocList V → Option V
get k [] = none
get k ((j, v) ∷ b) = if k == j then some v else get k b

abbrev delete : {V : Type 0} → ℕ → AssocList V → AssocList V
delete k [] = []
delete k ((j, v) ∷ b) = let rest = delete k b in if k == j then rest else (j, v) ∷ rest

-- In the order of the keys, which is the order of `ForEach`.
abbrev put : {V : Type 0} → ℕ → V → AssocList V → AssocList V
put k v [] = (k, v) ∷ []
put k v ((j, w) ∷ b) =
    let rest = put k v b in
    if k == j then (k, v) ∷ b else if ltb k j then (k, v) ∷ (j, w) ∷ b else (j, w) ∷ rest

abbrev pub assoc_list : Bolt
assoc_list = record {
  Bucket = AssocList;
  empty = [];
  get = get;
  put = put;
  delete = delete;
  entries = λ b. b;
}

get-put :
    {V : Type 0} (j k : ℕ) (v : V) (b : AssocList V)
    → get j (put k v b) ≡ (if j == k then some v else get j b)
get-put j k v [] = refl
get-put j k v ((i, w) ∷ b) = let r = get-put j k v b in ground arith

get-delete :
    {V : Type 0} (j k : ℕ) (b : AssocList V)
    → get j (delete k b) ≡ (if j == k then none else get j b)
get-delete j k [] = ground arith
get-delete j k ((i, w) ∷ b) = let r = get-delete j k b in ground arith

pub assoc_list-IsLawful : IsLawful assoc_list
assoc_list-IsLawful = record { get-empty = λ k. refl; get-put = get-put; get-delete = get-delete }
