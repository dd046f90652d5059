-- ===== src/HostTree/Select.antt =====
-- modules/renter/hostdb/hosttree: addressfilter.go, and `SelectRandom` of hosttree.go. The resolver, the
-- subnet of an address and the random numbers come from outside: the resolver gives for a host its
-- addresses, or an error; an address has its length in bytes, and the text of its subnet, if it has one,
-- as a number. A nil dereference, and a random number below zero, is `none`.
use sia_prime.Prelude.{
  ltb, ◌==◌, if◌then◌else◌, length, ℕ, zero, suc, ◌+◌, Bool, true, false, not, ◌&&◌, ◌||◌, Option,
  none, some, List, [], ◌∷◌, ◌++◌,
}
use sia_prime.Prelude.Fallible.{◌>>=◌, pure}
use sia_prime.HostTree.Tree.{HostDbEntry, HostEntry, key_of, weight_of, node_at_weight, entry_at}
use sia_prime.HostTree.Hosts.{HostTree, find, put_entry, drop_entry}

pub record Ip : Type 0 where
  pub byte_length : ℕ
  pub subnet : Option ℕ

-- `LookupIP`, and `BigIntn`: which number the n-th draw below a bound gives.
pub record Outside : Type 0 where
  pub lookup_ip : ℕ → Option (List Ip)
  pub big_intn : ℕ → ℕ → ℕ

-- The subnets in use.
abbrev pub Filter : Type 0
Filter = List ℕ

abbrev pub contains : ℕ → List ℕ → Bool
contains x [] = false
contains x (y ∷ ys) = x == y || contains x ys

abbrev pub add_subnet : Option ℕ → Filter → Filter
add_subnet none f = f
add_subnet (some s) f = s ∷ f

abbrev pub add_subnets : List Ip → Filter → Filter
add_subnets [] f = f
add_subnets (ip ∷ ips) f = add_subnets ips (add_subnet ip.subnet f)

abbrev pub in_filter : Option ℕ → Filter → Bool
in_filter none f = false
in_filter (some s) f = contains s f

abbrev pub any_in_filter : List Ip → Filter → Bool
any_in_filter [] f = false
any_in_filter (ip ∷ ips) f = in_filter ip.subnet f || any_in_filter ips f

-- Two addresses of one kind.
abbrev pub same_kind : List Ip → Bool
same_kind (a ∷ b ∷ []) = a.byte_length == b.byte_length
same_kind ips = false

module _ (outside : Outside) where
  unfoldable pub filter_add : ℕ → Filter → Filter
  filter_add address f = elim (outside.lookup_ip address) [
    | none ↦ f
    | some ips ↦ add_subnets ips f
  ]

  unfoldable pub filtered : ℕ → Filter → Bool
  filtered address f = elim (outside.lookup_ip address) [
    | none ↦ true
    | some ips ↦ ltb 2 (length ips) || same_kind ips || any_in_filter ips f
  ]

  -- The addresses of the hosts on the address blacklist.
  unfoldable pub block_addresses : List ℕ → HostTree → Filter → Option Filter
  block_addresses [] ht f = some f
  block_addresses (pk ∷ pks) ht f = elim (find pk ht.hosts) [
    | none ↦ block_addresses pks ht f
    | some p ↦ entry_at p ht.root >>= λ e. block_addresses pks ht (filter_add e.host.net_address f)
  ]

-- The blacklisted hosts are taken out of the tree, and remembered.
unfoldable pub take_out : List ℕ → HostTree → List HostEntry → Option (HostTree × List HostEntry)
take_out [] ht removed = some (ht, removed)
take_out (pk ∷ pks) ht removed = elim (find pk ht.hosts) [
  | none ↦ take_out pks ht removed
  | some p ↦ entry_at p ht.root >>= λ e.
      drop_entry pk p ht >>= λ ht'. take_out pks ht' (removed ++ (e ∷ []))
]

unfoldable pub last_succeeded : List Bool → Bool
last_succeeded [] = false
last_succeeded (b ∷ []) = b
last_succeeded (b ∷ c ∷ bs) = last_succeeded (c ∷ bs)

unfoldable pub put_back : List HostEntry → HostTree → HostTree
put_back [] ht = ht
put_back (e ∷ es) ht = put_back es (put_entry e ht)

abbrev pub is_empty {ℓ} : {A : Type ℓ} → List A → Bool
is_empty [] = true
is_empty (x ∷ xs) = false

-- The draws: the tree, the filter, the hosts that were chosen, and the entries that were removed.
pub record Drawing : Type 0 where
  pub tree : HostTree
  pub filter : Filter
  pub chosen : List HostDbEntry
  pub removed : List HostEntry

module _ (outside : Outside) where
  abbrev pub acceptable : HostDbEntry → Filter → Bool
  acceptable h f =
      h.accepting_contracts
      && last_succeeded h.scan_history
      && not (filtered outside h.net_address f)

  -- One round, with a drawn number.
  unfoldable pub draw_host : ℕ → Drawing → Option Drawing
  draw_host x d = node_at_weight x d.tree.root >>= λ p. entry_at p d.tree.root >>= λ e.
      drop_entry (key_of e) p d.tree >>= λ ht'. some (record {
        tree = ht';
        filter =
            if acceptable e.host d.filter
            then filter_add outside e.host.net_address d.filter
            else d.filter;
        chosen = if acceptable e.host d.filter then d.chosen ++ (e.host ∷ []) else d.chosen;
        removed = d.removed ++ (e ∷ []);
      })

  -- Rounds that are left, and the number of this one. Each removes a host from the map, so as many as
  -- there are hosts are enough; a tree without weight has no number to draw.
  unfoldable pub draw_hosts : ℕ → ℕ → ℕ → Drawing → Option Drawing
  draw_hosts zero n i d = some d
  draw_hosts (suc rounds) n i d = elim (ltb (length d.chosen) n && not (is_empty d.tree.hosts)) [
    | false ↦ some d
    | true ↦ elim (weight_of d.tree.root == 0) [
      | true ↦ none
      | false ↦ draw_host (outside.big_intn i (weight_of d.tree.root)) d >>= λ d'.
          draw_hosts rounds n (i + 1) d'
    ]
  ]

  unfoldable pub select_random :
      ℕ → List ℕ → List ℕ → HostTree → Option (List HostDbEntry × HostTree)
  select_random n blacklist address_blacklist ht = do
    f ← block_addresses outside address_blacklist ht []
    start ← take_out blacklist ht []
    d ←
        draw_hosts (length start.0.hosts) n 0
          (record { tree = start.0; filter = f; chosen = []; removed = start.1 })
    pure (d.chosen, put_back d.removed d.tree)
