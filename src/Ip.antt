-- ===== src/Ip.antt =====
-- internal/domain/ip.go: addresses and prefixes. The text of an address is its canonical text, so a `Cidr`
-- holds the address itself; `none` stands for the texts that are no address, "" and "invalid IP". An
-- address is its number and its family; IPv4-mapped IPv6 addresses are left out.
pub mod Subnets
mod Tests
use awg_portal.Prelude.{
  ℕ, zero, suc, ◌+◌, ◌-◌, ◌*◌, ◌/◌, ◌%◌, ◌^◌, leb, ltb, ℤ, pos, negsuc, ◌==◌, nat_eq, int_eq, Bool,
  true, false, not, ◌&&◌, ◌||◌, Option, none, some, List, [], ◌∷◌, ◌++◌, if◌then◌else◌,
}
use awg_portal.Errors.{Result, ok, err, panic, ◌>>=◌, ◌>>◌}
use awg_portal.User.{bool_beq}
use awg_portal.Text.{split_at_commas, trim_space}

pub record Addr : Type 0 where
  pub is4 : Bool
  pub value : ℕ

abbrev pub bit_len : Addr → ℕ
bit_len a = if a.is4 then 32 else 128

-- `netip.Addr.Next`; the address after the last one is not valid.
unfoldable pub next : Addr → Option Addr
next a =
    if a.value + 1 == (if a.is4 then 2 ^ 32 else 2 ^ 128)
    then none
    else some (record a { value = a.value + 1 })

pub record Cidr : Type 0 where
  pub addr : Option Addr
  pub net_length : ℤ

-- A `netip.Prefix`, with a valid address. The number of bits of an invalid one is -1.
pub record Prefix : Type 0 where
  pub addr : Addr
  pub bits : ℤ

-- The number of bits that `netip.PrefixFrom` keeps.
abbrev pub kept_bits : Addr → ℤ → ℤ
kept_bits a (pos n) = if leb n (bit_len a) then pos n else negsuc 0
kept_bits a (negsuc n) = negsuc 0

abbrev pub prefix_from : Option Addr → ℤ → Result Prefix
prefix_from none n = panic
prefix_from (some a) n = ok (record { addr = a; bits = kept_bits a n })

-- `netip.MustParseAddr` panics if the text is no address.
unfoldable pub prefix : Cidr → Result Prefix
prefix c = prefix_from c.addr c.net_length

-- `Prefix.IsValid`
abbrev pub is_valid_bits : ℤ → Bool
is_valid_bits (pos n) = true
is_valid_bits (negsuc n) = false

unfoldable pub is_valid : Cidr → Result Bool
unfolding prefix
is_valid c = do p ← prefix c; ok (is_valid_bits p.bits)

abbrev pub same_addr : Option Addr → Option Addr → Bool
same_addr none none = true
same_addr none (some b) = false
same_addr (some a) none = false
same_addr (some a) (some b) = bool_beq a.is4 b.is4 && a.value == b.value

unfoldable pub equal_prefix : Cidr → Cidr → Bool
equal_prefix c other = same_addr c.addr other.addr && c.net_length == other.net_length

-- `c.Prefix().Addr().Is4()`
unfoldable pub is_v4 : Cidr → Result Bool
unfolding prefix
is_v4 c = do p ← prefix c; ok p.addr.is4

abbrev pub no_cidr : Cidr
no_cidr = record { addr = none; net_length = pos 0 }

-- `x |= 1 << j`
unfoldable pub set_bit : ℕ → ℕ → ℕ
set_bit v j = if v / 2 ^ j % 2 == 0 then v + 2 ^ j else v

-- The loop of `BroadcastAddr` sets bit `b` of the address, counted from the highest one, for `b` from the
-- length of the prefix up; here `k` bits are left, and bit k - 1 is next.
unfoldable pub set_bits : ℕ → ℕ → ℕ
set_bits zero v = v
set_bits (suc k) v = set_bits k (set_bit v k)

abbrev pub broadcast_of : Addr → ℤ → Cidr
broadcast_of a (negsuc n) = no_cidr
broadcast_of a (pos n) = record {
  addr = some (record a { value = set_bits (bit_len a - n) a.value });
  net_length = pos n;
}

unfoldable pub broadcast_addr : Cidr → Result Cidr
unfolding prefix
broadcast_addr c = do p ← prefix c; ok (broadcast_of p.addr p.bits)

-- `netip.Prefix.Masked`
unfoldable pub masked : Addr → ℤ → Option Addr
masked a (negsuc n) = none
masked a (pos n) = some (record a { value = a.value / 2 ^ (bit_len a - n) * 2 ^ (bit_len a - n) })

abbrev pub network_of : Addr → ℤ → Cidr
network_of a (negsuc n) = no_cidr
network_of a (pos n) = record { addr = masked a (pos n); net_length = pos n }

unfoldable pub network_addr : Cidr → Result Cidr
unfolding prefix
network_addr c = do p ← prefix c; ok (network_of p.addr p.bits)

abbrev pub next_of : Option Addr → Option Addr
next_of none = none
next_of (some a) = next a

unfoldable pub first_addr : Cidr → Result Cidr
unfolding prefix
first_addr c = do
  p ← prefix c
  ok (record { addr = next_of (masked p.addr p.bits); net_length = p.bits })

unfoldable pub next_addr : Cidr → Result Cidr
unfolding prefix
next_addr c = do p ← prefix c; ok (record { addr = next p.addr; net_length = p.bits })

unfoldable pub host_addr : Cidr → Result Cidr
unfolding prefix
host_addr c = do p ← prefix c; ok (record { addr = some p.addr; net_length = pos (bit_len p.addr) })

unfoldable pub next_subnet : Cidr → Result Cidr
unfolding prefix broadcast_addr
next_subnet c = do
  p ← prefix c
  b ← broadcast_addr c
  last ← prefix b
  ok (record { addr = next last.addr; net_length = p.bits })

-- `subnet.Contains(ip)` for an IPv4 or IPv6 network and address of the `net` package.
abbrev pub in_subnet : Addr → ℕ → Addr → Bool
in_subnet a n b =
    bool_beq a.is4 b.is4 && a.value / 2 ^ (bit_len a - n) == b.value / 2 ^ (bit_len a - n)

-- A prefix that is not valid prints as no network: its subnet is nil, which panics, and as an address it
-- is in no subnet.
abbrev pub contains_prefix : Prefix → Prefix → Result Bool
contains_prefix p q = elim (p.bits) [
  | negsuc n ↦ panic
  | pos n ↦ ok (is_valid_bits q.bits && in_subnet p.addr n q.addr)
]

unfoldable pub contains_cidr : Cidr → Cidr → Result Bool
unfolding prefix
contains_cidr c other = do p ← prefix c; q ← prefix other; contains_prefix p q

unfoldable pub contains_default_route : List Cidr → Result Bool
contains_default_route [] = ok false
contains_default_route (c ∷ cs) = do
  p ← prefix c
  let rest = contains_default_route cs
  if p.bits == pos 0 then ok true else rest

unfoldable pub cidrs_per_family : List Cidr → Result (List Cidr × List Cidr)
cidrs_per_family [] = ok ([], [])
cidrs_per_family (c ∷ cs) = do
  v4 ← is_v4 c
  (four, six) ← cidrs_per_family cs
  ok (if v4 then (c ∷ four, six) else (four, c ∷ six))

-- `netip.ParsePrefix` on the list of the text's code points, and `netip.Prefix.String`.
pub record IpLibraries : Type 0 where
  pub parse_prefix : List ℕ → Result Cidr
  pub print_prefix : Prefix → List ℕ

-- `strings.Join(parts, ",")`
unfoldable pub join_with_commas : List (List ℕ) → List ℕ
join_with_commas [] = []
join_with_commas (s ∷ []) = s
join_with_commas (s ∷ t ∷ rest) = s ++ (b',' ∷ join_with_commas (t ∷ rest))

module _ (l : IpLibraries) where
  unfoldable pub cidr_from_string : List ℕ → Result Cidr
  cidr_from_string s = l.parse_prefix (trim_space s)

  -- `CidrsFromArray`, and the loop of `CidrsFromString`
  unfoldable pub cidrs_from_array : List (List ℕ) → Result (List Cidr)
  cidrs_from_array [] = ok []
  cidrs_from_array (s ∷ rest) = do c ← cidr_from_string s; cs ← cidrs_from_array rest; ok (c ∷ cs)

  unfoldable pub cidrs_from_string : List ℕ → Result (List Cidr)
  cidrs_from_string s = cidrs_from_array (split_at_commas s)

  unfoldable pub cidrs_to_string_slice : List Cidr → Result (List (List ℕ))
  cidrs_to_string_slice [] = ok []
  cidrs_to_string_slice (c ∷ cs) = do
    p ← prefix c
    rest ← cidrs_to_string_slice cs
    ok (l.print_prefix p ∷ rest)

  unfoldable pub cidrs_to_string : List Cidr → Result (List ℕ)
  unfolding cidrs_to_string_slice join_with_commas
  cidrs_to_string cs = do parts ← cidrs_to_string_slice cs; ok (join_with_commas parts)
