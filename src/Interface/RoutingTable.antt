-- ===== src/Interface/RoutingTable.antt =====
-- The routing table of an interface in internal/domain/interface.go: `ManageRoutingTable`,
-- `GetRoutingTable` and `RoutingTableInfo`.
use awg_portal.Prelude.{
  ℕ, ◌+◌, ◌-◌, ◌*◌, ◌^◌, leb, ltb, ltb_ℤ, ℤ, pos, negsuc, String, ◌==◌, string_eq, nat_eq, int_eq,
  bytes_eq, Bool, false, not, ◌&&◌, Option, none, some, List, [], ◌∷◌, if◌then◌else◌, map,
}
use awg_portal.Ip.{Cidr}
use awg_portal.Interface.{Interface}

abbrev pub off : List ℕ
off = b'o' ∷ b'f' ∷ b'f' ∷ []

-- `strings.ToLower`; the letters beyond ASCII are left alone, since no text that holds one is compared or
-- read as a number with success, whatever their case.
unfoldable pub lower_letter : ℕ → ℕ
lower_letter c = if leb b'A' c && leb c b'Z' then c + 32 else c

unfoldable pub to_lower : List ℕ → List ℕ
unfolding lower_letter
to_lower s = map lower_letter s

-- The value of a digit in base `b`, at most 16.
unfoldable pub digit : ℕ → ℕ → Option ℕ
digit b c =
    let d =
      if leb b'0' c && leb c b'9'
      then c - b'0'
      else if leb b'a' c && leb c b'f'
      then c - b'a' + 10
      else 16 in
    if ltb d b then some d else none

unfoldable pub read_digits : ℕ → ℕ → List ℕ → Option ℕ
unfolding digit
read_digits b acc [] = some acc
read_digits b acc (c ∷ s) = elim (digit b c) [
  | none ↦ none
  | some d ↦ read_digits b (acc * b + d) s
]

-- An unsigned number with at least one digit.
unfoldable pub read_number : ℕ → List ℕ → Option ℕ
unfolding read_digits
read_number b [] = none
read_number b (c ∷ s) = read_digits b 0 (c ∷ s)

-- `strings.ReplaceAll(s, "0x", "")`
unfoldable pub drop_0x : List ℕ → List ℕ
drop_0x [] = []
drop_0x (c ∷ []) = c ∷ []
drop_0x (c ∷ d ∷ s) =
    let rest = drop_0x s in
    let all = c ∷ drop_0x (d ∷ s) in if c == b'0' && d == b'x' then rest else all

abbrev pub starts_0x : List ℕ → Bool
starts_0x [] = false
starts_0x (c ∷ []) = false
starts_0x (c ∷ d ∷ s) = c == b'0' && d == b'x'

-- `math.MaxInt32`; `strconv.ParseUint` and `strconv.Atoi` fail on larger numbers that do not fit 64 bits,
-- which has the same result.
abbrev pub max_table : ℕ
max_table = 0x7fffffff

abbrev pub limited : Option ℕ → ℤ
limited none = negsuc 0
limited (some n) = if ltb max_table n then negsuc 0 else pos n

-- A negative number below the 64-bit range is an error of `strconv.Atoi`.
abbrev pub negated : Option ℕ → ℤ
negated none = negsuc 0
negated (some n) = if n == 0 then pos 0 else if ltb (2 ^ 63) n then negsuc 0 else negsuc (n - 1)

unfoldable pub read_decimal : List ℕ → ℤ
unfolding read_number
read_decimal [] = negsuc 0
read_decimal (c ∷ s) =
    if c == b'-'
    then negated (read_number 10 s)
    else if c == b'+'
    then limited (read_number 10 s)
    else limited (read_number 10 (c ∷ s))

abbrev pub local_backend_name : String
local_backend_name = "local"

unfoldable pub manage_routing_table : Interface → Bool
unfolding to_lower
manage_routing_table i = not (to_lower i.routing_table == off)

unfoldable pub get_routing_table : Interface → ℤ
unfolding to_lower read_number read_decimal drop_0x
get_routing_table i =
    let s = to_lower i.routing_table in
    if s == []
    then pos 0
    else if s == off
    then negsuc 0
    else if not (i.backend == local_backend_name)
    then pos 0
    else if starts_0x s
    then limited (read_number 16 (drop_0x s))
    else read_decimal s

-- internal/domain: `RoutingTableInfo`
pub record RoutingTableInfo : Type 0 where
  pub interface : Interface
  pub allowed_ips : List Cidr
  pub fw_mark : ℕ
  pub table : ℤ
  pub table_str : List ℕ
  pub is_deleted : Bool

unfoldable pub management_enabled : RoutingTableInfo → Bool
management_enabled r = not (r.table == negsuc 0)

-- The method `GetRoutingTable` of `RoutingTableInfo`
unfoldable pub effective_table : RoutingTableInfo → ℤ
effective_table r = if ltb_ℤ (pos 0) r.table then r.table else pos r.fw_mark
