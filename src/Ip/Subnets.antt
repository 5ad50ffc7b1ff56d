-- ===== src/Ip/Subnets.antt =====
-- The arithmetic of subnets in internal/domain/ip.go.
use awg_portal.Prelude.{
  ℕ, zero, suc, ◌+◌, ◌-◌, ◌*◌, ◌/◌, ◌%◌, ◌^◌, ◌≤◌, ◌<◌, ℤ, pos, ◌==◌, nat_eq, Bool, true, false,
  some, ◌≡◌, ◌↔◌, ap, sym, ◌∙◌, arith, Bool-cases, inl, inr, if◌then◌else◌,
}
use native.Mathlib.Nat.{
  div-div-eq-div-mul, add-div_right, one-le-pow, div-eq_of_lt-le, div-mul-le_self, lt-div-mul-add,
  pow-suc, div-one,
}
use awg_portal.Errors.{ok, ◌>>=◌}
use awg_portal.User.{bool_beq}
use awg_portal.Ip.{
  Addr, bit_len, Cidr, prefix, set_bit, set_bits, broadcast_addr, network_addr, contains_cidr,
  network_of, broadcast_of, masked, prefix_from, kept_bits, contains_prefix, in_subnet,
}

-- The mask's part of `v` and the last number with the same part.
abbrev pub low : ℕ → ℕ → ℕ
low v p = v / p * p

abbrev pub high : ℕ → ℕ → ℕ
high v p = v / p * p + (p - 1)

power_pos : (k : ℕ) → 0 < 2 ^ k
power_pos k = one-le-pow k 2 (omega arith)

set_bit-half : (v p : ℕ) → 0 < p → (if v / p % 2 == 0 then v + p else v) / p ≡ v / p / 2 * 2 + 1
set_bit-half v p positive = elim (Bool-cases (v / p % 2 == 0)) [
  | inl even ↦ ground (arith, even, add-div_right v {k = p} positive)
  | inr odd ↦ ground (arith, odd)
]

double : (h p : ℕ) → 0 < p → (h * 2 + 1) * p + (p - 1) ≡ h * (p * 2) + (p * 2 - 1)
double h p positive = grind arith

set_bits-high : (k v : ℕ) → set_bits k v ≡ high v (2 ^ k)
unfolding set_bits set_bit
set_bits-high zero v = omega (arith, div-one v)
set_bits-high (suc k) v =
    let p = 2 ^ k in
    let rec = set_bits-high k (set_bit v k) in
    let half = set_bit-half v p (power_pos k) in
    let twice = div-div-eq-div-mul v p 2 in
    let sum = double (v / p / 2) p (power_pos k) in
    rec
    ∙ (ap (λ q. q * p + (p - 1)) half
        ∙ (sum ∙ (ap (λ h. h * (p * 2) + (p * 2 - 1)) twice ∙ ap (high v) (sym (pow-suc 2 k)))))

-- A number has the same mask's part as `v` exactly between the two.
same_part_iff : (v o p : ℕ) → 0 < p → ((v / p == o / p) ≡ true) ↔ ((low v p ≤ o) × (o ≤ high v p))
same_part_iff v o p positive =
    let below = div-mul-le_self o p in
    let above = lt-div-mul-add {a = o} {b = p} positive in
    (
      λ e.
          let same : v / p ≡ o / p = ground (arith, e) in
          let start : v / p * p ≡ o / p * p = ap (λ q. q * p) same in
          omega (arith, start, below, above, positive),
      λ (lo, hi).
          let next_part : (v / p + 1) * p ≡ v / p * p + p = grind arith in
          let same =
            div-eq_of_lt-le {k = v / p} p {m = o} lo (omega (arith, hi, next_part, positive)) in
          ground (arith, same),
    )

-- A prefix whose length fits its address.
pub record IsPrefix (a : Addr) (n : ℕ) (c : Cidr) : Type 0 where
  pub addr : c.addr ≡ some a
  pub length : c.net_length ≡ pos n
  pub fits : n ≤ bit_len a

abbrev pub at_prefix : Addr → ℕ → ℕ → Cidr
at_prefix a n v = record { addr = some (record a { value = v }); net_length = pos n }

prefix-IsPrefix :
    (a : Addr) (n : ℕ) (c : Cidr)
    → IsPrefix a n c
    → prefix c ≡ ok (record { addr = a; bits = pos n })
unfolding prefix
prefix-IsPrefix a n c p =
    let kept : kept_bits a (pos n) ≡ pos n = ground (arith, p.fits) in
    ap (λ o. prefix_from o c.net_length) p.addr
    ∙ (ap (λ z. prefix_from (some a) z) p.length
        ∙ ap (λ (b : ℤ). ok (record { addr = a; bits = b })) kept)

bool_beq-eq_true : (x y : Bool) → (bool_beq x y ≡ true) ↔ (x ≡ y)
bool_beq-eq_true true true = ground arith
bool_beq-eq_true true false = ground arith
bool_beq-eq_true false true = ground arith
bool_beq-eq_true false false = ground arith

module _ (a : Addr) (n : ℕ) (c : Cidr) (p : IsPrefix a n c) where
  network_addr-IsPrefix : network_addr c ≡ ok (at_prefix a n (low a.value (2 ^ (bit_len a - n))))
  unfolding network_addr masked prefix
  network_addr-IsPrefix =
      ap (λ r. r >>= λ q. ok (network_of q.addr q.bits)) (prefix-IsPrefix a n c p)

  broadcast_addr-IsPrefix :
      broadcast_addr c ≡ ok (at_prefix a n (high a.value (2 ^ (bit_len a - n))))
  unfolding broadcast_addr prefix
  broadcast_addr-IsPrefix =
      ap (λ r. r >>= λ q. ok (broadcast_of q.addr q.bits)) (prefix-IsPrefix a n c p)
      ∙ ap (λ v. ok (at_prefix a n v)) (set_bits-high (bit_len a - n) a.value)

  pub contains_cidr-IsPrefix :
      (b : Addr) (m : ℕ) (other : Cidr)
      → IsPrefix b m other
      → contains_cidr c other ≡ ok (in_subnet a n b)
  unfolding contains_cidr
  contains_cidr-IsPrefix b m other q =
      ap (λ r. r >>= λ x. prefix other >>= λ y. contains_prefix x y) (prefix-IsPrefix a n c p)
      ∙ ap (λ r. r >>= λ y. contains_prefix (record { addr = a; bits = pos n }) y)
          (prefix-IsPrefix b m other q)

  -- For a prefix and an address with a valid prefix: `NetworkAddr` and `BroadcastAddr` give the first and
  -- the last address of the subnet, and `Contains` accepts exactly the addresses of the same family from
  -- the one to the other.
  pub contains-network-broadcast :
      (b : Addr) (m : ℕ) (other : Cidr)
      → IsPrefix b m other
      → (first last : ℕ) × (network_addr c ≡ ok (at_prefix a n first))
        × (broadcast_addr c ≡ ok (at_prefix a n last))
        × ((contains_cidr c other ≡ ok true)
            ↔ ((a.is4 ≡ b.is4) × (first ≤ b.value) × (b.value ≤ last)))
  contains-network-broadcast b m other q =
      let size = 2 ^ (bit_len a - n) in
      let part = same_part_iff a.value b.value size (power_pos (bit_len a - n)) in
      (
        low a.value size,
        high a.value size,
        network_addr-IsPrefix,
        broadcast_addr-IsPrefix,
        ground (arith, contains_cidr-IsPrefix b m other q, bool_beq-eq_true a.is4 b.is4, part),
      )
