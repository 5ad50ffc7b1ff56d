-- ===== src/Allocation/Loop.antt =====
-- The loop of `getFreshPeerIpConfig` of internal/app/wireguard/wireguard_peers.go.
use awg_portal.Prelude.{
  ℕ, zero, suc, ◌+◌, ◌≤◌, ◌<◌, ◌^◌, leb, ℤ, ◌==◌, nat_eq, bytes_eq, Bool, true, false, ◌&&◌, Option,
  none, some, List, [], ◌∷◌, if◌then◌else◌, length, Any, Bool-cases, ◌≡◌, ◌↔◌, ◌⊎◌, inl, inr, refl,
  ap, subst, sym, ◌∙◌, arith,
}
use awg_portal.Errors.{Error, Result, ok, err, panic, plain}
use awg_portal.User.{bool_beq}
use awg_portal.Ip.{
  Cidr, Addr, same_addr, next, next_addr, is_valid, prefix, kept_bits, is_valid_bits,
}
use awg_portal.Allocation.{has_conflict, fresh_ip}

abbrev pub address : Bool → ℕ → Addr
address is4 v = record { is4 = is4; value = v }

abbrev pub at : Bool → ℕ → ℤ → Cidr
at is4 v n = record { addr = some (address is4 v); net_length = n }

-- Some prefix of the list has that address.
abbrev pub IsUsed : List Cidr → Addr → Type 0
IsUsed used a = Any (λ (u : Cidr). u.addr ≡ some a) used

pub same_addr_iff : (x y : Option Addr) → (same_addr x y ≡ true) ↔ (x ≡ y)
same_addr_iff none none = ground arith
same_addr_iff none (some b) = ground arith
same_addr_iff (some a) none = ground arith
same_addr_iff (some a) (some b) = ground arith

pub has_conflict_iff :
    (used : List Cidr) (a : Addr) (n : ℤ)
    → (has_conflict used (record { addr = some a; net_length = n }) ≡ true) ↔ IsUsed used a
unfolding has_conflict
has_conflict_iff [] a n = ground arith
has_conflict_iff (u ∷ used) a n =
    ground (arith, same_addr_iff u.addr (some a), has_conflict_iff used a n)

-- The number of prefixes with an address of the family that is not below `v`.
abbrev counts : Bool → ℕ → Option Addr → Bool
counts is4 v none = false
counts is4 v (some b) = bool_beq b.is4 is4 && leb v b.value

remaining : Bool → ℕ → List Cidr → ℕ
remaining is4 v [] = 0
remaining is4 v (u ∷ us) =
    let rest = remaining is4 v us in if counts is4 v u.addr then rest + 1 else rest

remaining-le-length : (is4 : Bool) (v : ℕ) (us : List Cidr) → remaining is4 v us ≤ length us
unfolding remaining
remaining-le-length is4 v [] = omega arith
remaining-le-length is4 v (u ∷ us) = ground (arith, remaining-le-length is4 v us)

counts-suc :
    (is4 : Bool) (v : ℕ) (o : Option Addr) → counts is4 (suc v) o ≡ true → counts is4 v o ≡ true
counts-suc is4 v none h = ground arith
counts-suc is4 v (some b) h = ground arith

bool_beq_self : (b : Bool) → bool_beq b b ≡ true
bool_beq_self true = refl
bool_beq_self false = refl

counts_self :
    (is4 : Bool) (v : ℕ)
    → (counts is4 v (some (address is4 v)) ≡ true)
      × (counts is4 (suc v) (some (address is4 v)) ≡ false)
counts_self is4 v = (ground (arith, bool_beq_self is4), ground (arith, bool_beq_self is4))

remaining_mono :
    (is4 : Bool) (v : ℕ) (us : List Cidr) → remaining is4 (suc v) us ≤ remaining is4 v us
unfolding remaining
remaining_mono is4 v [] = omega arith
remaining_mono is4 v (u ∷ us) = ground (arith, remaining_mono is4 v us, counts-suc is4 v u.addr)

remaining_less :
    (is4 : Bool) (v : ℕ) (us : List Cidr)
    → IsUsed us (address is4 v)
    → remaining is4 (suc v) us < remaining is4 v us
unfolding remaining
remaining_less is4 v [] m = elim m [ ]
remaining_less is4 v (u ∷ us) (inl here) =
    let there = ap (counts is4 v) here in
    let gone = ap (counts is4 (suc v)) here in
    ground (arith, counts_self is4 v, there, gone, remaining_mono is4 v us)
remaining_less is4 v (u ∷ us) (inr later) =
    ground (arith, remaining_less is4 v us later, counts-suc is4 v u.addr)

pub next-cases :
    (is4 : Bool) (v : ℕ)
    → (next (address is4 v) ≡ none) ⊎ (next (address is4 v) ≡ some (address is4 (suc v)))
unfolding next
next-cases is4 v = elim (Bool-cases (v + 1 == (if is4 then 2 ^ 32 else 2 ^ 128))) [
  | inl last ↦ inl (ground (arith, last))
  | inr more ↦ inr (ground (arith, more))
]

module _ (fuel : ℕ) (used : List Cidr) (is4 : Bool) (v : ℕ) (n : ℤ) where
  fresh_ip_free :
      has_conflict used (at is4 v n) ≡ false
      → fresh_ip (suc fuel) used (at is4 v n) ≡ some (ok (at is4 v n))
  unfolding fresh_ip
  fresh_ip_free free = ground (arith, free)

  -- What the loop does at an address that is used.
  fresh_ip_taken :
      has_conflict used (at is4 v n) ≡ true
      → (fresh_ip (suc fuel) used (at is4 v n) ≡ some panic)
        ⊎ (((e : Error) × (fresh_ip (suc fuel) used (at is4 v n) ≡ some (err e)))
            ⊎ ((m : ℤ) × (fresh_ip (suc fuel) used (at is4 v n)
                  ≡ fresh_ip fuel used (at is4 (suc v) m))))
  unfolding fresh_ip next_addr is_valid prefix
  fresh_ip_taken taken =
      let m = kept_bits (address is4 v) n in
      elim (next-cases is4 v) [
        | inl last ↦ inl (ground (arith, taken, last))
        | inr more ↦ elim (Bool-cases (is_valid_bits (kept_bits (address is4 (suc v)) m))) [
          | inl valid ↦ inr (inr (m, ground (arith, taken, more, valid)))
          | inr invalid ↦
              inr (
                inl (plain "ip space on subnet is exhausted", ground (arith, taken, more, invalid)))
        ]
      ]

fresh_ip_total :
    (fuel : ℕ) (used : List Cidr) (is4 : Bool) (v : ℕ) (n : ℤ)
    → remaining is4 v used < fuel
    → (r : Result Cidr) × (fresh_ip fuel used (at is4 v n) ≡ some r)
fresh_ip_total zero used is4 v n h = elim h [ ]
fresh_ip_total (suc fuel) used is4 v n h = elim (Bool-cases (has_conflict used (at is4 v n))) [
  | inr free ↦ (ok (at is4 v n), fresh_ip_free fuel used is4 v n free)
  | inl taken ↦ elim (fresh_ip_taken fuel used is4 v n taken) [
    | inl last ↦ (panic, last)
    | inr (inl (e, invalid)) ↦ (err e, invalid)
    | inr (inr (m, step)) ↦
        let less = remaining_less is4 v used ((has_conflict_iff used (address is4 v) n).0 taken) in
        let (r, e) = fresh_ip_total fuel used is4 (suc v) m (omega (arith, less, h)) in
        (r, step ∙ e)
  ]
]

le-cases : (v x : ℕ) → v ≤ x → (v ≡ x) ⊎ (suc v ≤ x)
le-cases v x h = elim (Bool-cases (v == x)) [
  | inl equal ↦ inl (ground (arith, equal))
  | inr different ↦ inr (ground (arith, different))
]

-- The first address from `v` on that is not used.
pub record IsFirst (used : List Cidr) (is4 : Bool) (v w : ℕ) : Type 0 where
  pub later : v ≤ w
  pub unused : ¬ IsUsed used (address is4 w)
  pub others : (x : ℕ) → v ≤ x → x < w → IsUsed used (address is4 x)

pub fresh_ip-IsFirst :
    (fuel : ℕ) (used : List Cidr) (is4 : Bool) (v : ℕ) (n : ℤ) (c : Cidr)
    → fresh_ip fuel used (at is4 v n) ≡ some (ok c)
    → (w : ℕ) × (m : ℤ) × (c ≡ at is4 w m) × IsFirst used is4 v w
unfolding fresh_ip
fresh_ip-IsFirst zero used is4 v n c h = cc
fresh_ip-IsFirst (suc fuel) used is4 v n c h = elim (Bool-cases (has_conflict used (at is4 v n))) [
  | inr free ↦
      let same : c ≡ at is4 v n = cc (fresh_ip_free fuel used is4 v n free) in
      (
        v,
        n,
        same,
        record {
          later = omega arith;
          unused = λ m. cc ((has_conflict_iff used (address is4 v) n).1 m);
          others = λ x lo hi. absurd (omega arith);
        },
      )
  | inl taken ↦ elim (fresh_ip_taken fuel used is4 v n taken) [
    | inl last ↦ absurd (cc)
    | inr (inl (e, invalid)) ↦ absurd (cc)
    | inr (inr (m, step)) ↦
        let (w, k, same, first) = fresh_ip-IsFirst fuel used is4 (suc v) m c (sym step ∙ h) in
        let here = (has_conflict_iff used (address is4 v) n).0 taken in
        (
          w,
          k,
          same,
          record {
            later = omega (arith, first.later);
            unused = first.unused;
            others = λ x lo hi. elim (le-cases v x lo) [
              | inl equal ↦ subst (λ y. IsUsed used (address is4 y)) equal here
              | inr above ↦ first.others x above hi
            ];
          },
        )
  ]
]

-- From any address the allocation loop ends with one unit of fuel more than there are used addresses: it
-- succeeds, fails or panics, and does not run out.
pub fresh_ip-enough :
    (used : List Cidr) (a : Addr) (n : ℤ)
    → (r : Result Cidr) × (fresh_ip
          (suc (length used))
          used
          (record { addr = some a; net_length = n })
        ≡ some r)
fresh_ip-enough used a n =
    fresh_ip_total (suc (length used)) used a.is4 a.value n
      (omega (arith, remaining-le-length a.is4 a.value used))
