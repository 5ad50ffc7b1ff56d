-- ===== src/Prelude/Bits.antt =====
-- Go's `|` and `^` on unsigned numbers.
use Prim.Native.Nat.{
  ℕ, zero, suc, ◌+◌, ◌*◌, ◌/◌, ◌%◌, ◌≤◌, ◌<◌, bit_or, bit_xor, bit_or-bitwise, bit_xor-bitwise,
  digits, differ, max,
}
use mathlib.Core.Path.{◌≡◌, refl, ap, sym, ◌∙◌}
use mathlib.Core.Logic.{◌↔◌}
use native.Mathlib.Omega.{arith}

differ-zero : (a b : ℕ) → differ a b ≡ 0 → a ≡ b
differ-zero zero b h = omega (arith, h)
differ-zero (suc a) zero h = omega (arith, h)
differ-zero (suc a) (suc b) h = ap suc (differ-zero a b h)

differ_self : (a : ℕ) → differ a a ≡ 0
differ_self zero = refl
differ_self (suc a) = differ_self a

xor_digits-zero : (n a b : ℕ) → a ≤ n → digits (λ b. b) differ n a b ≡ 0 → a ≡ b
xor_digits-zero zero zero b le h = omega (arith, h)
xor_digits-zero zero (suc a) b le h = omega (arith, le)
xor_digits-zero (suc n) zero b le h = omega (arith, h)
xor_digits-zero (suc n) (suc a) b le h =
    let top = xor_digits-zero n (suc a / 2) (b / 2) (omega (arith, le)) (omega (arith, h)) in
    let low = differ-zero (suc a % 2) (b % 2) (omega (arith, h)) in omega (arith, top, low)

xor_digits_self : (n a : ℕ) → a ≤ n → digits (λ b. b) differ n a a ≡ 0
xor_digits_self zero zero le = refl
xor_digits_self zero (suc a) le = omega (arith, le)
xor_digits_self (suc n) zero le = refl
xor_digits_self (suc n) (suc a) le =
    let top = xor_digits_self n (suc a / 2) (omega (arith, le)) in
    let low = differ_self (suc a % 2) in omega (arith, top, low)

or_digits-zero : (n a b : ℕ) → a ≤ n → digits (λ b. b) max n a b ≡ 0 → (a ≡ 0) × (b ≡ 0)
or_digits-zero zero zero b le h = (refl, h)
or_digits-zero zero (suc a) b le h = ground (arith, le)
or_digits-zero (suc n) zero b le h = (refl, h)
or_digits-zero (suc n) (suc a) b le h =
    let (top, _) = or_digits-zero n (suc a / 2) (b / 2) (omega (arith, le)) (omega (arith, h)) in
    let low : suc a % 2 ≡ 0 = omega (arith, h) in ground (arith, top, low)

pub bit_xor-eq-zero : (a b : ℕ) → (bit_xor a b ≡ 0) ↔ (a ≡ b)
bit_xor-eq-zero a b =
    let e : bit_xor a b ≡ digits (λ b. b) differ a a b = λ i. bit_xor-bitwise a b i in
    (
      λ h. xor_digits-zero a a b (omega arith) (sym e ∙ h),
      λ same.
          ap (bit_xor a) (sym same)
          ∙ (λ i. bit_xor-bitwise a a i)
          ∙ xor_digits_self a a (omega arith),
    )

or_digits-left : (n b : ℕ) → b ≡ 0 → digits (λ b. b) max n 0 b ≡ 0
or_digits-left zero b h = h
or_digits-left (suc n) b h = h

pub bit_or-eq-zero : (a b : ℕ) → (bit_or a b ≡ 0) ↔ (a ≡ 0) × (b ≡ 0)
bit_or-eq-zero a b =
    let e : bit_or a b ≡ digits (λ b. b) max a a b = λ i. bit_or-bitwise a b i in
    (
      λ h. or_digits-zero a a b (omega arith) (sym e ∙ h),
      λ both. ap (λ x. bit_or x b) (both.0) ∙ (λ i. bit_or-bitwise 0 b i) ∙ both.1,
    )

-- More digits to go than there are change nothing.
digits-fuel :
    (n m a b : ℕ) → a ≤ n → a ≤ m → digits (λ b. b) differ n a b ≡ digits (λ b. b) differ m a b
digits-fuel zero zero a b le le' = refl
digits-fuel zero (suc m) zero b le le' = refl
digits-fuel zero (suc m) (suc a) b le le' = omega (arith, le)
digits-fuel (suc n) zero zero b le le' = refl
digits-fuel (suc n) zero (suc a) b le le' = omega (arith, le')
digits-fuel (suc n) (suc m) zero b le le' = refl
digits-fuel (suc n) (suc m) (suc a) b le le' =
    let rec = digits-fuel n m (suc a / 2) (b / 2) (omega (arith, le)) (omega (arith, le')) in
    omega (arith, rec)

differ-sum : (a b : ℕ) → a < 2 → b < 2 → differ a b ≡ (a + b) % 2
differ-sum zero b p q = omega (arith, q)
differ-sum (suc zero) zero p q = refl
differ-sum (suc zero) (suc zero) p q = refl
differ-sum (suc zero) (suc (suc b)) p q = omega (arith, q)
differ-sum (suc (suc a)) b p q = omega (arith, p)

-- The lowest digit, and the others.
bit_xor-halves : (a b : ℕ) → bit_xor a b ≡ bit_xor (a / 2) (b / 2) * 2 + (a % 2 + b % 2) % 2
bit_xor-halves zero b =
    let e : bit_xor 0 b ≡ b = λ i. bit_xor-bitwise 0 b i in
    let f : bit_xor 0 (b / 2) ≡ b / 2 = λ i. bit_xor-bitwise 0 (b / 2) i in omega (arith, e, f)
bit_xor-halves (suc a) b =
    let e : bit_xor (suc a) b
        ≡ digits (λ b. b) differ a (suc a / 2) (b / 2) * 2 + differ (suc a % 2) (b % 2) =
      λ i. bit_xor-bitwise (suc a) b i in
    let f : bit_xor (suc a / 2) (b / 2) ≡ digits (λ b. b) differ (suc a / 2) (suc a / 2) (b / 2) =
      λ i. bit_xor-bitwise (suc a / 2) (b / 2) i in
    let same = digits-fuel a (suc a / 2) (suc a / 2) (b / 2) (omega arith) (omega arith) in
    let low = differ-sum (suc a % 2) (b % 2) (omega arith) (omega arith) in
    omega (arith, e, f, same, low)

xor_zero_up_to : (n a : ℕ) → a ≤ n → bit_xor a 0 ≡ a
xor_zero_up_to n zero le = λ i. bit_xor-bitwise 0 0 i
xor_zero_up_to zero (suc a) le = omega (arith, le)
xor_zero_up_to (suc n) (suc a) le =
    let h = bit_xor-halves (suc a) 0 in
    let rec = xor_zero_up_to n (suc a / 2) (omega (arith, le)) in omega (arith, h, rec)

bit_xor-zero : (a : ℕ) → bit_xor a 0 ≡ a
bit_xor-zero a = xor_zero_up_to a a (omega arith)

xor_twice_up_to : (n key a : ℕ) → key ≤ n → bit_xor key (bit_xor a key) ≡ a
xor_twice_up_to n zero a le = (λ i. bit_xor-bitwise 0 (bit_xor a 0) i) ∙ bit_xor-zero a
xor_twice_up_to zero (suc key) a le = omega (arith, le)
xor_twice_up_to (suc n) (suc key) a le =
    let inner = bit_xor-halves a (suc key) in
    let outer = bit_xor-halves (suc key) (bit_xor a (suc key)) in
    let half : bit_xor a (suc key) / 2 ≡ bit_xor (a / 2) (suc key / 2) = omega (arith, inner) in
    let rec = xor_twice_up_to n (suc key / 2) (a / 2) (omega (arith, le)) in
    let top : bit_xor (suc key / 2) (bit_xor a (suc key) / 2) ≡ a / 2 =
      ap (bit_xor (suc key / 2)) half ∙ rec in
    omega (arith, inner, outer, top)

-- A mask taken twice is no mask.
pub bit_xor-twice : (key a : ℕ) → bit_xor key (bit_xor a key) ≡ a
bit_xor-twice key a = xor_twice_up_to key key a (omega arith)
