-- ===== src/Totp/Codes.antt =====
-- internal/app/auth/auth_totp.go: the comparison of codes, and the format of the recovery codes.
use Prim.Native.Nat.{bit_or, bit_xor}
use awg_portal.Prelude.Bits.{bit_or-eq-zero, bit_xor-eq-zero}
use awg_portal.Prelude.{
  ℕ, zero, suc, ◌+◌, ◌%◌, nat_eq, true, false, List, [], ◌∷◌, ◌≡◌, ◌↔◌, refl, arith, length, leb,
  contains_func, All, ap,
}
use awg_portal.Errors.{Result, ok, bind-eq-ok}
use awg_portal.Text.{bytes, rune_bytes}
use awg_portal.Totp.{
  Code, compare_from, subtle_compare, is_recovery_code_format, letter_from, alphabet, letter,
  recovery_code, generate_recovery_codes,
}

compare_from_iff :
    (v : ℕ) (a b : List ℕ) → length a ≡ length b → (compare_from v a b ≡ 0) ↔ (v ≡ 0) × (a ≡ b)
unfolding compare_from
compare_from_iff v [] [] e = (λ h. (h, refl), λ h. h.0)
compare_from_iff v [] (y ∷ ys) e = ground (arith, e)
compare_from_iff v (x ∷ xs) [] e = ground (arith, e)
compare_from_iff v (x ∷ xs) (y ∷ ys) e =
    let rec = compare_from_iff (bit_or v (bit_xor x y)) xs ys (omega (arith, e)) in
    ground (arith, rec, bit_or-eq-zero v (bit_xor x y), bit_xor-eq-zero x y)

-- `subtleCompare` decides equality of the bytes, whatever they are.
pub subtle_compare_iff : (a b : List ℕ) → (subtle_compare a b ≡ true) ↔ (a ≡ b)
unfolding subtle_compare
subtle_compare_iff a b = ground (arith, compare_from_iff 0 a b, ap length {x = a} {y = b})

letter_from-ascii :
    (l : List ℕ) (i : ℕ) → contains_func (leb 128) l ≡ false → leb 128 (letter_from l i) ≡ false
unfolding contains_func
letter_from-ascii [] i ascii = refl
letter_from-ascii (c ∷ cs) zero ascii = ground (arith, ascii)
letter_from-ascii (c ∷ cs) (suc i) ascii = letter_from-ascii cs i (ground (arith, ascii))

letter-ascii : (b : ℕ) → leb 128 (letter b) ≡ false
unfolding letter contains_func
letter-ascii b = letter_from-ascii alphabet (b % 30) refl

bytes-ascii : (s : List ℕ) → contains_func (leb 128) s ≡ false → bytes s ≡ s
unfolding bytes rune_bytes contains_func
bytes-ascii [] ascii = refl
bytes-ascii (r ∷ s) ascii = ground (arith, ascii, bytes-ascii s)

bytes-recovery_code : (buf : ℕ → ℕ) → bytes (recovery_code buf) ≡ recovery_code buf
unfolding contains_func recovery_code
bytes-recovery_code buf =
    let low = letter-ascii in
    bytes-ascii (recovery_code buf) (
      cc (
        low (buf 0),
        low (buf 1),
        low (buf 2),
        low (buf 3),
        low (buf 4),
        low (buf 5),
        low (buf 6),
        low (buf 7),
      ))

recovery_code-is_format : (buf : ℕ → ℕ) → is_recovery_code_format (recovery_code buf) ≡ true
unfolding is_recovery_code_format recovery_code
recovery_code-is_format buf = rw (bytes-recovery_code buf)

-- Every code that `generateRecoveryCodes` issues is recognised as a recovery code, and it issues as many
-- as were asked for.
pub generate_recovery_codes-is_format :
    (n i : ℕ) (random : ℕ → Result (ℕ → ℕ)) (codes : List Code)
    → generate_recovery_codes n i random ≡ ok codes
    → (length codes ≡ n) × All (λ c. is_recovery_code_format c ≡ true) codes
unfolding generate_recovery_codes
generate_recovery_codes-is_format zero i random codes h = ground (arith, h)
generate_recovery_codes-is_format (suc n) i random codes h =
    let (buf, drawn, h₁) = bind-eq-ok (random i) _ h in
    let (rest, more, h₂) = bind-eq-ok (generate_recovery_codes n (i + 1) random) _ h₁ in
    let rec = generate_recovery_codes-is_format n (i + 1) random rest more in
    ground (arith, h₂, rec, recovery_code-is_format buf)
