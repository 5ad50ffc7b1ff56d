-- ===== src/Awg/Validation.antt =====
-- `AWGParams.Validate` accepts exactly the parameters that its comment describes.
use awg_portal.Prelude.{ℕ, ◌≤◌, ℤ, pos, ◌≤ℤ◌, ◌<ℤ◌, ◌≡◌, ◌≢◌, ◌↔◌, false, [], ◌∷◌, arith, contains}
use awg_portal.Errors.{ok}
use awg_portal.Awg.{AwgParams, out_of_range, check_headers, validate}

abbrev pub InRange : ℕ → ℤ → Type 0
InRange hi v = (pos 0 ≤ℤ v) × (v ≤ℤ pos hi)

-- The supported parameters, written out as in the comment of `validateAWGParams`.
pub record IsSupported (p : AwgParams) : Type 0 where
  pub jc : InRange 128 p.jc
  pub jmin : InRange 1280 p.jmin
  pub jmax : InRange 1280 p.jmax
  pub order : pos 0 <ℤ p.jc → p.jmin <ℤ p.jmax
  pub s1 : InRange 1280 p.s1
  pub s2 : InRange 1280 p.s2
  pub s3 : InRange 1280 p.s3
  pub s4 : InRange 1280 p.s4
  pub headers : (5 ≤ p.h1) × (5 ≤ p.h2) × (5 ≤ p.h3) × (5 ≤ p.h4)
  pub unique :
      (p.h1 ≢ p.h2) × (p.h1 ≢ p.h3) × (p.h1 ≢ p.h4) × (p.h2 ≢ p.h3) × (p.h2 ≢ p.h4) × (p.h3 ≢ p.h4)

pub out_of_range_iff : (hi : ℕ) (v : ℤ) → (out_of_range hi v ≡ false) ↔ InRange hi v
unfolding out_of_range
out_of_range_iff hi v = ground arith

check_headers_iff :
    (a b c d : ℕ)
    → (check_headers [] (a ∷ b ∷ c ∷ d ∷ []) ≡ ok tt) ↔ (
        ((5 ≤ a) × (5 ≤ b) × (5 ≤ c) × (5 ≤ d))
        × ((a ≢ b) × (a ≢ c) × (a ≢ d) × (b ≢ c) × (b ≢ d) × (c ≢ d)))
unfolding check_headers contains
check_headers_iff a b c d = ground arith

-- `Validate` returns nil exactly for the supported parameters: every range holds, Jmax exceeds Jmin
-- whenever Jc is positive, and H1..H4 are at least 5 and pairwise different.
pub validate_iff : (p : AwgParams) → (validate p ≡ ok tt) ↔ IsSupported p
unfolding validate
validate_iff p = (
  λ h. ground (
    arith,
    out_of_range_iff 128 p.jc,
    out_of_range_iff 1280 p.jmin,
    out_of_range_iff 1280 p.jmax,
    out_of_range_iff 1280 p.s1,
    out_of_range_iff 1280 p.s2,
    out_of_range_iff 1280 p.s3,
    out_of_range_iff 1280 p.s4,
    check_headers_iff p.h1 p.h2 p.h3 p.h4,
  ),
  λ s. ground (
    arith,
    out_of_range_iff 128 p.jc,
    out_of_range_iff 1280 p.jmin,
    out_of_range_iff 1280 p.jmax,
    out_of_range_iff 1280 p.s1,
    out_of_range_iff 1280 p.s2,
    out_of_range_iff 1280 p.s3,
    out_of_range_iff 1280 p.s4,
    check_headers_iff p.h1 p.h2 p.h3 p.h4,
  ),
)
