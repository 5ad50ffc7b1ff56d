-- ===== src/Awg.antt =====
-- AmneziaWG obfuscation parameters: `AWGParams`, `IsZero` and `Validate` of
-- internal/lowlevel/awg.go, and the rule of internal/domain/interface.go that decides whether the
-- parameters are passed downstream. Go's `int` is ℤ, `uint32` a number below 2 ^ 32.
pub mod Validation
pub mod Emission
pub mod Generate
mod Tests
use awg_portal.Prelude.{
  ℕ, ℤ, pos, ltb, ltb_ℤ, ◌==◌, String, Bool, true, false, not, ◌&&◌, ◌||◌, List, [], ◌∷◌,
  if◌then◌else◌, contains, nat_eq, int_eq,
}
use awg_portal.Errors.{Result, ok, err, plain, wrap, ◌>>◌, wrapping}

-- A struct of all the parameters; the interface, the peer and the physical interface hold the same.
pub record AwgParams : Type 0 where
  pub jc : ℤ
  pub jmin : ℤ
  pub jmax : ℤ
  pub s1 : ℤ
  pub s2 : ℤ
  pub s3 : ℤ
  pub s4 : ℤ
  pub h1 : ℕ
  pub h2 : ℕ
  pub h3 : ℕ
  pub h4 : ℕ

unfoldable pub is_zero : AwgParams → Bool
is_zero p =
    p.jc == pos 0
    && (p.jmin == pos 0
        && (p.jmax == pos 0
            && (p.s1 == pos 0
                && (p.s2 == pos 0
                    && (p.s3 == pos 0
                        && (p.s4 == pos 0
                            && (p.h1 == 0 && (p.h2 == 0 && (p.h3 == 0 && p.h4 == 0)))))))))

-- `v < 0 || v > hi`
unfoldable pub out_of_range : ℕ → ℤ → Bool
out_of_range hi v = ltb_ℤ v (pos 0) || ltb_ℤ (pos hi) v

-- The loop over H1..H4; `seen` is the map of the values met so far.
unfoldable pub check_headers : List ℕ → List ℕ → Result (Unit {0})
check_headers seen [] = ok tt
check_headers seen (h ∷ hs) =
    let rest = check_headers (h ∷ seen) hs in
    if ltb h 5
    then err (plain "awg: H value must be >= 5")
    else if contains seen h
    then err (plain "awg: H values must be pairwise unique")
    else rest

unfoldable pub validate : AwgParams → Result (Unit {0})
validate p =
    if out_of_range 128 p.jc
    then err (plain "awg: Jc out of range [0..128]")
    else if out_of_range 1280 p.jmin
    then err (plain "awg: Jmin out of range [0..1280]")
    else if out_of_range 1280 p.jmax
    then err (plain "awg: Jmax out of range [0..1280]")
    else if ltb_ℤ (pos 0) p.jc && not (ltb_ℤ p.jmin p.jmax)
    then err (plain "awg: Jmax must be greater than Jmin when Jc > 0")
    else if out_of_range 1280 p.s1
        || (out_of_range 1280 p.s2 || (out_of_range 1280 p.s3 || out_of_range 1280 p.s4))
    then err (plain "awg: S1..S4 out of range [0..1280]")
    else check_headers [] (p.h1 ∷ p.h2 ∷ p.h3 ∷ p.h4 ∷ [])

-- The part of `domain.Interface` that is about AWG.
pub record AwgSettings : Type 0 where
  pub enabled : Bool
  pub params : AwgParams

-- `Interface.HasAnyAWGParams` spells out the disjunction that `IsZero` is the negation of.
unfoldable pub has_any_awg_params : AwgParams → Bool
has_any_awg_params p =
    not (p.jc == pos 0)
    || (not (p.jmin == pos 0)
        || (not (p.jmax == pos 0)
            || (not (p.s1 == pos 0)
                || (not (p.s2 == pos 0)
                    || (not (p.s3 == pos 0)
                        || (not (p.s4 == pos 0)
                            || (not (p.h1 == 0)
                                || (not (p.h2 == 0) || (not (p.h3 == 0) || not (p.h4 == 0))))))))))

-- `Interface.EmitAWG`
unfoldable pub emit_awg : AwgSettings → Bool
emit_awg i = i.enabled && has_any_awg_params i.params

-- `PhysicalInterface.EmitAWG`
unfoldable pub physical_emit_awg : AwgSettings → Bool
physical_emit_awg p = p.enabled && not (is_zero p.params)

-- `Interface.validateAWGParams`
unfoldable pub validate_awg_params : AwgSettings → Result (Unit {0})
validate_awg_params i =
    if not i.enabled
    then ok tt
    else if is_zero i.params
    then err (plain "awg: AWGEnabled=true but all obfuscation parameters are zero")
    else validate i.params

-- The second check of `Interface.Validate`
unfoldable pub validate_interface_awg : AwgSettings → Result (Unit {0})
unfolding validate_awg_params
validate_interface_awg i = wrapping "invalid awg params" (validate_awg_params i)
