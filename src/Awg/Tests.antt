-- ===== src/Awg/Tests.antt =====
-- The theorems about AWG parameters at concrete inputs.
use awg_portal.Prelude.{pos, true, ◌≡◌, ◌↔◌}
use awg_portal.Errors.{ok}
use awg_portal.Awg.{AwgParams, AwgSettings, validate, emit_awg, validate_interface_awg}
use awg_portal.Prelude.{
  ℕ, List, ◌+◌, ◌%◌, ◌≤◌, ◌<◌, length, contains, nat_eq, arith, some, ◌⊎◌, inl, inr, [], ◌∷◌, refl,
  false, ◌≢◌,
}
use awg_portal.Awg.Generate.{generate_awg_params, is_clash, uint32_at}
use awg_portal.Awg.Generate.Ranges.{IsGenerated}
use awg_portal.Awg.Generate.Fuel.{IsFresh, IsFair, generate_awg_params_lem}
use awg_portal.Awg.Validation.{IsSupported, validate_iff}
use awg_portal.Awg.Emission.{validate_interface_awg_iff}

abbrev sample : AwgParams
sample = record {
  jc = pos 4;
  jmin = pos 64;
  jmax = pos 200;
  s1 = pos 20;
  s2 = pos 30;
  s3 = pos 40;
  s4 = pos 10;
  h1 = 5;
  h2 = 6;
  h3 = 7;
  h4 = 8;
}

abbrev switched_on : AwgSettings
switched_on = record { enabled = true; params = sample }

validate_iff_example : (validate sample ≡ ok tt) ↔ IsSupported sample
validate_iff_example = validate_iff sample

validate_interface_awg_iff_example :
    ((validate_interface_awg switched_on ≡ ok tt)
      ↔ (switched_on.enabled ≡ true → IsSupported sample))
    × (validate_interface_awg switched_on ≡ ok tt → emit_awg switched_on ≡ switched_on.enabled)
validate_interface_awg_iff_example = validate_interface_awg_iff switched_on

-- The numbers 5, 6, 7, 8 over and over.
abbrev cycle : ℕ → ℕ
cycle i = 5 + i % 4

-- Three headers do not use up four numbers.
one_unused :
    (used : List ℕ) (a b c d : ℕ)
    → length used ≤ 3
    → (a ≢ b) × (a ≢ c) × (a ≢ d) × (b ≢ c) × (b ≢ d) × (c ≢ d)
    → (contains used a ≡ false)
      ⊎ ((contains used b ≡ false) ⊎ ((contains used c ≡ false) ⊎ (contains used d ≡ false)))
unfolding contains
one_unused [] a b c d short distinct = inl refl
one_unused (x ∷ []) a b c d short distinct = ground arith
one_unused (x ∷ y ∷ []) a b c d short distinct = ground arith
one_unused (x ∷ y ∷ z ∷ []) a b c d short distinct = ground arith
one_unused (x ∷ y ∷ z ∷ t ∷ rest) a b c d short distinct = ground (arith, short)

cycle-IsFresh :
    (used : List ℕ) (i : ℕ) → length used ≤ 3 → (k : ℕ) × (k < 4) × IsFresh cycle used (i + k)
cycle-IsFresh used i short =
    elim (one_unused used (uint32_at cycle (i + 0)) (uint32_at cycle (i + 1))
      (uint32_at cycle (i + 2)) (uint32_at cycle (i + 3)) short
      (omega arith, omega arith, omega arith, omega arith, omega arith, omega arith)) [
        | inl e ↦ (0, omega arith, (omega arith, e))
        | inr (inl e) ↦ (1, omega arith, (omega arith, e))
        | inr (inr (inl e)) ↦ (2, omega arith, (omega arith, e))
        | inr (inr (inr e)) ↦ (3, omega arith, (omega arith, e))
      ]

cycle-IsFair : IsFair 4 cycle
unfolding is_clash
cycle-IsFair = record { round = 0; round_bound = omega arith; clear = refl; fresh = cycle-IsFresh }

generate_awg_params_lem_example :
    (p : AwgParams) × (generate_awg_params 4 cycle ≡ some p) × IsGenerated p × (validate p ≡ ok tt)
generate_awg_params_lem_example = generate_awg_params_lem 4 cycle cycle-IsFair
