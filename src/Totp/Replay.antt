-- ===== src/Totp/Replay.antt =====
-- internal/app/auth/auth_totp.go: `ValidateCode` with a code of six digits.
use awg_portal.Prelude.{
  ℕ, ◌/◌, ℤ, pos, ◌<ℤ◌, ◌==◌, string_eq, int_eq, beq_ℤ_iff, ltb_ℤ, String, true, false, not, ◌&&◌,
  List, [], ◌∷◌, ◌≡◌, ◌≢◌, ◌⊎◌, inl, inr, some, arith, Bool-cases, Option-cases, eq_iff, Any, ap,
  subst, sym,
}
use awg_portal.Errors.{ok, wrapping, wrapping-eq-ok, bind-eq-ok, guard}
use awg_portal.Access.{Context}
use awg_portal.User.{User}
use awg_portal.Text.{bytes, trim_space, is_nil}
use awg_portal.Totp.Stored.{IsStored, update-IsStored}
use awg_portal.Totp.{
  TotpLibraries, TotpUserManager, Code, candidates, totp_period, is_recovery_code_format,
  subtle_compare, match_step, validate_totp_with_step, record_step, found_step, check_totp_code,
  validate_code,
}

module _ (l : TotpLibraries) where
  -- The time step `c` generates the code.
  pub record Generates (secret : String) (code : Code) (c : ℤ) : Type 0 where
    pub generated : Code
    pub generation : l.generate_code secret c ≡ ok generated
    pub equal : subtle_compare (bytes generated) (bytes code) ≡ true

  match_step-Generates :
      (code : Code) (secret : String) (cs : List ℤ) (step : ℤ)
      → match_step l code secret cs ≡ ok (some step)
      → Any (λ c. c ≡ step) cs × Generates secret code step
  unfolding match_step
  match_step-Generates code secret [] step h = ground arith
  match_step-Generates code secret (c ∷ cs) step h =
      let (generated, e, h₁) = bind-eq-ok (l.generate_code secret c) _ h in
      elim (Bool-cases (subtle_compare (bytes generated) (bytes code))) [
        | inl hit ↦
            let same : c ≡ step = ground arith in
            (
              inl same,
              record { generated = generated; generation = ground (arith, e, same); equal = hit },
            )
        | inr miss ↦
            let (place, found) = match_step-Generates code secret cs step (ground arith) in
            (inr place, found)
      ]

  module _ (m : TotpUserManager) where
    open m use {World}

    -- A code of six digits has been accepted.
    pub record Accepted (now : ℕ) (user : User) (code : Code) (w : World) (saved : User)
        (w' : World) : Type 0 where
      pub enabled : user.totp_enabled ≡ true
      pub has_secret : user.totp_secret ≢ ""
      pub near : Any (λ c. c ≡ saved.totp_last_used_step) (candidates (now / totp_period))
      pub generates : Generates user.totp_secret (trim_space code) saved.totp_last_used_step
      pub fresh :
          (user.totp_last_used_step ≡ pos 0)
          ⊎ (user.totp_last_used_step <ℤ saved.totp_last_used_step)
      pub same_secret : saved.totp_secret ≡ user.totp_secret
      pub same_codes : saved.totp_recovery_codes ≡ user.totp_recovery_codes
      pub still_enabled : saved.totp_enabled ≡ true
      pub store : IsStored m saved user.identifier w w'

    -- A time step has been saved as the last used one.
    record Recorded (user : User) (step : ℤ) (w : World) (saved : User) (w' : World) : Type 0 where
      step_saved : saved.totp_last_used_step ≡ step
      fresh : (user.totp_last_used_step ≡ pos 0) ⊎ (user.totp_last_used_step <ℤ step)
      same_secret : saved.totp_secret ≡ user.totp_secret
      same_codes : saved.totp_recovery_codes ≡ user.totp_recovery_codes
      same_enabled : saved.totp_enabled ≡ user.totp_enabled
      store : IsStored m saved user.identifier w w'

    record_step-Recorded :
        (ctx : Context) (now : ℕ) (user : User) (step : ℤ) (w : World) (saved : User) (w' : World)
        → record_step l m ctx now user step w ≡ ok (saved, w')
        → Recorded user step w saved w'
    unfolding record_step
    record_step-Recorded ctx now user step w saved w' h =
        let (_, new, h₁) =
          bind-eq-ok
            (guard
              (not (
                not (ltb_ℤ user.totp_last_used_step step)
                && not (user.totp_last_used_step == pos 0)))
              _)
            _ h in
        let updated = wrapping-eq-ok _ _ h₁ in
        record {
          step_saved = (m.update-HasTotpOf _ now _ saved w w' updated).last_used_step;
          fresh = ground (arith, new, beq_ℤ_iff user.totp_last_used_step (pos 0));
          same_secret = (m.update-HasTotpOf _ now _ saved w w' updated).secret;
          same_codes = (m.update-HasTotpOf _ now _ saved w w' updated).recovery_codes;
          same_enabled = (m.update-HasTotpOf _ now _ saved w w' updated).enabled;
          store =
              update-IsStored m _ now (record user { totp_last_used_step = step }) saved w w'
                updated;
        }

    check_totp_code-Recorded :
        (ctx : Context) (now : ℕ) (user : User) (code : Code) (w : World) (saved : User)
        (w' : World)
        → check_totp_code l m ctx now user code w ≡ ok (saved, w')
        → (step : ℤ) × (validate_totp_with_step l now code user.totp_secret ≡ ok (some step))
          × Recorded user step w saved w'
    unfolding check_totp_code found_step
    check_totp_code-Recorded ctx now user code w saved w' h =
        let (found, matched, h₁) =
          bind-eq-ok (wrapping _ (validate_totp_with_step l now code user.totp_secret)) _ h in
        let valid = wrapping-eq-ok _ _ matched in
        elim (Option-cases found) [
          | inl nothing ↦ ground (arith, ap (λ o. found_step l m ctx now user o w) nothing)
          | inr (step, e) ↦ (
            step,
            cc (valid, e),
            record_step-Recorded ctx now user step w saved w'
                (cc (h₁, ap (λ o. found_step l m ctx now user o w) e)),
          )
        ]

    -- A code of six digits is accepted only while TOTP is on and a secret is stored, only if the time
    -- step of now, the one after it or the one before it generates it, and only if that step comes after
    -- the last used one, or none was used; a later read finds the step, and nothing else of TOTP changes.
    pub validate_code-Accepted :
        (ctx : Context) (now : ℕ) (user : User) (code : Code) (w : World) (saved : User)
        (w' : World)
        → is_recovery_code_format (trim_space code) ≡ false
        → validate_code l m ctx now user code w ≡ ok (saved, w')
        → Accepted now user code w saved w'
    unfolding validate_code validate_totp_with_step
    validate_code-Accepted ctx now user code w saved w' form h =
        let (_, enabled, h₁) = bind-eq-ok (guard user.totp_enabled _) _ h in
        let (_, secret, h₂) = bind-eq-ok (guard (not (user.totp_secret == "")) _) _ h₁ in
        let (_, text, h₃) = bind-eq-ok (guard (not (is_nil (trim_space code))) _) _ h₂ in
        let (step, valid, r) =
          check_totp_code-Recorded ctx now user (trim_space code) w saved w'
            (ground (arith, form, h₃)) in
        let (near, generates) =
          match_step-Generates (trim_space code) user.totp_secret (candidates (now / totp_period))
            step valid in
        record {
          enabled = ground (arith, enabled);
          has_secret = ground (arith, secret, eq_iff user.totp_secret "");
          near =
              subst (λ s. Any (λ c. c ≡ s) (candidates (now / totp_period))) (sym r.step_saved)
                near;
          generates =
              subst (λ s. Generates user.totp_secret (trim_space code) s) (sym r.step_saved)
                generates;
          fresh =
              subst (λ s. (user.totp_last_used_step ≡ pos 0) ⊎ (user.totp_last_used_step <ℤ s))
                (sym r.step_saved) r.fresh;
          same_secret = r.same_secret;
          same_codes = r.same_codes;
          still_enabled = ground (arith, enabled, r.same_enabled);
          store = r.store;
        }
