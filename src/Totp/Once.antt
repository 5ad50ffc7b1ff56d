-- ===== src/Totp/Once.antt =====
-- Codes of the second factor are accepted once: `ValidateCode` and `consumeRecoveryCode` of
-- internal/app/auth/auth_totp.go, after any logins, each on the user as the store has it then.
use awg_portal.Prelude.{
  ℕ, ℤ, pos, ◌<ℤ◌, ◌≤ℤ◌, String, Bool, false, ◌≡◌, ◌⊎◌, inl, inr, some, List, ◌==◌, string_eq,
  eq_iff, arith, Bool-cases, ap, sym, subst, ◌∙◌,
}
use awg_portal.Errors.{ok, err, plain}
use awg_portal.Access.{Context}
use awg_portal.User.{User}
use awg_portal.Text.{trim_space}
use awg_portal.Totp.Recovery.{count, consume_recovery_code-Consumed, count-consume, consume_none}
use awg_portal.Totp.Replay.{validate_code-Accepted}
use awg_portal.Totp.{
  TotpLibraries, TotpUserManager, Code, consume_recovery_code, normalize_recovery_code,
  is_recovery_code_format, validate_code,
}
use awg_portal.Totp.Logins.{LoggedIn, validate_code-LoggedIn, Logins, here, after}

zero_not_after : (step : ℤ) → pos 0 <ℤ step → ¬ (step ≤ℤ pos 0)
zero_not_after step positive h = omega arith

used_after :
    (step old new kept : ℤ)
    → pos 0 <ℤ step
    → step ≤ℤ old
    → (new ≡ old) ⊎ ((old ≡ pos 0) ⊎ (old <ℤ new))
    → kept ≡ new
    → step ≤ℤ kept
used_after step old new kept positive used (inl e) k = subst (λ t. step ≤ℤ t) (sym (k ∙ e)) used
used_after step old new kept positive used (inr (inl e)) k =
    absurd (zero_not_after step positive (subst (λ t. step ≤ℤ t) e used))
used_after step old new kept positive used (inr (inr newer)) k =
    subst (λ t. step ≤ℤ t) (sym k) (omega arith)

later_step :
    (step old new : ℤ) → pos 0 <ℤ step → step ≤ℤ old → (old ≡ pos 0) ⊎ (old <ℤ new) → step <ℤ new
later_step step old new positive used (inl e) =
    absurd (zero_not_after step positive (subst (λ t. step ≤ℤ t) e used))
later_step step old new positive used (inr newer) = omega arith

le_of_eq : (step kept : ℤ) → kept ≡ step → step ≤ℤ kept
le_of_eq step kept e = subst (λ t. step ≤ℤ t) (sym e) (omega arith)

module _ (l : TotpLibraries) (m : TotpUserManager) where
  open m use {World, load}

  -- The stored user has used this step or a later one.
  record HasUsed (id : String) (step : ℤ) (w : World) : Type 0 where
    kept : User
    loaded : load w id ≡ ok (some kept)
    used : step ≤ℤ kept.totp_last_used_step

  -- The code that `p` checks is none of the stored user's recovery codes.
  record HasSpent (id : String) (p : String → Bool) (w : World) : Type 0 where
    kept : User
    hashes : List String
    loaded : load w id ≡ ok (some kept)
    read : l.unmarshal kept.totp_recovery_codes ≡ ok hashes
    none_left : count p hashes ≡ 0

  module _ (id : String) (user : User) (w : World) (saved : User) (w' : World)
      (current : load w user.identifier ≡ ok (some user))
      (login : LoggedIn l m user w saved w') where
    loaded_own : user.identifier ≡ id → load w' id ≡ ok (some login.store.kept)
    loaded_own same = ap (load w') (sym same) ∙ login.store.loaded

    same_account : (kept : User) → load w id ≡ ok (some kept) → user.identifier ≡ id → user ≡ kept
    same_account kept loaded same = ground (arith, current, loaded, ap (load w) same)

    LoggedIn-HasUsed : (step : ℤ) → pos 0 <ℤ step → HasUsed id step w → HasUsed id step w'
    LoggedIn-HasUsed step positive had = elim (Bool-cases (user.identifier == id)) [
      | inl own ↦
          let same = (eq_iff user.identifier id).0 own in
          let account = same_account had.kept had.loaded same in
          record {
            kept = login.store.kept;
            loaded = loaded_own same;
            used =
                used_after step user.totp_last_used_step saved.totp_last_used_step
                  login.store.kept.totp_last_used_step positive
                  (subst (λ (u : User). step ≤ℤ u.totp_last_used_step) (sym account) had.used)
                  login.step login.store.totp.last_used_step;
          }
      | inr other ↦ record {
        kept = had.kept;
        loaded = login.store.others id other ∙ had.loaded;
        used = had.used;
      }
    ]

    spent_after :
        (p : String → Bool) (hashes : List String)
        → l.unmarshal user.totp_recovery_codes ≡ ok hashes
        → count p hashes ≡ 0
        → user.identifier ≡ id
        → HasSpent id p w'
    spent_after p hashes read gone same = elim (login.codes) [
      | inl equal ↦ record {
        kept = login.store.kept;
        hashes = hashes;
        loaded = loaded_own same;
        read = cc (equal, login.store.totp.recovery_codes, read);
        none_left = gone;
      }
      | inr (old, new, before, now, fewer) ↦
          let equal : old ≡ hashes = ground (arith, before, read) in
          record {
            kept = login.store.kept;
            hashes = new;
            loaded = loaded_own same;
            read = cc (login.store.totp.recovery_codes, now);
            none_left = omega (arith, fewer p, ap (count p) equal, gone);
          }
    ]

    LoggedIn-HasSpent : (p : String → Bool) → HasSpent id p w → HasSpent id p w'
    LoggedIn-HasSpent p had = elim (Bool-cases (user.identifier == id)) [
      | inl own ↦
          let same = (eq_iff user.identifier id).0 own in
          let account = same_account had.kept had.loaded same in
          spent_after p had.hashes
            (ap (λ (u : User). l.unmarshal u.totp_recovery_codes) account ∙ had.read) had.none_left
            same
      | inr other ↦ record {
        kept = had.kept;
        hashes = had.hashes;
        loaded = login.store.others id other ∙ had.loaded;
        read = had.read;
        none_left = had.none_left;
      }
    ]

  Logins-HasUsed :
      (id : String) (step : ℤ) {w w' : World}
      → pos 0 <ℤ step
      → Logins l m w w'
      → HasUsed id step w
      → HasUsed id step w'
  Logins-HasUsed id step positive here had = had
  Logins-HasUsed id step positive (after {u = u} {v = v} r ctx now user saved code current h) had =
      LoggedIn-HasUsed id user u saved v current
        (validate_code-LoggedIn l m ctx now user code u saved v h) step positive
        (Logins-HasUsed id step positive r had)

  Logins-HasSpent :
      (id : String) (p : String → Bool) {w w' : World}
      → Logins l m w w'
      → HasSpent id p w
      → HasSpent id p w'
  Logins-HasSpent id p here had = had
  Logins-HasSpent id p (after {u = u} {v = v} r ctx now user saved code current h) had =
      LoggedIn-HasSpent id user u saved v current
        (validate_code-LoggedIn l m ctx now user code u saved v h) p (Logins-HasSpent id p r had)

  -- Replay protection. A code of six digits has been accepted, with a step after 0; then any users log in,
  -- one after the other. If then another code of six digits is accepted for the same user, as the store has
  -- it, it belongs to a strictly later step.
  pub validate_code_twice :
      (ctx ctx' : Context) (now later : ℕ) (user saved again saved' : User) (code code' : Code)
      (w w₁ w₂ w₃ : World)
      → is_recovery_code_format (trim_space code) ≡ false
      → is_recovery_code_format (trim_space code') ≡ false
      → validate_code l m ctx now user code w ≡ ok (saved, w₁)
      → pos 0 <ℤ saved.totp_last_used_step
      → Logins l m w₁ w₂
      → load w₂ user.identifier ≡ ok (some again)
      → validate_code l m ctx' later again code' w₂ ≡ ok (saved', w₃)
      → saved.totp_last_used_step <ℤ saved'.totp_last_used_step
  validate_code_twice ctx ctx' now later user saved again saved' code code' w w₁ w₂ w₃ form form' h
        positive logins current h' =
      let step = saved.totp_last_used_step in
      let first = validate_code-Accepted l m ctx now user code w saved w₁ form h in
      let second = validate_code-Accepted l m ctx' later again code' w₂ saved' w₃ form' h' in
      let had = Logins-HasUsed user.identifier step positive logins (record {
        kept = first.store.kept;
        loaded = first.store.loaded;
        used = le_of_eq step first.store.kept.totp_last_used_step first.store.totp.last_used_step;
      }) in
      let account : had.kept ≡ again = ground (arith, had.loaded, current) in
      later_step step again.totp_last_used_step saved'.totp_last_used_step positive
        (subst (λ (u : User). step ≤ℤ u.totp_last_used_step) account had.used) second.fresh

  -- A recovery code that exactly one of the user's hashes matches is accepted at most once: after it has
  -- been used and stored, and any users have logged in one after the other, the user as the store has it
  -- is refused with that code.
  pub consume_recovery_code_twice :
      (ctx ctx' : Context) (now later : ℕ) (user saved again : User) (code : Code) (w w₁ w₂ : World)
      (hashes : List String)
      → l.unmarshal user.totp_recovery_codes ≡ ok hashes
      → count (λ h. l.compare h (normalize_recovery_code l code)) hashes ≡ 1
      → consume_recovery_code l m ctx now user code w ≡ ok (saved, w₁)
      → Logins l m w₁ w₂
      → load w₂ user.identifier ≡ ok (some again)
      → consume_recovery_code l m ctx' later again code w₂ ≡ err (plain "invalid recovery code")
  unfolding consume_recovery_code
  consume_recovery_code_twice ctx ctx' now later user saved again code w w₁ w₂ hashes read once h
        logins current =
      let c = consume_recovery_code-Consumed l m ctx now user code w saved w₁ h in
      let p : String → Bool = (λ h. l.compare h (normalize_recovery_code l code)) in
      let fewer = count-consume p c.hashes c.remaining c.taken in
      let same : hashes ≡ c.hashes = ground (arith, read, c.read) in
      let had = Logins-HasSpent user.identifier p logins (record {
        kept = c.store.kept;
        hashes = c.remaining;
        loaded = c.store.loaded;
        read = cc (c.store.totp.recovery_codes, c.written);
        none_left = ground (arith, ap (count p) same, fewer, once);
      }) in
      let account : had.kept ≡ again = ground (arith, had.loaded, current) in
      let left : l.unmarshal again.totp_recovery_codes ≡ ok had.hashes =
        ap (λ (u : User). l.unmarshal u.totp_recovery_codes) (sym account) ∙ had.read in
      ground (arith, left, consume_none p had.hashes had.none_left)
