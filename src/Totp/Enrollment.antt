-- ===== src/Totp/Enrollment.antt =====
-- internal/app/auth/auth_totp.go: `ConfirmEnrollment` and `Disable`.
use awg_portal.Prelude.{
  ℕ, ◌==◌, string_eq, pos, String, Bool, true, false, not, List, [], ◌∷◌, ◌≡◌, ◌≢◌, inl, inr, subst,
  arith, eq_iff, length, All, Any, Bool-cases,
}
use awg_portal.Errors.{Result, ok, err, plain, bind-eq-ok, wrapping, wrapping-eq-ok, guard}
use awg_portal.Access.{Context}
use awg_portal.User.{User, can_use_totp}
use awg_portal.Totp.Stored.{IsStored, update-IsStored}
use awg_portal.Totp.{
  Code, TotpLibraries, TotpUserManager, consume, normalize_recovery_code, hash_recovery_codes,
  generate_recovery_codes, recovery_code_count, is_recovery_code_format, confirm_enrollment,
  disable, validate_code,
}
use awg_portal.Totp.Codes.{generate_recovery_codes-is_format}
use awg_portal.Totp.Recovery.{consume-matched}

consume-matched-Any :
    (p : String → Bool) (hs : List String)
    → Any (λ h. p h ≡ true) hs
    → (consume p false hs).1 ≡ true
unfolding consume
consume-matched-Any p [] found = absurd found
consume-matched-Any p (h ∷ hs) (inl e) = ground (arith, e, consume-matched p hs)
consume-matched-Any p (h ∷ hs) (inr later) = elim (Bool-cases (p h)) [
  | inl hit ↦ ground (arith, hit, consume-matched p hs)
  | inr miss ↦ ground (arith, miss, consume-matched-Any p hs later)
]

module _ (l : TotpLibraries) where
  -- Some hash of the list belongs to the code.
  abbrev HasHash : List String → Code → Type 0
  HasHash hs c = Any (λ h. l.compare h (normalize_recovery_code l c) ≡ true) hs

  All-HasHash :
      (h : String) (hs : List String) (codes : List Code)
      → All (HasHash hs) codes
      → All (HasHash (h ∷ hs)) codes
  All-HasHash h hs [] all = tt
  All-HasHash h hs (c ∷ cs) all = (inr all.0, All-HasHash h hs cs all.1)

  hash_recovery_codes-HasHash :
      (codes : List Code) (hashes : List String)
      → hash_recovery_codes l codes ≡ ok hashes
      → All (HasHash hashes) codes
  unfolding hash_recovery_codes
  hash_recovery_codes-HasHash [] hashes e = tt
  hash_recovery_codes-HasHash (c ∷ cs) hashes e =
      let (h, hashed, e₁) = bind-eq-ok (l.hash (normalize_recovery_code l c)) _ e in
      let (hs, rest, e₂) = bind-eq-ok (hash_recovery_codes l cs) _ e₁ in
      let here = l.compare-hash (normalize_recovery_code l c) h hashed in
      let same : h ∷ hs ≡ hashes = ground (arith, e₂) in
      subst (λ t. All (HasHash t) (c ∷ cs)) same
        (inl here, All-HasHash h hs cs (hash_recovery_codes-HasHash cs hs rest))

  -- A code that would be accepted from a list of hashes.
  abbrev pub IsRedeemable : List String → Code → Type 0
  IsRedeemable hashes c =
      (is_recovery_code_format c ≡ true)
      × ((consume (λ h. l.compare h (normalize_recovery_code l c)) false hashes).1 ≡ true)

  All-IsRedeemable :
      (hashes : List String) (codes : List Code)
      → All (λ c. is_recovery_code_format c ≡ true) codes
      → All (HasHash hashes) codes
      → All (IsRedeemable hashes) codes
  All-IsRedeemable hashes [] a b = tt
  All-IsRedeemable hashes (c ∷ cs) a b =
      ((a.0, consume-matched-Any _ hashes b.0), All-IsRedeemable hashes cs a.1 b.1)

  module _ (m : TotpUserManager) where
    open m use {World}

    pub record Enrolled (now : ℕ) (user : User) (secret : String) (code : Code) (w : World)
        (codes : List Code) (saved : User) (w' : World) : Type 0 where
      pub eligible : can_use_totp user ≡ true
      pub has_secret : secret ≢ ""
      pub valid : l.validate now code secret ≡ true
      pub enabled : saved.totp_enabled ≡ true
      pub secret_saved : saved.totp_secret ≡ secret
      pub unused : saved.totp_last_used_step ≡ pos 0
      pub count : length codes ≡ recovery_code_count
      pub hashes : List String
      pub stored : l.unmarshal saved.totp_recovery_codes ≡ ok hashes
      pub store : IsStored m saved user.identifier w w'
      pub redeemable : All (IsRedeemable hashes) codes

    -- A successful `ConfirmEnrollment` has checked that the user may use TOTP and that the code is valid
    -- for the secret; it has turned TOTP on with that secret and no used step, and gives eight recovery
    -- codes, each of which is recognised as one and accepted by one of the hashes. A later read finds these hashes, the
    -- secret and the rest of the user's TOTP fields.
    pub confirm_enrollment-Enrolled :
        (ctx : Context) (now : ℕ) (random : ℕ → Result (ℕ → ℕ)) (user : User) (secret : String)
        (code : Code) (w : World) (codes : List Code) (saved : User) (w' : World)
        → confirm_enrollment l m ctx now random user secret code w ≡ ok (codes, saved, w')
        → Enrolled now user secret code w codes saved w'
    unfolding confirm_enrollment
    confirm_enrollment-Enrolled ctx now random user secret code w codes saved w' h =
        let (_, eligible, h₁) = bind-eq-ok (guard (can_use_totp user) _) _ h in
        let (_, has_secret, h₂) = bind-eq-ok (guard (not (secret == "")) _) _ h₁ in
        let (_, valid, h₃) = bind-eq-ok (guard (l.validate now code secret) _) _ h₂ in
        let (cs, drawn, h₄) =
          bind-eq-ok (wrapping _ (generate_recovery_codes recovery_code_count 0 random)) _ h₃ in
        let (hashes, hashed, h₅) = bind-eq-ok (wrapping _ (hash_recovery_codes l cs)) _ h₄ in
        let (json, written, h₆) = bind-eq-ok (wrapping _ (l.marshal hashes)) _ h₅ in
        let ((u, v), updated, h₇) =
          bind-eq-ok (wrapping _ (m.update_user_internal ctx now _ w)) _ h₆ in
        let up = wrapping-eq-ok _ _ updated in
        let (count, formats) =
          generate_recovery_codes-is_format recovery_code_count 0 random cs
            (wrapping-eq-ok _ _ drawn) in
        let same : cs ≡ codes = ground (arith, h₇) in
        let same_user : u ≡ saved = ground (arith, h₇) in
        let same_world : v ≡ w' = ground (arith, h₇) in
        record {
          eligible = ground (arith, eligible);
          has_secret = ground (arith, has_secret, eq_iff secret "");
          valid = ground (arith, valid);
          enabled = cc (same_user, (m.update-HasTotpOf ctx now _ u w v up).enabled);
          secret_saved = cc (same_user, (m.update-HasTotpOf ctx now _ u w v up).secret);
          unused = cc (same_user, (m.update-HasTotpOf ctx now _ u w v up).last_used_step);
          count = cc (same, count);
          hashes = hashes;
          stored = cc (
            same_user,
            (m.update-HasTotpOf ctx now _ u w v up).recovery_codes,
            l.unmarshal-marshal hashes json (wrapping-eq-ok _ _ written),
          );
          store =
              subst (λ x. IsStored m x user.identifier w w') same_user
                (subst (λ x. IsStored m u user.identifier w x) same_world
                  (update-IsStored m ctx now
                    (record user {
                      totp_secret = secret;
                      totp_recovery_codes = json;
                      totp_last_used_step = pos 0;
                      totp_enabled = true;
                    })
                    u w v up));
          redeemable =
              subst (λ t. All (IsRedeemable hashes) t) same
                (All-IsRedeemable hashes cs formats
                  (hash_recovery_codes-HasHash cs hashes (wrapping-eq-ok _ _ hashed)));
        }

    -- A successful `Disable` wipes the secret, the recovery codes and the last used step, and every code
    -- is refused from then on because TOTP is off.
    pub validate_code-disable :
        (ctx : Context) (now : ℕ) (user : User) (w : World) (saved : User) (w' : World)
        (ctx' : Context) (later : ℕ) (code : Code) (w₁ : World)
        → disable l m ctx now user w ≡ ok (saved, w')
        → (saved.totp_secret ≡ "")
          × (saved.totp_recovery_codes ≡ "")
          × (saved.totp_last_used_step ≡ pos 0)
          × (validate_code l m ctx' later saved code w₁
              ≡ err (plain "totp is not enabled for this user"))
    unfolding disable validate_code
    validate_code-disable ctx now user w saved w' ctx' later code w₁ h =
        let up = wrapping-eq-ok _ _ h in
        let off = (m.update-HasTotpOf ctx now _ saved w w' up).enabled in
        (
          (m.update-HasTotpOf ctx now _ saved w w' up).secret,
          (m.update-HasTotpOf ctx now _ saved w w' up).recovery_codes,
          (m.update-HasTotpOf ctx now _ saved w w' up).last_used_step,
          ground (arith, off),
        )
