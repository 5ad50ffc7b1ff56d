-- ===== src/Totp/Logins.antt =====
-- Sequences of logins with a second factor: `ValidateCode` of internal/app/auth/auth_totp.go, each time on
-- the user as the store has it then. Requests that load a user before another one has stored it are not
-- such a sequence.
use awg_portal.Prelude.{
  ℕ, ◌≤◌, pos, ◌<ℤ◌, String, Bool, true, false, not, ◌≡◌, ◌⊎◌, inl, inr, some, List, [], ◌∷◌, ◌==◌,
  string_eq, arith, Bool-cases, sym, subst,
}
use awg_portal.Errors.{ok, bind-eq-ok, guard}
use awg_portal.Access.{Context}
use awg_portal.User.{User}
use awg_portal.Text.{trim_space, is_nil}
use awg_portal.Totp.Stored.{IsStored}
use awg_portal.Totp.Recovery.{count, Consumed, consume_recovery_code-Consumed}
use awg_portal.Totp.Replay.{validate_code-Accepted}
use awg_portal.Totp.{
  TotpLibraries, TotpUserManager, Code, consume, consume_recovery_code, normalize_recovery_code,
  is_recovery_code_format, validate_code,
}

count-consume-le :
    (q p : String → Bool) (matched : Bool) (hs : List String)
    → count q ((consume p matched hs).0) ≤ count q hs
unfolding consume
count-consume-le q p matched [] = omega arith
count-consume-le q p matched (h ∷ hs) =
    ground (arith, count-consume-le q p matched hs, count-consume-le q p true hs)

module _ (l : TotpLibraries) (m : TotpUserManager) where
  open m use {World, load}

  -- No hash of the second list is new.
  abbrev pub AreLeft : String → String → Type 0
  AreLeft old new =
      (old ≡ new)
      ⊎ ((hashes : List String) × (remaining : List String) × (l.unmarshal old ≡ ok hashes)
          × (l.unmarshal new ≡ ok remaining)
          × ((q : String → Bool) → count q remaining ≤ count q hashes))

  -- What any accepted code leaves behind.
  pub record LoggedIn (user : User) (w : World) (saved : User) (w' : World) : Type 0 where
    pub store : IsStored m saved user.identifier w w'
    pub step :
        (saved.totp_last_used_step ≡ user.totp_last_used_step)
        ⊎ ((user.totp_last_used_step ≡ pos 0)
            ⊎ (user.totp_last_used_step <ℤ saved.totp_last_used_step))
    pub codes : AreLeft user.totp_recovery_codes saved.totp_recovery_codes

  Consumed-LoggedIn :
      (user : User) (code : Code) (w : World) (saved : User) (w' : World)
      → Consumed l m user code w saved w'
      → LoggedIn user w saved w'
  Consumed-LoggedIn user code w saved w' c =
      let p : String → Bool = (λ h. l.compare h (normalize_recovery_code l code)) in
      record {
        store = c.store;
        step = inl c.same_step;
        codes = inr (
          c.hashes,
          c.remaining,
          c.read,
          c.written,
          λ q.
              subst (λ (x : List String × Bool). count q x.0 ≤ count q c.hashes) c.taken
                (count-consume-le q p false c.hashes),
        );
      }

  consumed_of_validate_code :
      (ctx : Context) (now : ℕ) (user : User) (code : Code) (w : World) (saved : User) (w' : World)
      → is_recovery_code_format (trim_space code) ≡ true
      → validate_code l m ctx now user code w ≡ ok (saved, w')
      → consume_recovery_code l m ctx now user (trim_space code) w ≡ ok (saved, w')
  unfolding validate_code
  consumed_of_validate_code ctx now user code w saved w' form h =
      let (_, enabled, h₁) = bind-eq-ok (guard user.totp_enabled _) _ h in
      let (_, secret, h₂) = bind-eq-ok (guard (not (user.totp_secret == "")) _) _ h₁ in
      let (_, text, h₃) = bind-eq-ok (guard (not (is_nil (trim_space code))) _) _ h₂ in
      ground (arith, form, h₃)

  pub validate_code-LoggedIn :
      (ctx : Context) (now : ℕ) (user : User) (code : Code) (w : World) (saved : User) (w' : World)
      → validate_code l m ctx now user code w ≡ ok (saved, w')
      → LoggedIn user w saved w'
  validate_code-LoggedIn ctx now user code w saved w' h =
      elim (Bool-cases (is_recovery_code_format (trim_space code))) [
        | inl form ↦ Consumed-LoggedIn user (trim_space code) w saved w' (
            consume_recovery_code-Consumed l m ctx now user (trim_space code) w saved w'
              (consumed_of_validate_code ctx now user code w saved w' form h))
        | inr form ↦
            let a = validate_code-Accepted l m ctx now user code w saved w' form h in
            record { store = a.store; step = inr a.fresh; codes = inl (sym a.same_codes) }
      ]

  -- Any number of accepted codes, of any users and at any times.
  pub data Logins (w : World) : World → Type 0 where
    here : Logins w w
    after :
        {u v : World}
        → Logins w u
        → (ctx : Context) (now : ℕ) (user saved : User) (code : Code)
        → load u user.identifier ≡ ok (some user)
        → validate_code l m ctx now user code u ≡ ok (saved, v)
        → Logins w v
