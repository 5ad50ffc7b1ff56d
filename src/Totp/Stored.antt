-- ===== src/Totp/Stored.antt =====
-- What an update by the authenticator of internal/app/auth/auth_totp.go leaves in the store of users.
use awg_portal.Prelude.{ℕ, String, ◌≡◌, false, some, ◌==◌, string_eq, sym, ◌∙◌}
use awg_portal.Errors.{ok}
use awg_portal.Access.{Context}
use awg_portal.User.{User}
use awg_portal.Totp.{TotpUserManager, HasTotpOf}

HasTotpOf-trans :
    (u saved kept : User) → HasTotpOf u saved → HasTotpOf u kept → HasTotpOf saved kept
HasTotpOf-trans u saved kept a b = record {
  enabled = b.enabled ∙ sym a.enabled;
  secret = b.secret ∙ sym a.secret;
  recovery_codes = b.recovery_codes ∙ sym a.recovery_codes;
  last_used_step = b.last_used_step ∙ sym a.last_used_step;
}

module _ (m : TotpUserManager) where
  open m use {World, load, update_user_internal}

  -- A later read of the user `id` finds the TOTP fields of `saved`, and all other users as before.
  pub record IsStored (saved : User) (id : String) (w w' : World) : Type 0 where
    pub kept : User
    pub loaded : load w' id ≡ ok (some kept)
    pub totp : HasTotpOf saved kept
    pub others : (k : String) → (id == k) ≡ false → load w' k ≡ load w k

  pub update-IsStored :
      (ctx : Context) (now : ℕ) (u saved : User) (w w' : World)
      → update_user_internal ctx now u w ≡ ok (saved, w')
      → IsStored saved u.identifier w w'
  update-IsStored ctx now u saved w w' h =
      let (v, found, fields) = m.load-update ctx now u saved w w' h in
      record {
        kept = v;
        loaded = found;
        totp = HasTotpOf-trans u saved v (m.update-HasTotpOf ctx now u saved w w' h) fields;
        others = λ k apart. m.load-update_other ctx now u saved w w' k h apart;
      }
