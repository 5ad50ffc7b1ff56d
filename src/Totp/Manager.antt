-- ===== src/Totp/Manager.antt =====
-- internal/app/users/user_manager.go: the user manager as the `TotpUserManager` of the authenticator.
use awg_portal.Prelude.{
  ℕ, String, Bool, false, ◌≡◌, ap, sym, subst, ◌∙◌, arith, some, ◌==◌, string_eq, eq_refl,
  if◌then◌else◌,
}
use awg_portal.Errors.{ok, bind-eq-ok, wrapping, wrapping-eq-ok}
use awg_portal.Access.{Context}
use awg_portal.User.{User, copy_calculated_attributes}
use awg_portal.User.Password.{Bcrypt}
use awg_portal.Database.{Gorm, get_user, stored}
use awg_portal.Database.Laws.{get_user_lem}
use awg_portal.Users.{UsersConfig, State, update_user_internal, with_password}
use awg_portal.Users.Update.{update_lem}
use awg_portal.Totp.{TotpUserManager, HasTotpOf}

HasTotpOf-copy :
    (user old : User) (keep : Bool) → HasTotpOf user (copy_calculated_attributes user old keep)
unfolding copy_calculated_attributes
HasTotpOf-copy user old keep = ground arith

module _ (g : Gorm) (b : Bcrypt) (cfg : UsersConfig) where
  pub update_user_internal-HasTotpOf :
      (ctx : Context) (now : ℕ) (user saved : User) (w w' : State g b cfg)
      → update_user_internal g b cfg ctx now user w ≡ ok (saved, w')
      → HasTotpOf user saved
  unfolding update_user_internal
  update_user_internal-HasTotpOf ctx now user saved w w' h =
      let (existing, found, h₁) = bind-eq-ok (wrapping _ (get_user g w.db user.identifier)) _ h in
      let loaded = get_user_lem g w.db user.identifier existing (wrapping-eq-ok _ _ found) in
      let same = g.load-identifier w.db user.identifier existing loaded in
      let u = update_lem g b cfg ctx now existing user false w saved w' (sym same) h₁ in
      let copied = HasTotpOf-copy (with_password existing user u.hashed) u.old false in
      record {
        enabled = ap (λ u. u.totp_enabled) u.result ∙ copied.enabled;
        secret = ap (λ u. u.totp_secret) u.result ∙ copied.secret;
        recovery_codes = ap (λ u. u.totp_recovery_codes) u.result ∙ copied.recovery_codes;
        last_used_step = ap (λ u. u.totp_last_used_step) u.result ∙ copied.last_used_step;
      }

  pub HasTotpOf-stored : (u saved : User) → HasTotpOf u saved → HasTotpOf u (stored saved)
  HasTotpOf-stored u saved h = record {
    enabled = h.enabled;
    secret = h.secret;
    recovery_codes = h.recovery_codes;
    last_used_step = h.last_used_step;
  }

  pub update_user_internal-reads :
      (ctx : Context) (now : ℕ) (user saved : User) (w w' : State g b cfg)
      → update_user_internal g b cfg ctx now user w ≡ ok (saved, w')
      → (k : String)
      → g.load w'.db k ≡ (if user.identifier == k then ok (some (stored saved)) else g.load w.db k)
  unfolding update_user_internal
  update_user_internal-reads ctx now user saved w w' h k =
      let (existing, found, h₁) = bind-eq-ok (wrapping _ (get_user g w.db user.identifier)) _ h in
      let loaded = get_user_lem g w.db user.identifier existing (wrapping-eq-ok _ _ found) in
      let same = g.load-identifier w.db user.identifier existing loaded in
      let u = update_lem g b cfg ctx now existing user false w saved w' (sym same) h₁ in
      subst (λ id. g.load w'.db k ≡ (if id == k then ok (some (stored saved)) else g.load w.db k))
        same (u.reads k)

  abbrev pub user_manager : TotpUserManager
  user_manager = record {
    World = State g b cfg;
    load = λ w. g.load w.db;
    update_user_internal = update_user_internal g b cfg;
    update-HasTotpOf = update_user_internal-HasTotpOf;
    load-update = λ ctx now u saved w w' h. (
      stored saved,
      ground (
        arith,
        update_user_internal-reads ctx now u saved w w' h u.identifier,
        eq_refl u.identifier,
      ),
      HasTotpOf-stored u saved (update_user_internal-HasTotpOf ctx now u saved w w' h),
    );
    load-update_other = λ ctx now u saved w w' k h apart.
        ground (arith, update_user_internal-reads ctx now u saved w w' h k, apart);
  }
