-- ===== src/Users/Safety.antt =====
-- What a user without admin rights can do through `UpdateUser`, and what an update does to a password.
use awg_portal.Prelude.{
  ℕ, String, Bool, true, false, ◌≡◌, refl, ◌==◌, string_eq, some, arith, sym, subst, ap, ◌∙◌,
  eq_iff,
}
use awg_portal.Errors.{ok, bind-eq-ok, wrapping, wrapping-eq-ok}
use awg_portal.Access.{Context, ContextUserInfo, get_user_info, validate_user_access_rights}
use awg_portal.User.{User, copy_calculated_attributes}
use awg_portal.User.Password.{Bcrypt}
use awg_portal.Database.{Gorm, stored, stamped, get_user}
use awg_portal.Database.Laws.{IsFetched-loaded, get_user_lem}
use awg_portal.Users.{UsersConfig, State, with_password, update_user}
use awg_portal.Users.Validation.{
  IsOwnEdit, validate_admin_modifications-IsOwnEdit, validate_modifications-IsAccepted,
}
use awg_portal.Users.Update.{Updated, update_lem}

-- The user that `update` saves, in terms of what it was given.
abbrev pub saved_as : ContextUserInfo → ℕ → User → User → String → User → Bool → User
saved_as ui now existing user hashed old keep =
    stamped ui now (copy_calculated_attributes (with_password existing user hashed) old keep)

IsOwnEdit-saved :
    (ctx : Context) (ui : ContextUserInfo) (now : ℕ) (existing user old : User) (hashed : String)
    (keep : Bool)
    → IsOwnEdit ctx existing user
    → IsOwnEdit ctx existing (saved_as ui now existing user hashed old keep)
unfolding copy_calculated_attributes
IsOwnEdit-saved ctx ui now existing user old hashed keep e = ground arith

-- The ways to log in that `CopyCalculatedAttributes` takes from the stored user.
abbrev pub KeepsLogins : User → User → Type 0
KeepsLogins old saved =
    (saved.authentications ≡ old.authentications)
    × (saved.web_authn_id ≡ old.web_authn_id)
    × (saved.web_authn_credential_list ≡ old.web_authn_credential_list)

KeepsLogins-saved :
    (ui : ContextUserInfo) (now : ℕ) (existing user old : User) (hashed : String)
    → KeepsLogins old (saved_as ui now existing user hashed old true)
unfolding copy_calculated_attributes
KeepsLogins-saved ui now existing user old hashed = (refl, refl, refl)

pub identifier-saved :
    (ui : ContextUserInfo) (now : ℕ) (existing user old : User) (hashed : String) (keep : Bool)
    → (saved_as ui now existing user hashed old keep).identifier ≡ user.identifier
unfolding copy_calculated_attributes
identifier-saved ui now existing user old hashed keep = ground arith

pub identifier-copy_calculated :
    (user old : User) (keep : Bool)
    → (copy_calculated_attributes user old keep).identifier ≡ user.identifier
unfolding copy_calculated_attributes
identifier-copy_calculated user old keep = ground arith

module _ (g : Gorm) (b : Bcrypt) (cfg : UsersConfig) where
  -- What a successful `UpdateUser` of a user without admin rights has done.
  pub record IsConfined (ctx : Context) (w : State g b cfg) (saved : User) (w' : State g b cfg)
      : Type 0 where
    pub old : User
    pub before : g.load w.db saved.identifier ≡ ok (some old)
    pub edit : IsOwnEdit ctx old saved
    pub logins : KeepsLogins old saved
    pub after : g.load w'.db saved.identifier ≡ ok (some (stored saved))
    pub others : (k : String) → (saved.identifier == k) ≡ false → g.load w'.db k ≡ g.load w.db k

  pub update_user-Updated :
      (ctx : Context) (now : ℕ) (user : User) (w : State g b cfg) (saved : User)
      (w' : State g b cfg)
      → update_user g b cfg ctx now user w ≡ ok (saved, w')
      → (existing : User) × (g.load w.db user.identifier ≡ ok (some existing))
        × Updated g b cfg ctx now existing
            (copy_calculated_attributes user existing true)
            true
            w
            saved
            w'
  unfolding update_user
  update_user-Updated ctx now user w saved w' h =
      let (t, allowed, h₁) = bind-eq-ok (validate_user_access_rights ctx user.identifier) _ h in
      let (existing, found, h₂) = bind-eq-ok (wrapping _ (get_user g w.db user.identifier)) _ h₁ in
      let loaded = get_user_lem g w.db user.identifier existing (wrapping-eq-ok _ _ found) in
      let same = g.load-identifier w.db user.identifier existing loaded in
      (
        existing,
        loaded,
        update_lem g b cfg ctx now existing (copy_calculated_attributes user existing true) true w
            saved w' (identifier-copy_calculated user existing true ∙ sym same) h₂,
      )

  -- A user without admin rights can change only its own record through `UpdateUser`, and has no admin
  -- rights in it afterwards. Its lock and disabled state with their reasons, its notes, the flag that local
  -- changes persist, its authentications and its passkeys stay as they were; other fields may change. A later read finds what was saved, and every other record is untouched.
  pub update_user-IsConfined :
      (ctx : Context) (now : ℕ) (user : User) (w : State g b cfg) (saved : User)
      (w' : State g b cfg)
      → (get_user_info ctx).is_admin ≡ false
      → update_user g b cfg ctx now user w ≡ ok (saved, w')
      → IsConfined ctx w saved w'
  update_user-IsConfined ctx now user w saved w' no_admin h =
      let (existing, loaded, up) = update_user-Updated ctx now user w saved w' h in
      let ui = get_user_info ctx in
      let given = copy_calculated_attributes user existing true in
      let same = g.load-identifier w.db user.identifier existing loaded in
      let here : saved.identifier ≡ user.identifier =
        ap (λ (u : User). u.identifier) up.result
        ∙ identifier-saved ui now existing given up.old up.hashed true
        ∙ identifier-copy_calculated user existing true in
      let old_loaded : g.load w.db existing.identifier ≡ ok (some existing) = cc (loaded, same) in
      let old_same =
        IsFetched-loaded g ui now w.db existing.identifier up.old existing up.fetched old_loaded in
      let checks = validate_modifications-IsAccepted cfg ctx existing given up.accepted in
      let own =
        validate_admin_modifications-IsOwnEdit ctx existing given no_admin checks.admin_checks in
      record {
        old = existing;
        before = cc (loaded, here);
        edit =
            subst (IsOwnEdit ctx existing) (sym up.result)
              (IsOwnEdit-saved ctx ui now existing given up.old up.hashed true own);
        logins = subst (KeepsLogins existing) (sym up.result) (
            subst (λ o. KeepsLogins o (saved_as ui now existing given up.hashed up.old true))
              old_same (KeepsLogins-saved ui now existing given up.old up.hashed));
        after =
            ground (arith, up.reads saved.identifier, eq_iff existing.identifier saved.identifier);
        others = λ k apart.
            ground (arith, up.reads k, eq_iff existing.identifier k, eq_iff saved.identifier k);
      }
