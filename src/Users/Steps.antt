-- ===== src/Users/Steps.antt =====
-- Sequences of calls of the user manager, and two invariants of the stored users.
use awg_portal.Prelude.{
  ℕ, String, Bool, true, false, ◌≡◌, refl, string_eq, Option, some, none, arith, sym,
}
use awg_portal.Errors.{ok, bind-eq-ok, wrapping, wrapping-eq-ok}
use awg_portal.Access.{Context, validate_admin_access_rights}
use awg_portal.User.{User, TimeRef}
use awg_portal.User.Password.{Bcrypt}
use awg_portal.Database.{Gorm, get_user, optional}
use awg_portal.Database.Laws.{get_user_lem}
use awg_portal.Users.{
  UsersConfig, State, Event, update, update_user, update_user_internal, create_user, register_user,
  create, remove_user, store_api, change_api, activate_api, deactivate_api, validate_api_change,
}
use awg_portal.Users.Update.{Updated, update_lem}
use awg_portal.Users.Safety.{update_user-Updated}
use awg_portal.Users.Creation.{Created, create-Created}
use awg_portal.Users.Removal.{IsRemoved, remove_user-IsRemoved, optional_loaded}

module _ (g : Gorm) (b : Bcrypt) (cfg : UsersConfig) where
  -- One successful call, made by the user of the context.
  pub data Step (ctx : Context) (w w' : State g b cfg) : Type 0 where
    updated :
        (now : ℕ) (user saved : User)
        → update_user g b cfg ctx now user w ≡ ok (saved, w')
        → Step ctx w w'
    updated_internal :
        (now : ℕ) (user saved : User)
        → update_user_internal g b cfg ctx now user w ≡ ok (saved, w')
        → Step ctx w w'
    created :
        (now : ℕ) (user saved : User)
        → create_user g b cfg ctx now user w ≡ ok (saved, w')
        → Step ctx w w'
    registered :
        (now : ℕ) (user : User) → register_user g b cfg ctx now user w ≡ ok w' → Step ctx w w'
    removed : (id : String) → remove_user g b cfg ctx id w ≡ ok w' → Step ctx w w'
    api_activated :
        (now : ℕ) (id uuid : String) (at : Option TimeRef) (saved : User)
        → activate_api g b cfg ctx now id uuid at w ≡ ok (saved, w')
        → Step ctx w w'
    api_deactivated :
        (now : ℕ) (id : String) (saved : User)
        → deactivate_api g b cfg ctx now id w ≡ ok (saved, w')
        → Step ctx w w'

  -- What a step does to the table: it edits a stored user, adds one, or removes one.
  pub data Effect (ctx : Context) (w : State g b cfg) (d : g.Db) : Type 0 where
    edit :
        (now : ℕ) (existing user : User) (keep : Bool) (saved v : User) (w' : State g b cfg)
        → Updated g b cfg ctx now existing user keep w saved w'
        → g.load w.db existing.identifier ≡ ok (some v)
        → v.password ≡ existing.password
        → v.is_admin ≡ existing.is_admin
        → w'.db ≡ d
        → Effect ctx w d
    add :
        (now : ℕ) (user saved : User) (w' : State g b cfg)
        → Created g b cfg ctx now user w saved w'
        → w'.db ≡ d
        → Effect ctx w d
    drop :
        (id : String) (w' : State g b cfg)
        → IsRemoved g b cfg ctx id w w'
        → w'.db ≡ d
        → Effect ctx w d

  store_api-Effect :
      (ctx : Context) (now : ℕ) (id token : String) (at : Option TimeRef) (event : User → Event)
      (w : State g b cfg) (found : Option User) (saved : User) (w' : State g b cfg)
      → optional "unable to find user" (get_user g w.db id) ≡ ok found
      → store_api g b cfg ctx now token at event w found ≡ ok (saved, w')
      → Effect ctx w w'.db
  unfolding store_api
  store_api-Effect ctx now id token at event w none saved w' looked h = cc
  store_api-Effect ctx now id token at event w (some u) saved w' looked h =
      let u' : User = record u { api_token = token; api_token_created = at } in
      let loaded = optional_loaded g b cfg w.db id _ u looked in
      let here = g.load-identifier w.db id u loaded in
      let ((kept, w₁), made, h₁) = bind-eq-ok (update g b cfg ctx now u' u' true w) _ h in
      let up = update_lem g b cfg ctx now u' u' true w kept w₁ refl made in
      edit now u' u' true kept u w₁ up (cc (loaded, here)) refl refl (ground arith)

  change_api-Effect :
      (ctx : Context) (now : ℕ) (id token : String) (at : Option TimeRef) (event : User → Event)
      (w : State g b cfg) (saved : User) (w' : State g b cfg)
      → change_api g b cfg ctx now id token at event w ≡ ok (saved, w')
      → Effect ctx w w'.db
  unfolding change_api
  change_api-Effect ctx now id token at event w saved w' h =
      let (found, looked, h₁) = bind-eq-ok (optional _ (get_user g w.db id)) _ h in
      let (t, allowed, h₂) = bind-eq-ok (validate_api_change cfg ctx found) _ h₁ in
      store_api-Effect ctx now id token at event w found saved w' looked h₂

  pub Step-Effect : (ctx : Context) (w w' : State g b cfg) → Step ctx w w' → Effect ctx w w'.db
  unfolding update_user_internal create_user register_user activate_api deactivate_api
  Step-Effect ctx w w' (updated now user saved h) =
      let (existing, loaded, up) = update_user-Updated g b cfg ctx now user w saved w' h in
      let here = g.load-identifier w.db user.identifier existing loaded in
      edit now existing _ true saved existing w' up (cc (loaded, here)) refl refl refl
  Step-Effect ctx w w' (updated_internal now user saved h) =
      let (existing, found, h₁) = bind-eq-ok (wrapping _ (get_user g w.db user.identifier)) _ h in
      let loaded = get_user_lem g w.db user.identifier existing (wrapping-eq-ok _ _ found) in
      let here = g.load-identifier w.db user.identifier existing loaded in
      let up = update_lem g b cfg ctx now existing user false w saved w' (sym here) h₁ in
      edit now existing user false saved existing w' up (cc (loaded, here)) refl refl refl
  Step-Effect ctx w w' (created now user saved h) =
      let (t, admin, h') = bind-eq-ok (validate_admin_access_rights ctx) _ h in
      add now user saved w' (create-Created g b cfg ctx now user w saved w' h') refl
  Step-Effect ctx w w' (registered now user h) =
      let (t, admin, h₁) = bind-eq-ok (validate_admin_access_rights ctx) _ h in
      let ((saved, w₁), made, h₂) = bind-eq-ok (create g b cfg ctx now user w) _ h₁ in
      add now user saved w₁ (create-Created g b cfg ctx now user w saved w₁ made) (ground arith)
  Step-Effect ctx w w' (removed id h) =
      drop id w' (remove_user-IsRemoved g b cfg ctx id w w' h) refl
  Step-Effect ctx w w' (api_activated now id uuid at saved h) =
      change_api-Effect ctx now id uuid at _ w saved w' h
  Step-Effect ctx w w' (api_deactivated now id saved h) =
      change_api-Effect ctx now id "" none _ w saved w' h
