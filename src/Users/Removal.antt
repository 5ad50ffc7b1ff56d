-- ===== src/Users/Removal.antt =====
-- Deleting users, and what the methods do about a user that does not exist.
use awg_portal.Prelude.{
  ℕ, String, true, ◌≡◌, ◌≢◌, ◌∙◌, sym, refl, ◌==◌, string_eq, if◌then◌else◌, Option, some, none,
  arith, eq_iff, ◌++◌, ◌∷◌, [],
}
use awg_portal.Errors.{
  Error, ok, err, panic, bind-eq-ok, wrapping, wrapping-eq-ok, is, duplicate_entry, plain, join,
  sentinel,
}
use awg_portal.Access.{Context, get_user_info, validate_admin_access_rights}
use awg_portal.User.{User, delete_allowed}
use awg_portal.User.Password.{Bcrypt}
use awg_portal.Database.{Gorm, get_user, optional, delete_user}
use awg_portal.Users.{
  UsersConfig, State, user_deleted, validate_deletion, remove_user, create_user, create,
}

validate_deletion_lem :
    (ctx : Context) (u : User)
    → validate_deletion ctx (some u) ≡ ok tt
    → ((get_user_info ctx).is_admin ≡ true) × ((get_user_info ctx).id ≢ u.identifier)
unfolding validate_deletion delete_allowed
validate_deletion_lem ctx u h = ground (arith, eq_iff (get_user_info ctx).id u.identifier)

module _ (g : Gorm) (b : Bcrypt) (cfg : UsersConfig) where
  -- A successful deletion.
  pub record IsRemoved (ctx : Context) (id : String) (w w' : State g b cfg) : Type 0 where
    pub by_admin : (get_user_info ctx).is_admin ≡ true
    pub not_own : (get_user_info ctx).id ≢ id
    pub old : User
    pub before : g.load w.db id ≡ ok (some old)
    pub reads : (k : String) → g.load w'.db k ≡ (if id == k then ok none else g.load w.db k)
    pub events : w'.events ≡ w.events ++ user_deleted old ∷ []

  pub optional_loaded :
      (d : g.Db) (id msg : String) (u : User)
      → optional msg (get_user g d id) ≡ ok (some u)
      → g.load d id ≡ ok (some u)
  unfolding optional get_user
  optional_loaded d id msg u h = ground arith

  removed_reads :
      (d d' : g.Db) (id k : String)
      → delete_user g d id ≡ ok d'
      → g.load d' k ≡ (if id == k then ok none else g.load d k)
  unfolding delete_user
  removed_reads d d' id k h = g.load-delete d d' id k h

  -- Only an admin deletes a user, never itself; the user was there and is gone, every other record is
  -- untouched, and the one event published carries the deleted user.
  pub remove_user-IsRemoved :
      (ctx : Context) (id : String) (w w' : State g b cfg)
      → remove_user g b cfg ctx id w ≡ ok w'
      → IsRemoved ctx id w w'
  unfolding remove_user
  remove_user-IsRemoved ctx id w w' h =
      let (t₁, admin, h₁) = bind-eq-ok (validate_admin_access_rights ctx) _ h in
      let (found, looked, h₂) = bind-eq-ok (optional _ (get_user g w.db id)) _ h₁ in
      let (t₂, valid, h₃) = bind-eq-ok (wrapping _ (validate_deletion ctx found)) _ h₂ in
      let (d, deleted, h₄) = bind-eq-ok (wrapping _ (delete_user g w.db id)) _ h₃ in
      from found d looked (wrapping-eq-ok _ _ valid) (wrapping-eq-ok _ _ deleted) h₄
    where
      from :
          (found : Option User) (d : g.Db)
          → optional "unable to find user" (get_user g w.db id) ≡ ok found
          → validate_deletion ctx found ≡ ok tt
          → delete_user g w.db id ≡ ok d
          → elim found [
            | none ↦ panic
            | some u ↦ ok (record { db = d; events = w.events ++ user_deleted u ∷ [] })
          ]
            ≡ ok w'
          → IsRemoved ctx id w w'
      from none d looked valid deleted e = cc
      from (some u) d looked valid deleted e =
          let loaded = optional_loaded w.db id _ u looked in
          let (admin, other) = validate_deletion_lem ctx u valid in
          let same_db : d ≡ w'.db = ground arith in
          record {
            by_admin = admin;
            not_own = λ own. other (own ∙ sym (g.load-identifier w.db id u loaded));
            old = u;
            before = loaded;
            reads = λ k. cc (removed_reads w.db d id k deleted, same_db);
            events = ground arith;
          }

  -- Creating a user under an identifier in use fails with `ErrDuplicateEntry`, whoever asks as admin and
  -- whatever else is in the request.
  pub create_user_duplicate :
      (ctx : Context) (now : ℕ) (user old : User) (w : State g b cfg)
      → (get_user_info ctx).is_admin ≡ true
      → user.identifier ≢ ""
      → g.load w.db user.identifier ≡ ok (some old)
      → (e : Error) × (create_user g b cfg ctx now user w ≡ err e) × (is e duplicate_entry ≡ true)
  unfolding create_user create validate_admin_access_rights optional get_user is
  create_user_duplicate ctx now user old w admin named loaded = (
    join (plain "user already exists") (sentinel duplicate_entry),
    ground (arith, eq_iff user.identifier ""),
    refl,
  )
