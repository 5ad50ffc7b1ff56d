-- ===== src/Users/Creation.antt =====
-- Creating users: `create`, `CreateUser` and the checks of `validateCreation`.
use awg_portal.Prelude.{
  ℕ, String, true, false, ◌≡◌, refl, ◌≢◌, ◌==◌, string_eq, if◌then◌else◌, Option, some, none, arith,
  sym, subst, eq_refl, contains_func, eq_iff, ◌++◌, ◌∷◌, [], not, length, List,
}
use awg_portal.Errors.{ok, bind-eq-ok, wrapping, wrapping-eq-ok, guard}
use awg_portal.Access.{Context, get_user_info, validate_admin_access_rights}
use awg_portal.User.{
  User, UserAuthentication, copy_calculated_attributes, has_weak_password, has_database_source,
  is_reserved_user_identifier, user_source_database,
}
use awg_portal.User.Password.{Bcrypt, IsHashed, hash_text, hash_text-IsHashed}
use awg_portal.Database.{Gorm, stored, stamped, get_user, save_user, optional, user_defaults}
use awg_portal.Database.Laws.{IsFetched-missing, save_user_lem}
use awg_portal.Users.{
  UsersConfig, State, user_created, with_default_authentication, validate_creation, create,
  create_user, is_some, validate_authentications,
}

-- What `validateCreation` asks of a user.
pub record IsCreatable (cfg : UsersConfig) (ctx : Context) (new : User) : Type 0 where
  pub by_admin : (get_user_info ctx).is_admin ≡ true
  pub named : new.identifier ≢ ""
  pub unreserved : is_reserved_user_identifier new.identifier ≡ false
  pub authenticated : length new.authentications ≡ 1
  pub has_password : has_database_source new ≡ true → new.password ≢ ""
  pub strong : has_weak_password new cfg.min_password_length ≡ ok tt

validate_authentications_lem :
    (ctx : Context) (new : User) (l : List UserAuthentication)
    → validate_authentications ctx new l ≡ ok tt
    → (length l ≡ 1)
      × (contains_func (λ e. e.source == user_source_database) l ≡ true → new.password ≢ "")
unfolding contains_func
validate_authentications_lem ctx new [] h = cc
validate_authentications_lem ctx new (a ∷ []) h = (refl, ground (arith, eq_iff new.password ""))
validate_authentications_lem ctx new (a ∷ c ∷ rest) h = cc

validate_creation-IsCreatable :
    (cfg : UsersConfig) (ctx : Context) (new : User)
    → validate_creation cfg ctx new ≡ ok tt
    → IsCreatable cfg ctx new
unfolding validate_creation
validate_creation-IsCreatable cfg ctx new h =
    let (t₁, a, h₁) = bind-eq-ok (guard (get_user_info ctx).is_admin _) _ h in
    let (t₂, n, h₂) = bind-eq-ok (guard (not (new.identifier == "")) _) _ h₁ in
    let (t₃, r, h₃) =
      bind-eq-ok (guard (not (is_reserved_user_identifier new.identifier)) _) _ h₂ in
    let (t₄, l, h₄) = bind-eq-ok (validate_authentications ctx new new.authentications) _ h₃ in
    record {
      by_admin = ground arith;
      named = ground (arith, eq_iff new.identifier "");
      unreserved = ground arith;
      authenticated = (validate_authentications_lem ctx new new.authentications l).0;
      has_password =
          unfold has_database_source in
          (validate_authentications_lem ctx new new.authentications l).1;
      strong = ground arith;
    }

identifier-with_default_authentication :
    (ctx : Context) (now : ℕ) (user : User)
    → (with_default_authentication ctx now user).identifier ≡ user.identifier
identifier-with_default_authentication ctx now user = ground arith

identifier-created :
    (user old : User) (p : String)
    → (copy_calculated_attributes (record user { password = p }) old false).identifier
      ≡ user.identifier
unfolding copy_calculated_attributes
identifier-created user old p = refl

password-created :
    (user old : User) (p : String)
    → (copy_calculated_attributes (record user { password = p }) old false).password ≡ p
unfolding copy_calculated_attributes
password-created user old p = refl

missing_of_optional :
    (g : Gorm) (d : g.Db) (id msg : String) (o : Option User)
    → optional msg (get_user g d id) ≡ ok o
    → is_some o ≡ false
    → (u : User) → g.load d id ≢ ok (some u)
unfolding optional get_user
missing_of_optional g d id msg o h n u l = ground arith

module _ (g : Gorm) (b : Bcrypt) (cfg : UsersConfig) where
  -- A successful creation.
  pub record Created (ctx : Context) (now : ℕ) (user : User) (w : State g b cfg) (saved : User)
      (w' : State g b cfg) : Type 0 where
    pub hashed : String
    pub checked : IsCreatable cfg ctx (with_default_authentication ctx now user)
    pub hash : hash_text b (with_default_authentication ctx now user).password ≡ ok hashed
    pub missing : g.load w.db user.identifier ≡ ok none
    pub result :
        saved
        ≡ stamped (get_user_info ctx) now (
            copy_calculated_attributes
              (record (with_default_authentication ctx now user) { password = hashed })
              (user_defaults (get_user_info ctx) now user.identifier)
              false)
    pub reads :
        (k : String)
        → g.load w'.db k
          ≡ (if user.identifier == k then ok (some (stored saved)) else g.load w.db k)
    pub events : w'.events ≡ w.events ++ user_created saved ∷ []

  pub Created-IsHashed :
      (ctx : Context) (now : ℕ) (user : User) (w : State g b cfg) (saved : User)
      (w' : State g b cfg)
      → Created ctx now user w saved w'
      → IsHashed b saved.password
  Created-IsHashed ctx now user w saved w' made =
      let (hashed, _) = hash_text-IsHashed b _ made.hashed made.hash in
      subst (λ (u : User). IsHashed b u.password) (sym made.result)
        (rw (password-created _ _ made.hashed) hashed)

  pub create-Created :
      (ctx : Context) (now : ℕ) (user : User) (w : State g b cfg) (saved : User)
      (w' : State g b cfg)
      → create g b cfg ctx now user w ≡ ok (saved, w')
      → Created ctx now user w saved w'
  unfolding create
  create-Created ctx now user w saved w' h =
      let user' = with_default_authentication ctx now user in
      let (t₁, named, h₁) = bind-eq-ok (guard (not (user.identifier == "")) _) _ h in
      let (found, looked, h₂) = bind-eq-ok (optional _ (get_user g w.db user.identifier)) _ h₁ in
      let (t₂, new, h₃) = bind-eq-ok (guard (not (is_some found)) _) _ h₂ in
      let (t₃, valid, h₄) = bind-eq-ok (wrapping _ (validate_creation cfg ctx user')) _ h₃ in
      let (hashed, hash, h₅) = bind-eq-ok (hash_text b user'.password) _ h₄ in
      let ((kept, d), written, h₆) =
        bind-eq-ok
          (wrapping _ (
            save_user g ctx now user.identifier
              (λ u. ok (copy_calculated_attributes (record user' { password = hashed }) u false))
              w.db))
          _ h₅ in
      let (old, made, fetched, copied, stamp, reads) =
        save_user_lem g ctx now user.identifier _ w.db d kept
          (λ o n e c. ground (
            arith,
            identifier-created user' o hashed,
            identifier-with_default_authentication ctx now user,
          ))
          (wrapping-eq-ok _ _ written) in
      let same_user : kept ≡ saved = ground arith in
      let same_db : d ≡ w'.db = ground arith in
      let absent = missing_of_optional g w.db user.identifier _ found looked (ground arith) in
      let (missing, fresh) =
        IsFetched-missing g (get_user_info ctx) now w.db user.identifier old fetched absent in
      record {
        hashed = hashed;
        checked = validate_creation-IsCreatable cfg ctx user' (wrapping-eq-ok _ _ valid);
        hash = hash;
        missing = missing;
        result = cc (stamp, copied, same_user, fresh);
        reads = λ k. cc (reads k, same_user, same_db);
        events = ground arith;
      }

  -- A user is created only by an admin, under an identifier that is neither empty, nor reserved, nor in
  -- use; it has exactly one authentication, and a password if that is the database. Afterwards a read
  -- finds it, with the password empty or hashed; every other record is untouched; and the one event
  -- published is that of the creation.
  pub create_user-Created :
      (ctx : Context) (now : ℕ) (user : User) (w : State g b cfg) (saved : User)
      (w' : State g b cfg)
      → create_user g b cfg ctx now user w ≡ ok (saved, w')
      → Created ctx now user w saved w'
        × IsHashed b saved.password
        × (g.load w'.db user.identifier ≡ ok (some (stored saved)))
  unfolding create_user
  create_user-Created ctx now user w saved w' h =
      let (t, admin, h') = bind-eq-ok (validate_admin_access_rights ctx) _ h in
      let made = create-Created ctx now user w saved w' h' in
      (
        made,
        Created-IsHashed ctx now user w saved w' made,
        ground (arith, made.reads user.identifier, eq_refl user.identifier),
      )
