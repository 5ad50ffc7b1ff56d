-- ===== src/Users/Update.antt =====
-- `update` of the user manager in one statement, for the proofs that use it shut.
use awg_portal.Prelude.{
  ℕ, String, Bool, ◌≡◌, ◌==◌, string_eq, if◌then◌else◌, some, ◌++◌, ◌∷◌, arith,
}
use awg_portal.Errors.{ok, bind-eq-ok, wrapping, wrapping-eq-ok}
use awg_portal.Access.{Context, get_user_info}
use awg_portal.User.{User, copy_calculated_attributes, is_disabled}
use awg_portal.User.Password.{Bcrypt, hash_text}
use awg_portal.Database.{Gorm, stored, stamped, save_user}
use awg_portal.Database.Laws.{IsFetched, save_user_lem}
use awg_portal.Users.{
  UsersConfig, State, with_password, validate_modifications, update, switched, user_updated,
}

identifier-copy :
    (user old : User) (keep : Bool)
    → (copy_calculated_attributes user old keep).identifier ≡ user.identifier
unfolding copy_calculated_attributes
identifier-copy user old keep = ground arith

module _ (g : Gorm) (b : Bcrypt) (cfg : UsersConfig) where
  -- A successful update: the checks passed, and the given user, with its password hashed or kept and
  -- its calculated attributes those of the stored user, is saved in place of `existing`.
  pub record Updated (ctx : Context) (now : ℕ) (existing user : User) (keep : Bool)
      (w : State g b cfg) (saved : User) (w' : State g b cfg) : Type 0 where
    pub old : User
    pub hashed : String
    pub accepted : validate_modifications cfg ctx existing user ≡ ok tt
    pub hash : hash_text b user.password ≡ ok hashed
    pub fetched : IsFetched g (get_user_info ctx) now w.db existing.identifier old
    pub result :
        saved
        ≡ stamped
            (get_user_info ctx)
            now
            (copy_calculated_attributes (with_password existing user hashed) old keep)
    pub reads :
        (k : String)
        → g.load w'.db k
          ≡ (if existing.identifier == k then ok (some (stored saved)) else g.load w.db k)
    pub events :
        w'.events
        ≡ w.events ++ user_updated saved ∷ switched (is_disabled existing) (is_disabled saved) saved

  pub update_lem :
      (ctx : Context) (now : ℕ) (existing user : User) (keep : Bool) (w : State g b cfg)
      (saved : User) (w' : State g b cfg)
      → user.identifier ≡ existing.identifier
      → update g b cfg ctx now existing user keep w ≡ ok (saved, w')
      → Updated ctx now existing user keep w saved w'
  unfolding update
  update_lem ctx now existing user keep w saved w' same h =
      let (t, accepted, h₁) =
        bind-eq-ok (wrapping _ (validate_modifications cfg ctx existing user)) _ h in
      let (hashed, hash, h₂) = bind-eq-ok (hash_text b user.password) _ h₁ in
      let ((kept, d), written, h₃) =
        bind-eq-ok
          (wrapping _ (
            save_user g ctx now existing.identifier
              (λ u. ok (copy_calculated_attributes (with_password existing user hashed) u keep))
              w.db))
          _ h₂ in
      let (old, new, fetched, copied, stamp, reads) =
        save_user_lem g ctx now existing.identifier _ w.db d kept
          (λ o n e c. ground (arith, identifier-copy (with_password existing user hashed) o keep))
          (wrapping-eq-ok _ _ written) in
      let same_user : kept ≡ saved = ground arith in
      let same_db : d ≡ w'.db = ground arith in
      record {
        old = old;
        hashed = hashed;
        accepted = wrapping-eq-ok _ _ accepted;
        hash = hash;
        fetched = fetched;
        result = cc (stamp, copied, same_user);
        reads = λ k. cc (reads k, same_user, same_db);
        events = ground arith;
      }
