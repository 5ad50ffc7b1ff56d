-- ===== src/Users/Invariants.antt =====
-- Two invariants of the stored users, over every sequence of successful calls.
use awg_portal.Prelude.{
  ℕ, String, Bool, true, false, ◌≡◌, ◌==◌, string_eq, if◌then◌else◌, some, arith, eq_iff, ◌∙◌, sym,
  ap, subst, Bool-cases, inl, inr,
}
use awg_portal.Errors.{ok}
use awg_portal.Access.{Context, get_user_info}
use awg_portal.User.{User, is_set, is_disabled, is_locked, copy_calculated_attributes}
use awg_portal.User.Password.{Bcrypt, IsHashed, hash_text-IsHashed}
use awg_portal.Database.{Gorm, stored}
use awg_portal.Users.{UsersConfig, State}
use awg_portal.Users.Validation.{
  validate_modifications-IsAccepted, validate_own_record-KeepsOwnAccess,
}
use awg_portal.Users.Update.{Updated}
use awg_portal.Users.Safety.{saved_as}
use awg_portal.Users.Creation.{Created-IsHashed}
use awg_portal.Users.Steps.{Step, Effect, edit, add, drop, Step-Effect}

password-saved :
    (now : ℕ) (ctx : Context) (existing user old : User) (hashed : String) (keep : Bool)
    → (saved_as (get_user_info ctx) now existing user hashed old keep).password
      ≡ (if hashed == "" then existing.password else hashed)
unfolding copy_calculated_attributes
password-saved now ctx existing user old hashed keep = ground arith

access-saved :
    (now : ℕ) (ctx : Context) (existing user old : User) (hashed : String) (keep : Bool)
    → let saved = saved_as (get_user_info ctx) now existing user hashed old keep in
      (saved.is_admin ≡ user.is_admin)
      × (saved.disabled ≡ user.disabled)
      × (saved.locked ≡ user.locked)
unfolding copy_calculated_attributes
access-saved now ctx existing user old hashed keep = ground arith

module _ (g : Gorm) (b : Bcrypt) (cfg : UsersConfig) where
  -- Every stored password is empty or a bcrypt hash.
  pub record ArePasswordsHashed (d : g.Db) : Type 0 where
    pub at : (k : String) (u : User) → g.load d k ≡ ok (some u) → IsHashed b u.password

  Updated-IsHashed :
      (ctx : Context) (now : ℕ) (existing user : User) (keep : Bool) (w : State g b cfg)
      (saved : User) (w' : State g b cfg)
      → Updated g b cfg ctx now existing user keep w saved w'
      → IsHashed b existing.password
      → IsHashed b saved.password
  Updated-IsHashed ctx now existing user keep w saved w' up before =
      let (hashed, _) = hash_text-IsHashed b user.password up.hashed up.hash in
      let same = password-saved now ctx existing user up.old up.hashed keep in
      subst (λ (u : User). IsHashed b u.password) (sym up.result)
        (rw same (ground (arith, eq_iff up.hashed "")))

  Effect-ArePasswordsHashed :
      (ctx : Context) (w : State g b cfg) (d : g.Db)
      → Effect g b cfg ctx w d
      → ArePasswordsHashed w.db
      → ArePasswordsHashed d
  Effect-ArePasswordsHashed ctx w d (edit now existing user keep saved v w' up loaded same _ at_d)
        inv =
      let old = inv.at existing.identifier v loaded in
      let new = Updated-IsHashed ctx now existing user keep w saved w' up (rw (← same) old) in
      record { at = λ k u h. ground (arith, up.reads k, inv.at k u) }
  Effect-ArePasswordsHashed ctx w d (add now user saved w' made at_d) inv =
      let new = Created-IsHashed g b cfg ctx now user w saved w' made in
      record { at = λ k u h. ground (arith, made.reads k, inv.at k u) }
  Effect-ArePasswordsHashed ctx w d (drop id w' gone at_d) inv = record {
    at = λ k u h. ground (arith, gone.reads k, inv.at k u);
  }

  -- The acting user has an account with admin rights, neither disabled nor locked.
  pub record HasOwnAccess (ctx : Context) (d : g.Db) : Type 0 where
    pub account : User
    pub loaded : g.load d (get_user_info ctx).id ≡ ok (some account)
    pub admin : account.is_admin ≡ true
    pub enabled : is_disabled account ≡ false
    pub unlocked : is_locked account ≡ false

  HasOwnAccess-unchanged :
      (ctx : Context) (d d' : g.Db)
      → g.load d' (get_user_info ctx).id ≡ g.load d (get_user_info ctx).id
      → HasOwnAccess ctx d
      → HasOwnAccess ctx d'
  HasOwnAccess-unchanged ctx d d' same own = record {
    account = own.account;
    loaded = same ∙ own.loaded;
    admin = own.admin;
    enabled = own.enabled;
    unlocked = own.unlocked;
  }

  Updated-HasOwnAccess :
      (ctx : Context) (now : ℕ) (existing user : User) (keep : Bool) (w : State g b cfg)
      (saved : User) (w' : State g b cfg)
      → Updated g b cfg ctx now existing user keep w saved w'
      → existing.identifier ≡ (get_user_info ctx).id
      → existing.is_admin ≡ true
      → HasOwnAccess ctx w'.db
  Updated-HasOwnAccess ctx now existing user keep w saved w' up here admin =
      let checks = validate_modifications-IsAccepted cfg ctx existing user up.accepted in
      let kept =
        validate_own_record-KeepsOwnAccess ctx existing user (sym here) checks.own_record in
      let (a, d, l) = access-saved now ctx existing user up.old up.hashed keep in
      record {
        account = stored saved;
        loaded = ground (
          arith,
          up.reads (get_user_info ctx).id,
          eq_iff existing.identifier (get_user_info ctx).id,
        );
        admin = ap (λ (u : User). u.is_admin) up.result ∙ a ∙ kept.admin admin;
        enabled = ap (λ (u : User). is_disabled u) up.result ∙ ap is_set d ∙ kept.enabled;
        unlocked = ap (λ (u : User). is_locked u) up.result ∙ ap is_set l ∙ kept.unlocked;
      }

  Effect-HasOwnAccess :
      (ctx : Context) (w : State g b cfg) (d : g.Db)
      → Effect g b cfg ctx w d
      → HasOwnAccess ctx w.db
      → HasOwnAccess ctx d
  Effect-HasOwnAccess ctx w d (edit now existing user keep saved v w' up loaded _ same at_d) own =
      elim (Bool-cases (existing.identifier == (get_user_info ctx).id)) [
        | inl is_own ↦
            let here = (eq_iff existing.identifier (get_user_info ctx).id).0 is_own in
            let account : v ≡ own.account = ground (arith, loaded, own.loaded, here) in
            let admin : existing.is_admin ≡ true =
              sym same ∙ ap (λ (u : User). u.is_admin) account ∙ own.admin in
            subst (HasOwnAccess ctx) at_d
              (Updated-HasOwnAccess ctx now existing user keep w saved w' up here admin)
        | inr other ↦ subst (HasOwnAccess ctx) at_d (
            HasOwnAccess-unchanged ctx w.db w'.db (ground (arith, up.reads (get_user_info ctx).id))
              own)
      ]
  Effect-HasOwnAccess ctx w d (add now user saved w' made at_d) own =
      subst (HasOwnAccess ctx) at_d (
        HasOwnAccess-unchanged ctx w.db w'.db
          (ground (
            arith,
            made.reads (get_user_info ctx).id,
            made.missing,
            own.loaded,
            eq_iff user.identifier (get_user_info ctx).id,
          ))
          own)
  Effect-HasOwnAccess ctx w d (drop id w' gone at_d) own = subst (HasOwnAccess ctx) at_d (
      HasOwnAccess-unchanged ctx w.db w'.db
        (ground (
          arith,
          gone.reads (get_user_info ctx).id,
          gone.not_own,
          eq_iff id (get_user_info ctx).id,
        ))
        own)

  -- Any number of successful calls, each by its own caller.
  pub data Reach (w : State g b cfg) : State g b cfg → Type 0 where
    here : Reach w w
    next :
        {w₁ w₂ : State g b cfg} (ctx : Context) → Reach w w₁ → Step g b cfg ctx w₁ w₂ → Reach w w₂

  -- Any number of successful calls of one caller.
  pub data ReachBy (ctx : Context) (w : State g b cfg) : State g b cfg → Type 0 where
    here : ReachBy ctx w w
    next : {w₁ w₂ : State g b cfg} → ReachBy ctx w w₁ → Step g b cfg ctx w₁ w₂ → ReachBy ctx w w₂

  -- Whoever calls which methods with whatever users, no password is ever stored in plain text: if every
  -- stored password is empty or a hash at the start, so is every one later.
  pub Reach-ArePasswordsHashed :
      {w w' : State g b cfg} → Reach w w' → ArePasswordsHashed w.db → ArePasswordsHashed w'.db
  Reach-ArePasswordsHashed Reach.here inv = inv
  Reach-ArePasswordsHashed (Reach.next {w₁ = u} {w₂ = v} ctx r s) inv =
      Effect-ArePasswordsHashed ctx u v.db (Step-Effect g b cfg ctx u v s)
        (Reach-ArePasswordsHashed r inv)

  -- An admin whose account has admin rights and is neither disabled nor locked still has such an account
  -- after any sequence of its own calls. Whether it can still log in is not said: its password, sources and
  -- second factor may change.
  pub ReachBy-HasOwnAccess :
      (ctx : Context) {w w' : State g b cfg}
      → ReachBy ctx w w'
      → HasOwnAccess ctx w.db
      → HasOwnAccess ctx w'.db
  ReachBy-HasOwnAccess ctx ReachBy.here own = own
  ReachBy-HasOwnAccess ctx (ReachBy.next {w₁ = u} {w₂ = v} r s) own =
      Effect-HasOwnAccess ctx u v.db (Step-Effect g b cfg ctx u v s)
        (ReachBy-HasOwnAccess ctx r own)
