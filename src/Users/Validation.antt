-- ===== src/Users/Validation.antt =====
-- What the checks of the user manager establish when they pass.
use awg_portal.Prelude.{true, false, ◌≡◌, string_eq, arith, eq_iff, ◌≢◌}
use awg_portal.Errors.{ok}
use awg_portal.Access.{Context, get_user_info}
use awg_portal.User.{User, same_ref, is_disabled, is_locked, can_change_password, has_weak_password}
use awg_portal.Users.{
  UsersConfig, validate_admin_modifications, validate_own_record, validate_modifications,
}

-- What a user without admin rights has not changed, and cannot have set.
pub record IsOwnEdit (ctx : Context) (old new : User) : Type 0 where
  pub own : (get_user_info ctx).id ≡ new.identifier
  pub no_admin : new.is_admin ≡ false
  pub notes : new.notes ≡ old.notes
  pub locked : same_ref old.locked new.locked ≡ true
  pub locked_reason : old.locked_reason ≡ new.locked_reason
  pub disabled : same_ref old.disabled new.disabled ≡ true
  pub disabled_reason : old.disabled_reason ≡ new.disabled_reason
  pub persist_local_changes : old.persist_local_changes ≡ new.persist_local_changes

pub validate_admin_modifications-IsOwnEdit :
    (ctx : Context) (old new : User)
    → (get_user_info ctx).is_admin ≡ false
    → validate_admin_modifications ctx old new ≡ ok tt
    → IsOwnEdit ctx old new
unfolding validate_admin_modifications
validate_admin_modifications-IsOwnEdit ctx old new a h = ground (
  arith,
  eq_iff (get_user_info ctx).id new.identifier,
  eq_iff new.notes old.notes,
  eq_iff old.locked_reason new.locked_reason,
  eq_iff old.disabled_reason new.disabled_reason,
)

-- The acting user keeps its admin rights, and is neither disabled nor locked.
pub record KeepsOwnAccess (old new : User) : Type 0 where
  pub admin : old.is_admin ≡ true → new.is_admin ≡ true
  pub enabled : is_disabled new ≡ false
  pub unlocked : is_locked new ≡ false

pub validate_own_record-KeepsOwnAccess :
    (ctx : Context) (old new : User)
    → (get_user_info ctx).id ≡ old.identifier
    → validate_own_record ctx old new ≡ ok tt
    → KeepsOwnAccess old new
unfolding validate_own_record
validate_own_record-KeepsOwnAccess ctx old new own h =
    ground (arith, eq_iff (get_user_info ctx).id old.identifier)

-- All of `validateModifications` passed.
pub record IsAccepted (cfg : UsersConfig) (ctx : Context) (old new : User) : Type 0 where
  pub admin_checks : validate_admin_modifications ctx old new ≡ ok tt
  pub own_record : validate_own_record ctx old new ≡ ok tt
  pub strong : has_weak_password new cfg.min_password_length ≡ ok tt
  pub changeable : new.password ≢ "" → can_change_password old ≡ ok tt

pub validate_modifications-IsAccepted :
    (cfg : UsersConfig) (ctx : Context) (old new : User)
    → validate_modifications cfg ctx old new ≡ ok tt
    → IsAccepted cfg ctx old new
unfolding validate_modifications
validate_modifications-IsAccepted cfg ctx old new h = ground (arith, eq_iff new.password "")
