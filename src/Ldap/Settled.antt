-- ===== src/Ldap/Settled.antt =====
-- The synchronisation of a user with LDAP leaves nothing to synchronise.
use awg_portal.Prelude.{
  ℕ, Bool, true, false, none, some, List, [], ◌∷◌, ◌≡◌, refl, subst, ap, ◌∙◌, arith, ◌==◌,
  string_eq, eq_refl, eq_iff, if◌then◌else◌, contains, contains_func, Bool-cases, inl, inr,
}
use awg_portal.Errors.{Result, ok, err, panic, ◌>>=◌}
use awg_portal.User.{User, UserAuthentication, authentication_eq, merge_auth_sources}
use awg_portal.User.Sources.{merge_auth_sources_lem}
use awg_portal.Ldap.{
  disabled_reason_ldap_missing, fields_changed, lacks_source, user_changed_in_ldap, carry_disabled,
  synced_user, sync_existing,
}

contains-contains_func :
    (xs : List UserAuthentication) (a : UserAuthentication)
    → contains xs a ≡ true
    → contains_func (λ e. e.source == a.source) xs ≡ true
unfolding contains contains_func
contains-contains_func [] a h = ground (arith, h)
contains-contains_func (x ∷ xs) a h = ground (
  arith,
  h,
  contains-contains_func xs a,
  authentication_eq.same_iff x a,
  eq_iff x.source a.source,
)

fields_changed-synced_user :
    (now : ℕ) (fresh user : User) → fields_changed (synced_user now fresh user) user ≡ false
unfolding fields_changed synced_user merge_auth_sources
fields_changed-synced_user now fresh user = ground (
  arith,
  eq_refl user.firstname,
  eq_refl user.lastname,
  eq_refl user.email,
  eq_refl user.phone,
  eq_refl user.department,
)

lacks_source-eq :
    (have : List UserAuthentication) (a : UserAuthentication) (rest : List UserAuthentication)
    → contains have a ≡ true
    → lacks_source have (a ∷ rest) ≡ ok false
unfolding lacks_source contains
lacks_source-eq [] a rest h = ground (arith, h)
lacks_source-eq (x ∷ have) a rest h = rw (contains-contains_func (x ∷ have) a h)

-- After a synchronisation the same decision is taken about disabling the user.
carry_disabled-synced_user :
    (auto_re_enable : Bool) (now : ℕ) (existing fresh ldap : User)
    → carry_disabled auto_re_enable
        (synced_user now fresh (carry_disabled auto_re_enable existing ldap))
        ldap
      ≡ carry_disabled auto_re_enable existing ldap
unfolding carry_disabled synced_user
carry_disabled-synced_user false now existing fresh ldap = refl
carry_disabled-synced_user true now existing fresh ldap =
    elim (Bool-cases (existing.disabled_reason == disabled_reason_ldap_missing)) [
      | inl missing ↦ rw missing
      | inr other ↦ rw (other, other)
    ]

carry_disabled-authentications :
    (auto_re_enable : Bool) (existing ldap : User)
    → (carry_disabled auto_re_enable existing ldap).authentications ≡ ldap.authentications
unfolding carry_disabled
carry_disabled-authentications false existing ldap = refl
carry_disabled-authentications true existing ldap =
    elim (Bool-cases (existing.disabled_reason == disabled_reason_ldap_missing)) [
      | inl missing ↦ rw missing
      | inr other ↦ rw other
    ]

merged-eq :
    (fresh user : User) (a : UserAuthentication) (rest : List UserAuthentication)
    → user.authentications ≡ a ∷ rest
    → contains (merge_auth_sources fresh user.authentications).authentications a ≡ true
unfolding contains
merged-eq fresh user a rest h = ground (
  arith,
  (merge_auth_sources_lem fresh user.authentications).0 a,
  ap (λ xs. contains xs a) h,
  authentication_eq.same_iff a a,
)

user_changed_in_ldap-synced_user :
    (now : ℕ) (fresh user : User) (a : UserAuthentication) (rest : List UserAuthentication)
    → user.authentications ≡ a ∷ rest
    → user_changed_in_ldap (synced_user now fresh user) user ≡ ok false
unfolding user_changed_in_ldap synced_user merge_auth_sources
user_changed_in_ldap-synced_user now fresh user a rest h =
    let have = (synced_user now fresh user).authentications in
    let sources : lacks_source have user.authentications ≡ ok false =
      ap (lacks_source have) h ∙ lacks_source-eq have a rest (merged-eq fresh user a rest h) in
    rw (fields_changed-synced_user now fresh user) sources

decision :
    (persist : Bool) (m : Result Bool) (u w : User)
    → (if persist then ok none else m >>= λ changed. ok (if changed then some u else none))
      ≡ ok (some w)
    → u ≡ w
decision true m u w h = ground (arith, h)
decision false panic u w h = ground (arith, h)
decision false (err e) u w h = ground (arith, h)
decision false (ok false) u w h = ground (arith, h)
decision false (ok true) u w h = cc

undecided :
    (persist : Bool) (m : Result Bool) (u : User)
    → m ≡ ok false
    → (if persist then ok none else m >>= λ changed. ok (if changed then some u else none))
      ≡ ok none
undecided true m u h = refl
undecided false m u h = rw h

-- If the synchronisation updates a user, and LDAP and its setting stay the same, the next one leaves the
-- new user alone. The user from LDAP has a source, and the user is the same when it is read a second time.
pub sync_existing_settled :
    (auto_re_enable : Bool) (now later : ℕ) (existing ldap synced : User)
    → (a : UserAuthentication) (rest : List UserAuthentication) → ldap.authentications ≡ a ∷ rest
    → sync_existing auto_re_enable now existing existing ldap ≡ ok (some synced)
    → sync_existing auto_re_enable later synced synced ldap ≡ ok none
unfolding sync_existing
sync_existing_settled auto_re_enable now later existing ldap synced a rest h run =
    let user = carry_disabled auto_re_enable existing ldap in
    let same =
      decision existing.persist_local_changes (user_changed_in_ldap existing user)
        (synced_user now existing user) synced run in
    let new = synced_user now existing user in
    let unchanged : user_changed_in_ldap new (carry_disabled auto_re_enable new ldap) ≡ ok false =
      ap (user_changed_in_ldap new)
        (carry_disabled-synced_user auto_re_enable now existing existing ldap)
      ∙ user_changed_in_ldap-synced_user now existing user a rest
          (carry_disabled-authentications auto_re_enable existing ldap ∙ h) in
    let alone : sync_existing auto_re_enable later new new ldap ≡ ok none =
      undecided new.persist_local_changes
        (user_changed_in_ldap new (carry_disabled auto_re_enable new ldap)) _ unchanged in
    subst (λ u. sync_existing auto_re_enable later u u ldap ≡ ok none) same alone
