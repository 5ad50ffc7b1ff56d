-- ===== src/User/Sources.antt =====
-- `MergeAuthSources` of internal/domain/user.go.
use awg_portal.Prelude.{
  false, ◌≡◌, refl, ◌≢◌, ◌||◌, List, [], ◌∷◌, ◌++◌, arith, All, contains, Comparable, Bool-cases,
  inl, inr,
}
use awg_portal.User.{User, UserAuthentication, authentication_eq, merge_sources, merge_auth_sources}

module _ {ℓ} {A : Type ℓ} ⦃e : Comparable A⦄ where
  contains-append :
      (xs ys : List A) (a : A) → contains (xs ++ ys) a ≡ (contains xs a || contains ys a)
  unfolding contains
  contains-append [] ys a = refl
  contains-append (x ∷ xs) ys a = ground (arith, contains-append xs ys a)

  -- No element occurs again later.
  abbrev pub AreDistinct : List A → Type 0
  AreDistinct [] = Unit
  AreDistinct (a ∷ rest) = (contains rest a ≡ false) × AreDistinct rest

  AreDistinct-snoc :
      (xs : List A) (a : A) → AreDistinct xs → contains xs a ≡ false → AreDistinct (xs ++ a ∷ [])
  unfolding contains
  AreDistinct-snoc [] a d n = (refl, tt)
  AreDistinct-snoc (x ∷ xs) a (fresh, d) n = (
    ground (arith, contains-append xs (a ∷ []) x, e.same_iff x a, e.same_iff a x),
    AreDistinct-snoc xs a d (ground arith),
  )

  merge_sources-AreDistinct :
      (have ext : List A) → AreDistinct have → AreDistinct (merge_sources have ext)
  unfolding merge_sources
  merge_sources-AreDistinct have [] d = d
  merge_sources-AreDistinct have (a ∷ rest) d = elim (Bool-cases (contains have a)) [
    | inl old ↦ rw old (merge_sources-AreDistinct have rest d)
    | inr new ↦
        rw new (merge_sources-AreDistinct (have ++ a ∷ []) rest (AreDistinct-snoc have a d new))
  ]

  contains-merge_sources :
      (have ext : List A) (a : A)
      → contains (merge_sources have ext) a ≡ (contains have a || contains ext a)
  unfolding merge_sources contains
  contains-merge_sources have [] a = ground arith
  contains-merge_sources have (x ∷ rest) a = ground (
    arith,
    contains-merge_sources have rest a,
    contains-merge_sources (have ++ x ∷ []) rest a,
    contains-append have (x ∷ []) a,
    e.same_iff x a,
  )

-- Where sources are compared as whole structs, timestamps included: after merging a source is there if and
-- only if it was there or is among the given ones, and if the user's sources were pairwise different they
-- still are.
pub merge_auth_sources_lem :
    (u : User) (ext : List UserAuthentication)
    → ((a : UserAuthentication)
        → contains (merge_auth_sources u ext).authentications a
          ≡ (contains u.authentications a || contains ext a))
      × (AreDistinct u.authentications → AreDistinct (merge_auth_sources u ext).authentications)
unfolding merge_auth_sources
merge_auth_sources_lem u ext =
    (contains-merge_sources u.authentications ext, merge_sources-AreDistinct u.authentications ext)

-- Two sources of one user at one provider, which the primary key of the table does not tell apart.
abbrev pub IsSameKey : UserAuthentication → UserAuthentication → Type 0
IsSameKey a b =
    (a.user_identifier ≡ b.user_identifier)
    × (a.source ≡ b.source)
    × (a.provider_name ≡ b.provider_name)

contains-All_ne :
    (xs : List UserAuthentication) (a : UserAuthentication)
    → All (λ x. x.base.created_at ≢ a.base.created_at) xs
    → contains xs a ≡ false
unfolding contains
contains-All_ne [] a h = refl
contains-All_ne (x ∷ xs) a (n, h) = ground (arith, contains-All_ne xs a h)

-- Let a given source have the user, the source and the provider of the user's first one, and a creation
-- time that none of the user's sources has. Since whole structs are compared, it is added at the end: the
-- merged list has two entries with one key.
pub merge_auth_sources_same_key :
    (u : User) (a : UserAuthentication) (have : List UserAuthentication) (old : UserAuthentication)
    → u.authentications ≡ old ∷ have
    → IsSameKey old a
    → All (λ x. x.base.created_at ≢ a.base.created_at) (old ∷ have)
    → (merge_auth_sources u (a ∷ [])).authentications ≡ old ∷ (have ++ a ∷ [])
unfolding merge_auth_sources merge_sources contains
merge_auth_sources_same_key u a have old e same apart =
    ground (arith, contains-All_ne (old ∷ have) a apart)
