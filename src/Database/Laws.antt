-- ===== src/Database/Laws.antt =====
-- What `SaveUser` does to the table, and what a read finds afterwards.
use awg_portal.Prelude.{
  ℕ, String, ◌≡◌, ◌≢◌, ap, none, some, ◌==◌, string_eq, if◌then◌else◌, ◌⊎◌, inl, inr, arith, false,
}
use awg_portal.Errors.{Result, ok, bind-eq-ok, wrapping, wrapping-eq-ok}
use awg_portal.Access.{Context, ContextUserInfo, get_user_info}
use awg_portal.User.{User}
use awg_portal.Database.{
  Gorm, stored, user_defaults, stamped, get_user, get_or_create_user, upsert_user, save_user,
}

module _ (g : Gorm) where
  open g use {Db}

  -- The user that the update function is given: the stored one, or a fresh one where there is none.
  abbrev pub IsFetched : ContextUserInfo → ℕ → Db → String → User → Type 0
  IsFetched ui now d id u =
      (g.load d id ≡ ok (some u)) ⊎ ((g.load d id ≡ ok none) × (u ≡ user_defaults ui now id))

  pub get_user_lem :
      (d : Db) (id : String) (u : User) → get_user g d id ≡ ok u → g.load d id ≡ ok (some u)
  unfolding get_user
  get_user_lem d id u h = ground arith

  get_or_create_user_lem :
      (ui : ContextUserInfo) (now : ℕ) (d d' : Db) (id : String) (u : User)
      → get_or_create_user g ui now d id ≡ ok (u, d')
      → IsFetched ui now d id u × ((k : String) → (id == k) ≡ false → g.load d' k ≡ g.load d k)
  unfolding get_or_create_user
  get_or_create_user_lem ui now d d' id u h =
      (ground arith, λ k e. ground (arith, g.load-create d d' (user_defaults ui now id) k))

  IsFetched-identifier :
      (ui : ContextUserInfo) (now : ℕ) (d : Db) (id : String) (u : User)
      → IsFetched ui now d id u
      → u.identifier ≡ id
  IsFetched-identifier ui now d id u (inl loaded) = g.load-identifier d id u loaded
  IsFetched-identifier ui now d id u (inr (missing, e)) = ap (λ (v : User). v.identifier) e

  pub IsFetched-loaded :
      (ui : ContextUserInfo) (now : ℕ) (d : Db) (id : String) (u v : User)
      → IsFetched ui now d id u
      → g.load d id ≡ ok (some v)
      → u ≡ v
  IsFetched-loaded ui now d id u v (inl loaded) h = cc
  IsFetched-loaded ui now d id u v (inr (missing, e)) h = cc

  pub IsFetched-missing :
      (ui : ContextUserInfo) (now : ℕ) (d : Db) (id : String) (u : User)
      → IsFetched ui now d id u
      → ((v : User) → g.load d id ≢ ok (some v))
      → (g.load d id ≡ ok none) × (u ≡ user_defaults ui now id)
  IsFetched-missing ui now d id u (inl loaded) h = absurd (h u loaded)
  IsFetched-missing ui now d id u (inr fresh) h = fresh

  upsert_user_lem :
      (ui : ContextUserInfo) (now : ℕ) (d d' : Db) (u saved : User)
      → upsert_user g ui now d u ≡ ok (saved, d')
      → (saved ≡ stamped ui now u)
        × ((k : String)
            → g.load d' k ≡ (if u.identifier == k then ok (some (stored saved)) else g.load d k))
  unfolding upsert_user
  upsert_user_lem ui now d d' u saved h =
      let u' = stamped ui now u in
      let (d₁, s, h₁) = bind-eq-ok (g.save d u') _ h in
      let (d₂, c, h₂) = bind-eq-ok (wrapping _ (g.replace_credentials d₁ u')) _ h₁ in
      let (d₃, a, h₃) = bind-eq-ok (wrapping _ (g.replace_authentications d₂ u')) _ h₂ in
      (
        ground arith,
        λ k.
            ground
              (arith, g.load-save d d₁ d₂ d₃ u' k s (wrapping-eq-ok _ _ c) (wrapping-eq-ok _ _ a)),
      )

  -- What a successful `SaveUser` has done: the update function has been given the stored user, or
  -- a fresh one where there is none; its result, stamped with the acting user and the time, is what the
  -- caller's object holds and what a later read finds; every other user is as before. The update
  -- function must keep the identifier.
  pub save_user_lem :
      (ctx : Context) (now : ℕ) (id : String) (f : User → Result User) (d d' : Db) (saved : User)
      → ((old new : User) → old.identifier ≡ id → f old ≡ ok new → new.identifier ≡ id)
      → save_user g ctx now id f d ≡ ok (saved, d')
      → (old : User) × (new : User) × IsFetched (get_user_info ctx) now d id old
        × (f old ≡ ok new)
        × (saved ≡ stamped (get_user_info ctx) now new)
        × ((k : String) → g.load d' k ≡ (if id == k then ok (some (stored saved)) else g.load d k))
  unfolding save_user
  save_user_lem ctx now id f d d' saved keeps h =
      let ui = get_user_info ctx in
      let ((old, d₁), fetched, h₁) = bind-eq-ok (get_or_create_user g ui now d id) _ h in
      let (new, updated, h₂) = bind-eq-ok (f old) _ h₁ in
      let ((kept, d₂), upserted, h₃) = bind-eq-ok (upsert_user g ui now d₁ new) _ h₂ in
      let (d₃, committed, h₄) = bind-eq-ok (g.commit d₂) _ h₃ in
      let (is_fetched, others) = get_or_create_user_lem ui now d d₁ id old fetched in
      let (stamp, reads) = upsert_user_lem ui now d₁ d₂ new kept upserted in
      let same = keeps old new (IsFetched-identifier ui now d id old is_fetched) updated in
      (
        old,
        new,
        is_fetched,
        updated,
        cc,
        λ k. ground (arith, others k, reads k, g.load-commit d₂ d₃ k committed),
      )
