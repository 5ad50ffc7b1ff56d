-- ===== src/Database/Memory.antt =====
-- A table of users as a list, in which no call fails: it shows that the laws of `Gorm` can hold, and
-- runs in the examples.
use awg_portal.Prelude.{
  String, ◌≡◌, refl, Option, none, some, ◌==◌, string_eq, if◌then◌else◌, List, [], ◌∷◌, arith,
  eq_iff,
}
use awg_portal.Errors.{Result, ok}
use awg_portal.User.{User}
use awg_portal.Database.{Gorm, stored}

unfoldable pub find : List User → String → Option User
find [] k = none
find (v ∷ vs) k = if v.identifier == k then some v else find vs k

unfoldable pub put : List User → User → List User
put [] u = stored u ∷ []
put (v ∷ vs) u = if v.identifier == u.identifier then stored u ∷ vs else v ∷ put vs u

unfoldable pub drop : List User → String → List User
drop [] k = []
drop (v ∷ vs) k = let rest = drop vs k in if v.identifier == k then rest else v ∷ rest

pub find-identifier : (d : List User) (k : String) (u : User) → find d k ≡ some u → u.identifier ≡ k
unfolding find
find-identifier [] k u h = cc
find-identifier (v ∷ vs) k u h = ground (arith, eq_iff v.identifier k, find-identifier vs k u)

pub find-put :
    (d : List User) (u : User) (k : String)
    → find (put d u) k ≡ (if u.identifier == k then some (stored u) else find d k)
unfolding find put
find-put [] u k = refl
find-put (v ∷ vs) u k = ground (
  arith,
  eq_iff v.identifier u.identifier,
  eq_iff v.identifier k,
  eq_iff u.identifier k,
  find-put vs u k,
)

pub find-drop :
    (d : List User) (j k : String) → find (drop d j) k ≡ (if j == k then none else find d k)
unfolding find drop
find-drop [] j k = ground arith
find-drop (v ∷ vs) j k =
    ground (arith, eq_iff v.identifier j, eq_iff v.identifier k, eq_iff j k, find-drop vs j k)

pub load-put :
    (d d' : List User) (u : User) (k : String)
    → ◌≡◌ {A = Result (List User)} (ok (put d u)) (ok d')
    → ◌≡◌ {A = Result (Option User)}
        (ok (find d' k))
        (if u.identifier == k then ok (some (stored u)) else ok (find d k))
load-put d d' u k h = ground (arith, find-put d u k)

pub load-drop :
    (d d' : List User) (j k : String)
    → ◌≡◌ {A = Result (List User)} (ok (drop d j)) (ok d')
    → ◌≡◌ {A = Result (Option User)} (ok (find d' k)) (if j == k then ok none else ok (find d k))
load-drop d d' j k h = ground (arith, find-drop d j k)

pub found_identifier :
    (d : List User) (k : String) (u : User)
    → ◌≡◌ {A = Result (Option User)} (ok (find d k)) (ok (some u))
    → u.identifier ≡ k
found_identifier d k u h = ground (arith, find-identifier d k u)

pub load_saved :
    (d d₁ d₂ d' : List User) (u : User) (k : String)
    → ◌≡◌ {A = Result (List User)} (ok (put d u)) (ok d₁)
    → ◌≡◌ {A = Result (List User)} (ok d₁) (ok d₂)
    → ◌≡◌ {A = Result (List User)} (ok d₂) (ok d')
    → ◌≡◌ {A = Result (Option User)}
        (ok (find d' k))
        (if u.identifier == k then ok (some (stored u)) else ok (find d k))
load_saved d d₁ d₂ d' u k h h₁ h₂ = load-put d d' u k (cc)

pub load_committed :
    (d d' : List User) (k : String)
    → ◌≡◌ {A = Result (List User)} (ok d) (ok d')
    → ◌≡◌ {A = Result (Option User)} (ok (find d' k)) (ok (find d k))
load_committed d d' k h = ground arith

abbrev pub memory : Gorm
memory = record {
  Db = List User;
  load = λ d id. ok (find d id);
  create = λ d u. ok (put d u);
  save = λ d u. ok (put d u);
  replace_credentials = λ d u. ok d;
  replace_authentications = λ d u. ok d;
  delete = λ d id. ok (drop d id);
  commit = λ d. ok d;
  load-identifier = found_identifier;
  load-create = load-put;
  load-save = load_saved;
  load-delete = load-drop;
  load-commit = load_committed;
}
