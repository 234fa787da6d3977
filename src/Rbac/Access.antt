-- ===== src/Rbac/Access.antt =====
-- Who passes the guard, described by the tables alone.
use Prim.Native.String.{String}
use find_language_tutor.Prelude.{
  ℕ, ◌≡◌, ◌↔◌, ◌⊎◌, inl, inr, refl, Bool, true, some, List, [], ◌∷◌, All, Any, In, arith,
  Any-append_left, Any-append_right, Any-append_cases, subst, Bool-cases, Option-cases, ◌==◌,
}
use find_language_tutor.Prelude.Order.{
  has_text_iff, distinct, In-distinct, sort_with, Any-sort_with,
}
use find_language_tutor.Prelude.Rows.{first_where, exists_where, exists_where_iff}
use text.Mathlib.TextEquality.{eq_iff}
use find_language_tutor.Rbac.{
  RoleRow, Grant, Holding, Roles, superadmin_role_name, contains_permission,
}
use find_language_tutor.Rbac.Repository.{
  has_role_id, role_keys, user_keys, user_refs, permission_keys_for_user, role_refs_for_user,
}
use find_language_tutor.Rbac.Changes.{InCatalog}
use find_language_tutor.Rbac.Service.{allowed, is_superadmin, permissions_for, require}

-- A grant of the permission to the role; one to a role of the user; the role of that name.
abbrev pub GrantsTo : ℕ → String → Grant → Type 0
GrantsTo id p g = (g.role_id ≡ id) × (g.permission ≡ p)

abbrev pub IsGranted : ℕ → String → Roles → Type 0
IsGranted user_id p s =
    Any (λ h. (h.user_id ≡ user_id) × Any (GrantsTo h.role_id p) s.grants) s.holdings

abbrev pub IsNamed : String → ℕ → List RoleRow → Type 0
IsNamed name id rs = (r : RoleRow) × (first_where (has_role_id id) rs ≡ some r) × (r.name ≡ name)

abbrev pub HoldsSuperadmin : ℕ → Roles → Type 0
HoldsSuperadmin user_id s =
    Any (λ h. (h.user_id ≡ user_id) × IsNamed superadmin_role_name h.role_id s.roles) s.holdings

In-role_keys :
    (id : ℕ) (p : String) (gs : List Grant) → In p (role_keys id gs) ↔ Any (GrantsTo id p) gs
unfolding role_keys
In-role_keys id p [] = (λ h. h, λ h. h)
In-role_keys id p (g ∷ gs) =
    (λ h. ground (arith, (In-role_keys id p gs).0), λ h. ground (arith, (In-role_keys id p gs).1))

In-user_keys :
    (user_id : ℕ) (p : String) (gs : List Grant) (hs : List Holding)
    → In p (user_keys user_id gs hs)
      ↔ Any (λ h. (h.user_id ≡ user_id) × Any (GrantsTo h.role_id p) gs) hs
unfolding user_keys
In-user_keys user_id p gs [] = (λ h. h, λ h. h)
In-user_keys user_id p gs (h ∷ hs) =
    let mine = In-role_keys h.role_id p gs in
    let rest = In-user_keys user_id p gs hs in
    elim (Bool-cases (h.user_id == user_id)) [
      | inl e ↦ rw e (
        λ m.
            elim (Any-append_cases (λ y. y ≡ p) (role_keys h.role_id gs) (user_keys user_id gs hs)
              m) [ inl a ↦ inl (ground arith, mine.0 a) | inr b ↦ inr (rest.0 b) ],
        λ m. elim m [
          | inl a ↦
              Any-append_left (λ y. y ≡ p) (role_keys h.role_id gs) (user_keys user_id gs hs)
                (mine.1 a.1)
          | inr b ↦
              Any-append_right (λ y. y ≡ p) (role_keys h.role_id gs) (user_keys user_id gs hs)
                (rest.1 b)
        ],
      )
      | inr e ↦ rw e (
        λ m. inr (rest.0 m),
        λ m. elim m [ inl a ↦ absurd (ground (arith, a.0)) | inr b ↦ rest.1 b ],
      )
    ]

Named-user_refs :
    (user_id : ℕ) (rs : List RoleRow) (hs : List Holding)
    → Any (λ r. is_superadmin r ≡ true) (user_refs user_id rs hs)
      ↔ Any (λ h. (h.user_id ≡ user_id) × IsNamed superadmin_role_name h.role_id rs) hs
unfolding user_refs
Named-user_refs user_id rs [] = (λ h. h, λ h. h)
Named-user_refs user_id rs (h ∷ hs) = elim (Bool-cases (h.user_id == user_id)) [
  | inl e ↦ elim (Option-cases (first_where (has_role_id h.role_id) rs)) [
    | inl f ↦
        rw (e, f)
          (
            λ m. inr ((Named-user_refs user_id rs hs).0 m),
            λ m. elim m [
              | inl a ↦ absurd (ground (arith, f, a.1.1))
              | inr b ↦ (Named-user_refs user_id rs hs).1 b
            ],
          )
    | inr (r, f) ↦
        rw (e, f)
          (
            λ m. elim m [
              | inl a ↦ inl (ground arith, (r, refl, (eq_iff r.name superadmin_role_name).0 a))
              | inr b ↦ inr ((Named-user_refs user_id rs hs).0 b)
            ],
            λ m. elim m [
              | inl a ↦
                  inl (ground (arith, f, a.1.1, a.1.2, (eq_iff r.name superadmin_role_name).1))
              | inr b ↦ inr ((Named-user_refs user_id rs hs).1 b)
            ],
          )
  ]
  | inr e ↦ rw e (
    λ m. inr ((Named-user_refs user_id rs hs).0 m),
    λ m. elim m [
      | inl a ↦ absurd (ground (arith, a.0))
      | inr b ↦ (Named-user_refs user_id rs hs).1 b
    ],
  )
]

module _ (collate : String → String → Bool) where
  superadmin_iff :
      (user_id : ℕ) (s : Roles)
      → (exists_where is_superadmin (role_refs_for_user collate user_id s) ≡ true)
        ↔ HoldsSuperadmin user_id s
  unfolding role_refs_for_user
  superadmin_iff user_id s =
      let refs = user_refs user_id s.roles s.holdings in
      let sorted =
        Any-sort_with (λ a b. collate a.name b.name) (λ r. is_superadmin r ≡ true) refs in
      let named = Named-user_refs user_id s.roles s.holdings in
      let found = exists_where_iff is_superadmin (sort_with (λ a b. collate a.name b.name) refs) in
      (λ h. named.0 (sorted.0 (found.0 h)), λ h. found.1 (sorted.1 (named.1 h)))

  In-permission_keys_for_user :
      (user_id : ℕ) (p : String) (s : Roles)
      → In p (permission_keys_for_user collate user_id s) ↔ IsGranted user_id p s
  unfolding permission_keys_for_user
  In-permission_keys_for_user user_id p s =
      let keys = user_keys user_id s.grants s.holdings in
      let sorted = Any-sort_with collate (λ y. y ≡ p) (distinct keys) in
      let once = In-distinct p keys in
      let mine = In-user_keys user_id p s.grants s.holdings in
      (λ h. mine.0 (once.0 (sorted.0 h)), λ h. sorted.1 (once.1 (mine.1 h)))

-- A granted permission, where every grant is of the catalog.
catalog_of_grant :
    (id : ℕ) (p : String) (gs : List Grant)
    → All (λ g. InCatalog g.permission) gs
    → Any (GrantsTo id p) gs
    → InCatalog p
catalog_of_grant id p [] all m = absurd m
catalog_of_grant id p (g ∷ gs) all (inl a) = subst InCatalog a.1 all.0
catalog_of_grant id p (g ∷ gs) all (inr b) = catalog_of_grant id p gs all.1 b

catalog_of_granted :
    (user_id : ℕ) (p : String) (gs : List Grant) (hs : List Holding)
    → All (λ g. InCatalog g.permission) gs
    → Any (λ h. (h.user_id ≡ user_id) × Any (GrantsTo h.role_id p) gs) hs
    → InCatalog p
catalog_of_granted user_id p gs [] all m = absurd m
catalog_of_granted user_id p gs (h ∷ hs) all (inl a) = catalog_of_grant h.role_id p gs all a.1
catalog_of_granted user_id p gs (h ∷ hs) all (inr b) = catalog_of_granted user_id p gs hs all b

require-contains :
    (collate : String → String → Bool) (user_id : ℕ) (p : String) (s : Roles)
    → (require collate (some user_id) p s ≡ allowed) ↔ In p (permissions_for collate user_id s)
unfolding require contains_permission
require-contains collate user_id p s =
    let named = has_text_iff p (permissions_for collate user_id s) in
    (λ h. named.0 (ground arith), λ h. ground (arith, named.1 h))

-- Where every stored grant is of the catalog, a user passes the guard of a permission exactly when
-- the permission is of the catalog and the user holds a role named superadmin, or a role to which
-- the permission is granted.
pub require_iff :
    (collate : String → String → Bool) (user_id : ℕ) (p : String) (s : Roles)
    → All (λ g. InCatalog g.permission) s.grants
    → (require collate (some user_id) p s ≡ allowed)
      ↔ (InCatalog p × (HoldsSuperadmin user_id s ⊎ IsGranted user_id p s))
unfolding permissions_for
require_iff collate user_id p s all =
    let passes = require-contains collate user_id p s in
    let super = superadmin_iff collate user_id s in
    let keys = In-permission_keys_for_user collate user_id p s in
    let inside = catalog_of_granted user_id p s.grants s.holdings all in
    elim (Bool-cases (exists_where is_superadmin (role_refs_for_user collate user_id s))) [
      | inl e ↦ (λ h. (rw e at (passes.0 h), inl (super.0 e)), λ h. passes.1 (rw e h.0))
      | inr e ↦ (
        λ h. (let g = keys.0 (rw e at (passes.0 h)) in (inside g, inr g)),
        λ h. elim h.1 [ inl a ↦ absurd (cc (e, super.1 a)) | inr g ↦ passes.1 (rw e (keys.1 g)) ],
      )
    ]
