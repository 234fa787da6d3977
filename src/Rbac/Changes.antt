-- ===== src/Rbac/Changes.antt =====
-- What each call of the rbac service does to the tables.
use Prim.Native.String.{String}
use find_language_tutor.Prelude.{
  subst, ℕ, suc, ◌≡◌, ◌⊎◌, inl, inr, Bool, false, ◌&&◌, Option, some, List, [], ◌∷◌, ◌++◌, All, In,
  arith, All-append, Bool-cases, Option-cases, ◌==◌, ltb,
}
use find_language_tutor.Prelude.Order.{has_text, has_text_iff}
use find_language_tutor.Prelude.Rows.{first_where, delete_where, exists_where}
use text.Mathlib.Text.{◌==◌ as str_eq}
use find_language_tutor.Effect.{ok, Fallible-cases}
use find_language_tutor.Rbac.{
  RoleRow, Roles, all_permissions, valid_permission, collect, validate_permissions,
}
use find_language_tutor.Rbac.Repository as Repository
use find_language_tutor.Rbac.Repository.{
  has_role_id, has_name, of_role, add_permissions, write_role,
}
use find_language_tutor.Rbac.Service.{
  new_description, is_given, validate_optional, create_role, update_role, delete_role, assign_role,
  unassign_role,
}

abbrev pub InCatalog : String → Type 0
InCatalog p = In p all_permissions

collect-InCatalog :
    (out ks v : List String) → All InCatalog out → collect out ks ≡ ok v → All InCatalog v
unfolding collect valid_permission
collect-InCatalog out [] v h e = subst (All InCatalog) (ground (arith, e)) h
collect-InCatalog out (k ∷ ks) v h e = elim (Bool-cases (has_text k all_permissions)) [
  | inl valid ↦ elim (Bool-cases (has_text k out)) [
    | inl seen ↦ collect-InCatalog out ks v h (ground (arith, e, valid, seen))
    | inr new ↦
        collect-InCatalog (out ++ k ∷ []) ks v
          (All-append InCatalog out (k ∷ []) h ((has_text_iff k all_permissions).0 valid, tt))
          (ground (arith, e, valid, new))
  ]
  | inr bad ↦ absurd (ground (arith, e, bad))
]

pub validate_permissions-InCatalog :
    (ks v : List String) → validate_permissions ks ≡ ok v → All InCatalog v
unfolding validate_permissions
validate_permissions-InCatalog ks v e = collect-InCatalog [] ks v tt e

-- The tables after a role is inserted, or deleted.
unfoldable pub inserted : String → String → List String → Roles → Roles
inserted name description permissions s =
    let row : RoleRow = record {
      id = s.next_id;
      name = name;
      description = description;
      is_system = false;
      created_at = s.now;
    } in
    record s {
      next_id = suc s.next_id;
      roles = s.roles ++ row ∷ [];
      grants = add_permissions s.next_id permissions s.grants;
    }

unfoldable pub deleted : ℕ → Roles → Roles
deleted id s = record s {
  roles = delete_where (has_role_id id) s.roles;
  grants = delete_where (of_role id) s.grants;
  holdings = delete_where (λ h. h.role_id == id) s.holdings;
}

-- The call left the tables alone, or it inserted the role with the checked permissions.
abbrev pub Creates : (String → String) → String → String → List String → Roles → Roles → Type 0
Creates trim_space name description permissions s s' =
    (s' ≡ s)
    ⊎ ((v : List String) × (validate_permissions permissions ≡ ok v)
        × (s' ≡ inserted (trim_space name) (trim_space description) v s))

get_role_state :
    (collate : String → String → Bool) (id : ℕ) (s : Roles)
    → (Repository.get_role collate id s).1 ≡ s
unfolding Repository.get_role
get_role_state collate id s = elim (Option-cases (first_where (has_role_id id) s.roles)) [
  | inl e ↦ ground (arith, e)
  | inr (r, e) ↦ ground (arith, e)
]

repository-create_role :
    (collate : String → String → Bool) (name description : String) (v : List String) (s : Roles)
    → let s' = (Repository.create_role collate name description false v s).1 in
      (s' ≡ s) ⊎ (s' ≡ inserted name description v s)
unfolding Repository.create_role Repository.insert_role inserted
repository-create_role collate name description v s =
    elim (Bool-cases (exists_where (has_name name) s.roles)) [
      | inl e ↦ inl (ground (arith, e))
      | inr e ↦
          inr (ground (arith, e, get_role_state collate s.next_id (inserted name description v s)))
    ]

pub create_role-Creates :
    (collate : String → String → Bool) (trim_space : String → String) (name description : String)
    (permissions : List String) (s : Roles)
    → Creates trim_space name description permissions s
        (create_role collate trim_space name description permissions s).1
unfolding create_role
create_role-Creates collate trim_space name description permissions s =
    elim (Bool-cases (str_eq (trim_space name) "")) [
      | inl e ↦ inl (ground (arith, e))
      | inr e ↦ elim (Fallible-cases (validate_permissions permissions)) [
        | inr (x, f) ↦ inl (ground (arith, e, f))
        | inl (v, f) ↦
            elim (repository-create_role collate (trim_space name) (trim_space description) v s) [
              | inl same ↦ inl (ground (arith, e, f, same))
              | inr new ↦ inr (v, f, ground (arith, e, f, new))
            ]
      ]
    ]

-- The call left the tables alone, or it wrote a role that it found; a system role keeps its
-- permissions, and any others are checked.
abbrev pub Writes : ℕ → Option (List String) → Roles → Roles → Type 0
Writes id permissions s s' =
    (s' ≡ s)
    ⊎ ((r : RoleRow) × (description : String) × (v : Option (List String)) × (first_where
            (has_role_id id) s.roles
          ≡ some r)
        × ((is_given permissions && r.is_system) ≡ false)
        × (validate_optional permissions ≡ ok v)
        × (s' ≡ write_role id description v s))

pub update_role-Writes :
    (collate : String → String → Bool) (trim_space : String → String) (id : ℕ)
    (description : Option String) (permissions : Option (List String)) (s : Roles)
    → Writes id permissions s (update_role collate trim_space id description permissions s).1
unfolding update_role Repository.update_role Repository.get_role Repository.with_permissions
update_role-Writes collate trim_space id description permissions s =
    elim (Option-cases (first_where (has_role_id id) s.roles)) [
      | inl e ↦ inl (ground (arith, e))
      | inr (r, e) ↦ elim (Bool-cases (is_given permissions && r.is_system)) [
        | inl f ↦ inl (ground (arith, e, f))
        | inr f ↦ elim (Fallible-cases (validate_optional permissions)) [
          | inr (x, g) ↦ inl (ground (arith, e, f, g))
          | inl (v, g) ↦
              let role = Repository.with_permissions collate s r in
              let d = new_description trim_space role description in
              inr (
                r,
                d,
                v,
                e,
                f,
                g,
                ground (arith, e, f, g, get_role_state collate id (write_role id d v s)),
              )
        ]
      ]
    ]

-- The call left the tables alone, or it deleted a role that is no system role.
abbrev pub Deletes : ℕ → Roles → Roles → Type 0
Deletes id s s' =
    (s' ≡ s)
    ⊎ ((r : RoleRow) × (first_where (has_role_id id) s.roles ≡ some r)
        × (r.is_system ≡ false)
        × (s' ≡ deleted id s))

pub delete_role-Deletes :
    (collate : String → String → Bool) (id : ℕ) (s : Roles)
    → Deletes id s (delete_role collate id s).1
unfolding delete_role Repository.get_role Repository.with_permissions Repository.delete_role deleted
delete_role-Deletes collate id s = elim (Option-cases (first_where (has_role_id id) s.roles)) [
  | inl e ↦ inl (ground (arith, e))
  | inr (r, e) ↦ elim (Bool-cases r.is_system) [
    | inl f ↦ inl (ground (arith, e, f))
    | inr f ↦ elim (Bool-cases (ltb 0 (Repository.count_holders r.id s.holdings))) [
      | inl g ↦ inl (ground (arith, e, f, g))
      | inr g ↦ inr (r, e, f, ground (arith, e, f, g))
    ]
  ]
]

-- Assigning and unassigning leave the roles and their grants alone.
abbrev pub SameRoles : Roles → Roles → Type 0
SameRoles s s' = (s'.roles ≡ s.roles) × (s'.grants ≡ s.grants) × (s'.next_id ≡ s.next_id)

pub assign_role-SameRoles :
    (collate : String → String → Bool) (user_id role_id : ℕ) (s : Roles)
    → SameRoles s (assign_role collate user_id role_id s).1
unfolding assign_role Repository.get_role Repository.assign_role
assign_role-SameRoles collate user_id role_id s =
    elim (Bool-cases (Repository.user_exists user_id s)) [
      | inl e ↦ elim (Option-cases (first_where (has_role_id role_id) s.roles)) [
        | inl f ↦ ground (arith, e, f)
        | inr (r, f) ↦ ground (arith, e, f)
      ]
      | inr e ↦ ground (arith, e)
    ]

pub unassign_role-SameRoles :
    (collate : String → String → Bool) (user_id role_id : ℕ) (s : Roles)
    → SameRoles s (unassign_role collate user_id role_id s).1
unfolding unassign_role Repository.get_role Repository.unassign_role
unassign_role-SameRoles collate user_id role_id s =
    elim (Bool-cases (Repository.user_exists user_id s)) [
      | inl e ↦ elim (Option-cases (first_where (has_role_id role_id) s.roles)) [
        | inl f ↦ ground (arith, e, f)
        | inr (r, f) ↦ ground (arith, e, f)
      ]
      | inr e ↦ ground (arith, e)
    ]
