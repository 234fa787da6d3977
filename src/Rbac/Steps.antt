-- ===== src/Rbac/Steps.antt =====
-- The roles over time: what no sequence of calls can change.
use Prim.Native.String.{String}
use find_language_tutor.Prelude.{
  ℕ, ◌≡◌, inl, inr, Bool, Option, none, some, List, [], ◌∷◌, All, arith, All-append, Bool-cases,
}
use find_language_tutor.Prelude.Rows.{delete_where, exists_where, All-delete_where}
use find_language_tutor.Effect.{ok, Fallible-cases}
use find_language_tutor.Rbac.{Grant, Roles, validate_permissions}
use find_language_tutor.Rbac.Repository.{
  of_role, is_grant, add_permission, add_permissions, replace_permissions, write_role,
}
use find_language_tutor.Rbac.Service.{
  validate_optional, create_role, update_role, delete_role, assign_role, unassign_role,
}
use find_language_tutor.Rbac.Changes.{
  InCatalog, validate_permissions-InCatalog, inserted, deleted, create_role-Creates,
  update_role-Writes, delete_role-Deletes, assign_role-SameRoles, unassign_role-SameRoles,
}

-- A call of the service, whatever it answers.
pub data Step (collate : String → String → Bool) (trim_space : String → String)
    : Roles → Roles → Type 0 where
  created :
      (name description : String) (permissions : List String) (s : Roles)
      → Step collate trim_space s (create_role collate trim_space name description permissions s).1
  updated :
      (id : ℕ) (description : Option String) (permissions : Option (List String)) (s : Roles)
      → Step collate trim_space s (update_role collate trim_space id description permissions s).1
  removed : (id : ℕ) (s : Roles) → Step collate trim_space s (delete_role collate id s).1
  assigned :
      (user_id role_id : ℕ) (s : Roles)
      → Step collate trim_space s (assign_role collate user_id role_id s).1
  unassigned :
      (user_id role_id : ℕ) (s : Roles)
      → Step collate trim_space s (unassign_role collate user_id role_id s).1

pub data Reach (collate : String → String → Bool) (trim_space : String → String) (s : Roles)
    : Roles → Type 0 where
  here : Reach collate trim_space s s
  next :
      {t u : Roles}
      → Reach collate trim_space s t
      → Step collate trim_space t u
      → Reach collate trim_space s u

abbrev pub GrantsInCatalog : List Grant → Type 0
GrantsInCatalog gs = All (λ g. InCatalog g.permission) gs

add_permission-GrantsInCatalog :
    (id : ℕ) (p : String) (gs : List Grant)
    → InCatalog p
    → GrantsInCatalog gs
    → GrantsInCatalog (add_permission id p gs)
unfolding add_permission
add_permission-GrantsInCatalog id p gs h k = elim (Bool-cases (exists_where (is_grant id p) gs)) [
  | inl e ↦ rw e k
  | inr e ↦ rw e (
      All-append (λ g. InCatalog g.permission) gs (record { role_id = id; permission = p } ∷ []) k
        (h, tt))
]

add_permissions-GrantsInCatalog :
    (id : ℕ) (ps : List String) (gs : List Grant)
    → All InCatalog ps
    → GrantsInCatalog gs
    → GrantsInCatalog (add_permissions id ps gs)
unfolding add_permissions
add_permissions-GrantsInCatalog id [] gs h k = k
add_permissions-GrantsInCatalog id (p ∷ ps) gs h k =
    add_permissions-GrantsInCatalog id ps (add_permission id p gs) h.1
      (add_permission-GrantsInCatalog id p gs h.0 k)

replace_permissions-GrantsInCatalog :
    (id : ℕ) (permissions v : Option (List String)) (gs : List Grant)
    → validate_optional permissions ≡ ok v
    → GrantsInCatalog gs
    → GrantsInCatalog (replace_permissions id v gs)
unfolding validate_optional replace_permissions
replace_permissions-GrantsInCatalog id permissions none gs e h = h
replace_permissions-GrantsInCatalog id none (some ps) gs e h = absurd (cc)
replace_permissions-GrantsInCatalog id (some qs) (some ps) gs e h =
    elim (Fallible-cases (validate_permissions qs)) [
      | inl (v, f) ↦
          add_permissions-GrantsInCatalog id ps (delete_where (of_role id) gs)
            (validate_permissions-InCatalog qs ps (ground (arith, e, f)))
            (All-delete_where (of_role id) (λ g. InCatalog g.permission) gs h)
      | inr (x, f) ↦ absurd (ground (arith, e, f))
    ]

Step-GrantsInCatalog :
    (collate : String → String → Bool) (trim_space : String → String) {s t : Roles}
    → Step collate trim_space s t
    → GrantsInCatalog s.grants
    → GrantsInCatalog t.grants
unfolding inserted deleted write_role
Step-GrantsInCatalog collate trim_space (created name description permissions s) h =
    elim (create_role-Creates collate trim_space name description permissions s) [
      | inl same ↦ rw same h
      | inr (v, valid, e) ↦ rw e (
          add_permissions-GrantsInCatalog s.next_id v s.grants
            (validate_permissions-InCatalog permissions v valid) h)
    ]
Step-GrantsInCatalog collate trim_space (updated id description permissions s) h =
    elim (update_role-Writes collate trim_space id description permissions s) [
      | inl same ↦ rw same h
      | inr (r, d, v, found, free, valid, e) ↦
          rw e (replace_permissions-GrantsInCatalog id permissions v s.grants valid h)
    ]
Step-GrantsInCatalog collate trim_space (removed id s) h = elim (delete_role-Deletes collate id s) [
  | inl same ↦ rw same h
  | inr (r, found, free, e) ↦
      rw e (All-delete_where (of_role id) (λ g. InCatalog g.permission) s.grants h)
]
Step-GrantsInCatalog collate trim_space (assigned user_id role_id s) h =
    rw (assign_role-SameRoles collate user_id role_id s).1 h
Step-GrantsInCatalog collate trim_space (unassigned user_id role_id s) h =
    rw (unassign_role-SameRoles collate user_id role_id s).1 h

-- Whatever the calls, where every stored grant was of the catalog, every one is afterwards.
pub Reach-GrantsInCatalog :
    (collate : String → String → Bool) (trim_space : String → String) {s t : Roles}
    → Reach collate trim_space s t
    → GrantsInCatalog s.grants
    → GrantsInCatalog t.grants
Reach-GrantsInCatalog collate trim_space here h = h
Reach-GrantsInCatalog collate trim_space (next r st) h =
    Step-GrantsInCatalog collate trim_space st (Reach-GrantsInCatalog collate trim_space r h)
