-- ===== src/Rbac/Repository.antt =====
-- repository_postgres.go of the rbac module. `collate` is the database's order on texts.
use Prim.Native.String.{String}
use find_language_tutor.Prelude.{
  ℕ, suc, Bool, true, false, ◌&&◌, Option, none, some, List, [], ◌∷◌, ◌++◌, map, ◌==◌,
  if◌then◌else◌,
}
use find_language_tutor.Prelude.Order.{distinct, sort_with}
use find_language_tutor.Prelude.Rows.{first_where, update_where, delete_where, exists_where}
use text.Mathlib.Text.{◌==◌ as str_eq}
use find_language_tutor.Effect.{ok, Call, pure, gets, or_raise, ◌>>=◌, ◌>>◌, change, raise_if}
use find_language_tutor.Rbac.{
  RoleRow, Grant, Holding, Role, RoleRef, Roles, RbacError, role_not_found, role_exists,
}

abbrev pub has_role_id : ℕ → RoleRow → Bool
has_role_id id r = r.id == id

abbrev pub has_name : String → RoleRow → Bool
has_name name r = str_eq r.name name

abbrev pub of_role : ℕ → Grant → Bool
of_role id g = g.role_id == id

-- The permissions of one role, and those of all the roles that a user holds.
unfoldable pub role_keys : ℕ → List Grant → List String
role_keys id [] = []
role_keys id (g ∷ gs) =
    let rest = role_keys id gs in if of_role id g then g.permission ∷ rest else rest

unfoldable pub user_keys : ℕ → List Grant → List Holding → List String
unfolding role_keys
user_keys user_id gs [] = []
user_keys user_id gs (h ∷ hs) =
    let rest = user_keys user_id gs hs in
    if h.user_id == user_id then role_keys h.role_id gs ++ rest else rest

-- The roles that a user holds, by the join.
unfoldable pub user_refs : ℕ → List RoleRow → List Holding → List RoleRef
unfolding first_where
user_refs user_id rs [] = []
user_refs user_id rs (h ∷ hs) =
    let rest = user_refs user_id rs hs in
    if h.user_id == user_id
    then (elim (first_where (has_role_id h.role_id) rs) [
      | none ↦ rest
      | some r ↦ record { id = r.id; name = r.name } ∷ rest
    ])
    else rest

unfoldable pub count_holders : ℕ → List Holding → ℕ
count_holders role_id [] = 0
count_holders role_id (h ∷ hs) =
    let rest = count_holders role_id hs in if h.role_id == role_id then suc rest else rest

-- AddRolePermission: ON CONFLICT DO NOTHING.
abbrev pub is_grant : ℕ → String → Grant → Bool
is_grant role_id p g = g.role_id == role_id && str_eq g.permission p

unfoldable pub add_permission : ℕ → String → List Grant → List Grant
unfolding exists_where
add_permission role_id p gs =
    if exists_where (is_grant role_id p) gs
    then gs
    else gs ++ record { role_id = role_id; permission = p } ∷ []

unfoldable pub add_permissions : ℕ → List String → List Grant → List Grant
unfolding add_permission
add_permissions role_id [] gs = gs
add_permissions role_id (p ∷ ps) gs = add_permissions role_id ps (add_permission role_id p gs)

-- The transaction of CreateRole: names are unique.
unfoldable pub insert_role : String → String → Bool → List String → Call Roles RbacError ℕ
unfolding exists_where add_permissions
insert_role name description is_system permissions = do
  taken ← gets (λ s. exists_where (has_name name) s.roles)
  raise_if taken role_exists
  id ← gets (λ s. s.next_id)
  change (λ s. record s {
    next_id = suc id;
    roles =
        s.roles
        ++ record {
          id = id;
          name = name;
          description = description;
          is_system = is_system;
          created_at = s.now;
        }
          ∷ [];
    grants = add_permissions id permissions s.grants;
  })
  pure id

-- The permissions of UpdateRole: cleared and added again, where they are given.
unfoldable pub replace_permissions : ℕ → Option (List String) → List Grant → List Grant
unfolding delete_where add_permissions
replace_permissions id none gs = gs
replace_permissions id (some ps) gs = add_permissions id ps (delete_where (of_role id) gs)

unfoldable pub write_role : ℕ → String → Option (List String) → Roles → Roles
unfolding update_where replace_permissions
write_role id description permissions s = record s {
  roles = update_where (has_role_id id) (λ r. record r { description = description }) s.roles;
  grants = replace_permissions id permissions s.grants;
}

module _ (collate : String → String → Bool) where
  unfoldable pub permission_keys_for_user : ℕ → Roles → List String
  unfolding user_keys distinct sort_with
  permission_keys_for_user user_id s =
      sort_with collate (distinct (user_keys user_id s.grants s.holdings))

  unfoldable pub role_refs_for_user : ℕ → Roles → List RoleRef
  unfolding user_refs sort_with
  role_refs_for_user user_id s =
      sort_with (λ a b. collate a.name b.name) (user_refs user_id s.roles s.holdings)

  -- The role of a row, with its permissions and the number of its holders.
  unfoldable pub with_permissions : Roles → RoleRow → Role
  unfolding role_keys count_holders sort_with
  with_permissions s r = record {
    id = r.id;
    name = r.name;
    description = r.description;
    is_system = r.is_system;
    created_at = r.created_at;
    permissions = sort_with collate (role_keys r.id s.grants);
    user_count = count_holders r.id s.holdings;
  }

  -- ORDER BY is_system DESC, name.
  abbrev pub listed_before : RoleRow → RoleRow → Bool
  listed_before a b =
      if a.is_system
      then (if b.is_system then collate a.name b.name else true)
      else (if b.is_system then false else collate a.name b.name)

  unfoldable pub list_roles : Call Roles RbacError (List Role)
  unfolding sort_with with_permissions
  list_roles s = (ok (map (with_permissions s) (sort_with listed_before s.roles)), s)

  unfoldable pub get_role : ℕ → Call Roles RbacError Role
  unfolding first_where with_permissions
  get_role id = do
    row ← or_raise (← gets (λ s. first_where (has_role_id id) s.roles)) role_not_found
    gets (λ s. with_permissions s row)

  unfoldable pub create_role : String → String → Bool → List String → Call Roles RbacError Role
  unfolding insert_role get_role
  create_role name description is_system permissions = do
    id ← insert_role name description is_system permissions
    get_role id

  unfoldable pub update_role : ℕ → String → Option (List String) → Call Roles RbacError Role
  unfolding write_role get_role
  update_role id description permissions = do
    change (write_role id description permissions)
    get_role id

-- DeleteRole, with what the foreign keys cascade to.
unfoldable pub delete_role : ℕ → Call Roles RbacError (Unit {0})
unfolding delete_where
delete_role id = change (λ s. record s {
  roles = delete_where (has_role_id id) s.roles;
  grants = delete_where (of_role id) s.grants;
  holdings = delete_where (λ h. h.role_id == id) s.holdings;
})

unfoldable pub user_exists : ℕ → Roles → Bool
unfolding exists_where
user_exists user_id s = exists_where (λ u. u == user_id) s.users

abbrev pub is_holding : ℕ → ℕ → Holding → Bool
is_holding user_id role_id h = h.user_id == user_id && h.role_id == role_id

-- AssignRole: ON CONFLICT DO NOTHING.
unfoldable pub assign_role : ℕ → ℕ → Call Roles RbacError (Unit {0})
unfolding exists_where
assign_role user_id role_id = change (λ s. record s {
  holdings =
      if exists_where (is_holding user_id role_id) s.holdings
      then s.holdings
      else s.holdings ++ record { user_id = user_id; role_id = role_id } ∷ [];
})

unfoldable pub unassign_role : ℕ → ℕ → Call Roles RbacError (Unit {0})
unfolding delete_where
unassign_role user_id role_id =
    change (λ s. record s { holdings = delete_where (is_holding user_id role_id) s.holdings })
