-- ===== src/Rbac/Service.antt =====
-- service.go of the rbac module, and the guard of guard.go. `trim_space` is strings.TrimSpace.
use Prim.Native.String.{String}
use Prim.Native.Nat.{Ordering}
use Prim.Native.String as Text
use find_language_tutor.Prelude.{
  ℕ, Bool, true, false, not, ◌&&◌, Option, none, some, List, ltb, if◌then◌else◌,
}
use find_language_tutor.Prelude.Order.{sort_with}
use find_language_tutor.Prelude.Rows.{exists_where}
use text.Mathlib.Text.{◌==◌ as str_eq}
use find_language_tutor.Effect.{Fallible, ok, err, Call, gets, ◌>>=◌, ◌>>◌, raise_if}
use find_language_tutor.Rbac.{
  Role, RoleRef, Roles, RbacError, role_locked, role_in_use, user_not_found, invalid_name,
  superadmin_role_name, all_permissions, validate_permissions, contains_permission,
}
use find_language_tutor.Rbac.Repository as Repository

-- The bytewise order of sort.Strings.
abbrev pub text_before : String → String → Bool
text_before a b = elim (Text.compare a b) [ Ordering.gt ↦ false | _ ↦ true ]

abbrev pub is_superadmin : RoleRef → Bool
is_superadmin r = str_eq r.name superadmin_role_name

abbrev pub is_given : {A : Type 0} → Option A → Bool
is_given none = false
is_given (some _) = true

-- The checked permissions of a request that may leave them out.
unfoldable pub validate_optional : Option (List String) → Fallible RbacError (Option (List String))
unfolding validate_permissions
validate_optional none = ok none
validate_optional (some ps) = elim (validate_permissions ps) [ ok v ↦ ok (some v) | err e ↦ err e ]

abbrev pub new_description : (String → String) → Role → Option String → String
new_description trim_space role none = role.description
new_description trim_space role (some d) = trim_space d

pub data Access : Type 0 where
  unauthorized forbidden allowed : Access

module _ (collate : String → String → Bool) where
  unfoldable pub permissions_for : ℕ → Roles → List String
  unfolding Repository.role_refs_for_user Repository.permission_keys_for_user exists_where
      all_permissions
  permissions_for user_id s =
      if exists_where is_superadmin (Repository.role_refs_for_user collate user_id s)
      then all_permissions
      else Repository.permission_keys_for_user collate user_id s

  -- What the auth module's port gets.
  unfoldable pub permission_keys_for : ℕ → Roles → List String
  unfolding permissions_for sort_with
  permission_keys_for user_id s = sort_with text_before (permissions_for user_id s)

  unfoldable pub delete_role : ℕ → Call Roles RbacError (Unit {0})
  unfolding Repository.get_role Repository.delete_role
  delete_role id = do
    role ← Repository.get_role collate id
    raise_if role.is_system role_locked
    raise_if (ltb 0 role.user_count) role_in_use
    Repository.delete_role id

  unfoldable pub assign_role : ℕ → ℕ → Call Roles RbacError (Unit {0})
  unfolding Repository.user_exists Repository.get_role Repository.assign_role
  assign_role user_id role_id = do
    known ← gets (Repository.user_exists user_id)
    raise_if (not known) user_not_found
    Repository.get_role collate role_id
    Repository.assign_role user_id role_id

  unfoldable pub unassign_role : ℕ → ℕ → Call Roles RbacError (Unit {0})
  unfolding Repository.user_exists Repository.get_role Repository.unassign_role
  unassign_role user_id role_id = do
    known ← gets (Repository.user_exists user_id)
    raise_if (not known) user_not_found
    Repository.get_role collate role_id
    Repository.unassign_role user_id role_id

  -- Guard.Require, for the user that the access token names.
  unfoldable pub require : Option ℕ → String → Roles → Access
  unfolding permissions_for contains_permission
  require none perm s = unauthorized
  require (some user_id) perm s =
      if contains_permission (permissions_for user_id s) perm then allowed else forbidden

module _ (collate : String → String → Bool) (trim_space : String → String) where
  unfoldable pub create_role : String → String → List String → Call Roles RbacError Role
  unfolding validate_permissions
  create_role name description permissions = do
    let name' = trim_space name
    raise_if (str_eq name' "") invalid_name
    perms ← λ s. (validate_permissions permissions, s)
    Repository.create_role collate name' (trim_space description) false perms

  unfoldable pub update_role : ℕ → Option String → Option (List String) → Call Roles RbacError Role
  unfolding Repository.get_role validate_optional Repository.update_role
  update_role id description permissions = do
    role ← Repository.get_role collate id
    raise_if (is_given permissions && role.is_system) role_locked
    validated ← λ s. (validate_optional permissions, s)
    Repository.update_role collate id (new_description trim_space role description) validated
