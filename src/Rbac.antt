-- ===== src/Rbac.antt =====
-- backend/internal/rbac: roles, the permissions that they grant, and who holds them (rbac.go,
-- permissions.go), with the tables of its repository.
pub mod Repository
pub mod Service
pub mod Changes
pub mod Steps
pub mod System
pub mod Access
mod Tests
use Prim.Native.String.{String}
use find_language_tutor.Prelude.{
  ℕ, Bool, true, false, Option, List, [], ◌∷◌, ◌++◌, map, if◌then◌else◌,
}
use find_language_tutor.Prelude.Order.{has_text}
use find_language_tutor.Effect.{Fallible, ok, err}

abbrev pub superadmin_role_name : String
superadmin_role_name = "superadmin"

-- A row of the roles table, of role_permissions and of user_roles.
pub record RoleRow : Type 0 where
  pub id : ℕ
  pub name : String
  pub description : String
  pub is_system : Bool
  pub created_at : ℕ

pub record Grant : Type 0 where
  pub role_id : ℕ
  pub permission : String

pub record Holding : Type 0 where
  pub user_id : ℕ
  pub role_id : ℕ

pub record Role : Type 0 where
  pub id : ℕ
  pub name : String
  pub description : String
  pub is_system : Bool
  pub created_at : ℕ
  pub permissions : List String
  pub user_count : ℕ

pub record RoleRef : Type 0 where
  pub id : ℕ
  pub name : String

pub record Roles : Type 0 where
  pub now : ℕ
  pub next_id : ℕ
  pub users : List ℕ
  pub roles : List RoleRow
  pub grants : List Grant
  pub holdings : List Holding

pub data RbacError : Type 0 where
  role_not_found role_exists role_locked role_in_use user_not_found invalid_name : RbacError
  unknown_permission : String → RbacError

pub record PermissionInfo : Type 0 where
  pub key : String
  pub description : String

abbrev pub info : String → String → PermissionInfo
info key description = record { key = key; description = description }

abbrev pub catalog : List PermissionInfo
catalog =
    info "metrics.view" "View the admin dashboard metrics."
    ∷ info "users.view" "View the user directory and user detail pages."
    ∷ info "users.manage_roles" "Assign and unassign roles on a user."
    ∷ info "teachers.view" "View teacher profiles in the admin moderation queue."
    ∷ info "teachers.moderate" "Approve, reject, and suspend teacher profiles."
    ∷ info "teachers.verify" "Grant or remove a teacher's verified badge."
    ∷ info "roles.manage" "Create, edit, and delete roles and their permissions."
    ∷ info "bookings.view" "View any booking on the platform."
    ∷ info "bookings.force_cancel" "Force-cancel a booking, with an optional refund."
    ∷ info "disputes.resolve" "View the dispute queue and resolve or reject disputes."
    ∷ info "payouts.view" "View the teacher payout ledger and past payout batches."
    ∷ info "payouts.run" "Run a payout batch, paying out every cleared teacher earning."
    ∷ info "reviews.moderate" "Hide or remove reviews (not yet wired to an endpoint)."
    ∷ []

-- AllPermissions.
unfoldable pub all_permissions : List String
all_permissions = map (λ i. i.key) catalog

unfoldable pub valid_permission : String → Bool
unfolding all_permissions has_text
valid_permission key = has_text key all_permissions

-- The loop of validatePermissions; `seen` holds what `out` does.
unfoldable pub collect : List String → List String → Fallible RbacError (List String)
unfolding valid_permission has_text
collect out [] = ok out
collect out (k ∷ ks) =
    let rest = collect (if has_text k out then out else out ++ k ∷ []) ks in
    if valid_permission k then rest else err (unknown_permission k)

unfoldable pub validate_permissions : List String → Fallible RbacError (List String)
unfolding collect
validate_permissions keys = collect [] keys

-- containsPermission.
unfoldable pub contains_permission : List String → String → Bool
unfolding has_text
contains_permission set p = has_text p set
