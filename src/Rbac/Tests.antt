-- ===== src/Rbac/Tests.antt =====
-- The theorems on roles, at a user who holds the system role and one who holds another.
use Prim.Native.String.{String}
use find_language_tutor.Prelude.{
  ◌≡◌, ◌↔◌, ◌⊎◌, inl, inr, refl, true, false, none, some, [], ◌∷◌, arith,
}
use find_language_tutor.Effect.{err}
use find_language_tutor.Rbac.{RoleRow, Roles, role_locked, unknown_permission, all_permissions}
use find_language_tutor.Rbac.Service.{
  text_before, permissions_for, require, allowed, create_role, update_role, delete_role,
}
use find_language_tutor.Prelude.Rows.{first_where}
use find_language_tutor.Rbac.Repository.{role_keys}
use find_language_tutor.Rbac.Changes.{InCatalog}
use find_language_tutor.Rbac.Steps.{Reach, here, next, removed, created, GrantsInCatalog}
use find_language_tutor.Rbac.System.{IsKept, Reach-IsKept}
use find_language_tutor.Rbac.Access.{HoldsSuperadmin, IsGranted, require_iff}

abbrev system_role : RoleRow
system_role = record {
  id = 1;
  name = "superadmin";
  description = "";
  is_system = true;
  created_at = 0;
}

abbrev helpers : RoleRow
helpers = record { id = 2; name = "helpers"; description = ""; is_system = false; created_at = 0 }

abbrev office : Roles
office = record {
  now = 50;
  next_id = 3;
  users = 10 ∷ 11 ∷ [];
  roles = system_role ∷ helpers ∷ [];
  grants =
      record { role_id = 1; permission = "users.view" }
      ∷ record { role_id = 2; permission = "users.view" }
      ∷ [];
  holdings = record { user_id = 10; role_id = 1 } ∷ record { user_id = 11; role_id = 2 } ∷ [];
}

abbrev trim : String → String
trim s = s

in_catalog : GrantsInCatalog office.grants
unfolding all_permissions
in_catalog = (inr (inl refl), (inr (inl refl), tt))

-- The system role gives what is not granted to it.
full_catalog : permissions_for text_before 10 office ≡ all_permissions
unfolding permissions_for
full_catalog = refl

one_key : permissions_for text_before 11 office ≡ "users.view" ∷ []
unfolding permissions_for
one_key = refl

locked : update_role text_before trim 1 none (some []) office ≡ (err role_locked, office)
unfolding update_role
locked = refl

unknown :
    create_role text_before trim "x" "" ("a" ∷ []) office ≡ (err (unknown_permission "a"), office)
unfolding create_role
unknown = refl

require_iff_example :
    (require text_before (some 11) "users.view" office ≡ allowed)
    ↔ (InCatalog "users.view" × (HoldsSuperadmin 11 office ⊎ IsGranted 11 "users.view" office))
require_iff_example = require_iff text_before 11 "users.view" office in_catalog

abbrev changed : Roles
changed = (create_role text_before trim "staff" "" ("users.view" ∷ []) office).1

calls : Reach text_before trim office (delete_role text_before 1 changed).1
calls = next (next here (created "staff" "" ("users.view" ∷ []) office)) (removed 1 changed)

Reach-IsKept_example :
    IsKept 1 "superadmin" ("users.view" ∷ []) (delete_role text_before 1 changed).1
unfolding first_where role_keys
Reach-IsKept_example = Reach-IsKept 1 "superadmin" ("users.view" ∷ []) text_before trim calls kept
  where
    kept : IsKept 1 "superadmin" ("users.view" ∷ []) office
    kept = record {
      row = system_role;
      found = refl;
      named = refl;
      system = refl;
      granted = refl;
      old = omega arith;
    }
