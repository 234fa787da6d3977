-- ===== src/Rbac/System.antt =====
-- System roles over time.
use Prim.Native.String.{String}
use find_language_tutor.Prelude.{
  subst, ◌∙◌, ℕ, ◌<◌, ◌≡◌, ◌⊎◌, inl, inr, refl, Bool, true, false, ◌&&◌, Option, none, some, List,
  [], ◌∷◌, ◌++◌, arith, Bool-cases, ◌==◌, if◌then◌else◌,
}
use find_language_tutor.Prelude.Rows.{
  first_where, delete_where, first_where-delete_where, first_where-append, first_where-update_where,
}
use find_language_tutor.Effect.{ok}
use find_language_tutor.Rbac.{RoleRow, Grant, Roles}
use find_language_tutor.Rbac.Repository.{
  has_role_id, of_role, role_keys, add_permission, add_permissions, replace_permissions, write_role,
}
use find_language_tutor.Rbac.Service.{is_given, validate_optional, assign_role, unassign_role}
use find_language_tutor.Rbac.Changes.{
  inserted, deleted, create_role-Creates, update_role-Writes, delete_role-Deletes, SameRoles,
  assign_role-SameRoles, unassign_role-SameRoles,
}
use find_language_tutor.Rbac.Steps.{
  Step, created, updated, removed, assigned, unassigned, Reach, here, next,
}

-- The system role keeps its name and its permissions.
pub record IsKept (id : ℕ) (name : String) (keys : List String) (s : Roles) : Type 0 where
  pub row : RoleRow
  pub found : first_where (has_role_id id) s.roles ≡ some row
  pub named : row.name ≡ name
  pub system : row.is_system ≡ true
  pub granted : role_keys id s.grants ≡ keys
  pub old : id < s.next_id

role_keys-append :
    (id other : ℕ) (p : String) (gs : List Grant)
    → (id == other) ≡ false
    → role_keys id (gs ++ record { role_id = other; permission = p } ∷ []) ≡ role_keys id gs
unfolding role_keys
role_keys-append id other p [] apart = ground (arith, apart)
role_keys-append id other p (g ∷ gs) apart = ground (arith, role_keys-append id other p gs)

role_keys-add_permission :
    (id other : ℕ) (p : String) (gs : List Grant)
    → (id == other) ≡ false
    → role_keys id (add_permission other p gs) ≡ role_keys id gs
unfolding add_permission
role_keys-add_permission id other p gs apart = ground (arith, role_keys-append id other p gs apart)

role_keys-add_permissions :
    (id other : ℕ) (ps : List String) (gs : List Grant)
    → (id == other) ≡ false
    → role_keys id (add_permissions other ps gs) ≡ role_keys id gs
unfolding add_permissions
role_keys-add_permissions id other [] gs apart = refl
role_keys-add_permissions id other (p ∷ ps) gs apart =
    role_keys-add_permissions id other ps (add_permission other p gs) apart
    ∙ role_keys-add_permission id other p gs apart

role_keys-delete_where :
    (id other : ℕ) (gs : List Grant)
    → (id == other) ≡ false
    → role_keys id (delete_where (of_role other) gs) ≡ role_keys id gs
unfolding role_keys delete_where
role_keys-delete_where id other [] apart = refl
role_keys-delete_where id other (g ∷ gs) apart = ground (arith, role_keys-delete_where id other gs)

role_keys-replace_permissions :
    (id other : ℕ) (v : Option (List String)) (gs : List Grant)
    → ((id == other) ≡ false) ⊎ (v ≡ none)
    → role_keys id (replace_permissions other v gs) ≡ role_keys id gs
unfolding replace_permissions
role_keys-replace_permissions id other none gs apart = refl
role_keys-replace_permissions id other (some ps) gs (inr e) = absurd (cc)
role_keys-replace_permissions id other (some ps) gs (inl apart) =
    role_keys-add_permissions id other ps (delete_where (of_role other) gs) apart
    ∙ role_keys-delete_where id other gs apart

module _ (id : ℕ) (name : String) (keys : List String) where
  inserted-IsKept :
      (name' description : String) (v : List String) (s : Roles)
      → IsKept id name keys s
      → IsKept id name keys (inserted name' description v s)
  unfolding inserted
  inserted-IsKept name' description v s k = record {
    row = k.row;
    found = first_where-append (has_role_id id) s.roles _ k.row k.found;
    named = k.named;
    system = k.system;
    granted = role_keys-add_permissions id s.next_id v s.grants (ground (arith, k.old)) ∙ k.granted;
    old = omega (arith, k.old);
  }

  write_role-IsKept :
      (other : ℕ) (description : String) (v : Option (List String)) (s : Roles)
      → ((id == other) ≡ false) ⊎ (v ≡ none)
      → IsKept id name keys s
      → IsKept id name keys (write_role other description v s)
  unfolding write_role
  write_role-IsKept other description v s apart k =
      let row : RoleRow = record k.row { description = description } in
      let rows =
        first_where-update_where (has_role_id id) (has_role_id other)
          (λ r. record r { description = description }) s.roles (λ r. refl) in
      record {
        row = if has_role_id other k.row then row else k.row;
        found = ground (arith, rows, k.found);
        named = ground (arith, k.named);
        system = ground (arith, k.system);
        granted = role_keys-replace_permissions id other v s.grants apart ∙ k.granted;
        old = k.old;
      }

  deleted-IsKept :
      (other : ℕ) (s : Roles)
      → (id == other) ≡ false
      → IsKept id name keys s
      → IsKept id name keys (deleted other s)
  unfolding deleted
  deleted-IsKept other s apart k = record {
    row = k.row;
    found =
        first_where-delete_where (has_role_id id) (has_role_id other) s.roles
          (λ r e. ground (arith, e, apart))
        ∙ k.found;
    named = k.named;
    system = k.system;
    granted = role_keys-delete_where id other s.grants apart ∙ k.granted;
    old = k.old;
  }

  same-IsKept : (s t : Roles) → SameRoles s t → IsKept id name keys s → IsKept id name keys t
  same-IsKept s t same k = record {
    row = k.row;
    found = rw same.0 k.found;
    named = k.named;
    system = k.system;
    granted = rw same.1 k.granted;
    old = rw same.2 k.old;
  }

  -- A row that the system role's id finds is its own.
  kept_row :
      (other : ℕ) (r : RoleRow) (s : Roles)
      → first_where (has_role_id other) s.roles ≡ some r
      → (id == other) ≡ true
      → IsKept id name keys s
      → r.is_system ≡ true
  kept_row other r s at e k =
      let same : id ≡ other = ground (arith, e) in
      let found = subst (λ i. first_where (has_role_id i) s.roles ≡ some k.row) same k.found in
      ground (arith, at, found, k.system)

  kept_apart :
      (other : ℕ) (r : RoleRow) (s : Roles)
      → first_where (has_role_id other) s.roles ≡ some r
      → r.is_system ≡ false
      → IsKept id name keys s
      → (id == other) ≡ false
  kept_apart other r s at free k = elim (Bool-cases (id == other)) [
    | inl e ↦ absurd (ground (arith, free, kept_row other r s at e k))
    | inr e ↦ e
  ]

  kept_free :
      (other : ℕ) (r : RoleRow) (permissions v : Option (List String)) (s : Roles)
      → first_where (has_role_id other) s.roles ≡ some r
      → (is_given permissions && r.is_system) ≡ false
      → validate_optional permissions ≡ ok v
      → IsKept id name keys s
      → ((id == other) ≡ false) ⊎ (v ≡ none)
  unfolding validate_optional
  kept_free other r none v s at free valid k = inr (ground (arith, valid))
  kept_free other r (some ps) v s at free valid k =
      inl (kept_apart other r s at (ground (arith, free)) k)

  module _ (collate : String → String → Bool) (trim_space : String → String) where
    Step-IsKept :
        {s t : Roles} → Step collate trim_space s t → IsKept id name keys s → IsKept id name keys t
    Step-IsKept (created name' description permissions s) k =
        elim (create_role-Creates collate trim_space name' description permissions s) [
          | inl same ↦ rw same k
          | inr (v, valid, e) ↦
              rw e (inserted-IsKept (trim_space name') (trim_space description) v s k)
        ]
    Step-IsKept (updated other description permissions s) k =
        elim (update_role-Writes collate trim_space other description permissions s) [
          | inl same ↦ rw same k
          | inr (r, d, v, at, free, valid, e) ↦
              rw e (
                write_role-IsKept other d v s (kept_free other r permissions v s at free valid k) k)
        ]
    Step-IsKept (removed other s) k = elim (delete_role-Deletes collate other s) [
      | inl same ↦ rw same k
      | inr (r, at, free, e) ↦ rw e (deleted-IsKept other s (kept_apart other r s at free k) k)
    ]
    Step-IsKept (assigned user_id role_id s) k =
        same-IsKept s (assign_role collate user_id role_id s).1
          (assign_role-SameRoles collate user_id role_id s) k
    Step-IsKept (unassigned user_id role_id s) k =
        same-IsKept s (unassign_role collate user_id role_id s).1
          (unassign_role-SameRoles collate user_id role_id s) k

    -- Whatever the calls, a system role is never deleted, and keeps its name and its permissions.
    pub Reach-IsKept :
        {s t : Roles} → Reach collate trim_space s t → IsKept id name keys s → IsKept id name keys t
    Reach-IsKept here k = k
    Reach-IsKept (next r st) k = Step-IsKept st (Reach-IsKept r k)
