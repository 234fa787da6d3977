-- ===== src/Teachers/Changes.antt =====
-- The changes that a call may make to the profiles.
use Prim.Native.String.{String}
use text.Mathlib.Text.{◌==◌ as str_eq}
use find_language_tutor.Prelude.{ℕ, suc, ◌≡◌, ◌⊎◌, Bool, true, false, none, some, [], ◌∷◌, ◌++◌}
use find_language_tutor.Prelude.Rows.{first_where, update_where, exists_where}
use find_language_tutor.Teachers.{
  TeacherStatus, pending, approved, rejected, suspended, Fields, TeacherRow, Catalog, Texts,
}
use find_language_tutor.Teachers.Profile.{check_fields}
use find_language_tutor.Teachers.Repository.{has_slug, has_id, owned_by, new_teacher}

-- The moves of the moderation state.
pub data Edge : TeacherStatus → TeacherStatus → Type 0 where
  approve_new : Edge pending approved
  reject_new : Edge pending rejected
  suspend_live : Edge approved suspended
  reconsider : Edge rejected approved
  reinstate : Edge suspended approved

-- Approving clears the note; the other moves give one.
abbrev pub Noted : String → TeacherStatus → Type 0
Noted note to =
    (str_eq note "" ≡ true) × (to ≡ approved)
    ⊎ (str_eq note "" ≡ false) × ((to ≡ rejected) ⊎ (to ≡ suspended))

-- The profiles before and after a call.
pub data Change (texts : Texts) (s t : Catalog) : Type 0 where
  same : t.teachers ≡ s.teachers → t.next_id ≡ s.next_id → Change texts s t
  inserted :
      (owner : ℕ) (slug : String) (fields : Fields)
      → first_where (owned_by owner) s.teachers ≡ none
      → exists_where (has_slug slug) s.teachers ≡ false
      → check_fields texts fields ≡ none
      → t.teachers ≡ s.teachers ++ new_teacher s.next_id owner slug fields ∷ []
      → t.next_id ≡ suc s.next_id
      → Change texts s t
  written :
      (id : ℕ) (fields : Fields)
      → check_fields texts fields ≡ none
      → t.teachers ≡ update_where (has_id id) (λ r. record r { fields = fields }) s.teachers
      → t.next_id ≡ s.next_id
      → Change texts s t
  moderated :
      (slug note : String) (to : TeacherStatus) (r : TeacherRow)
      → first_where (has_slug slug) s.teachers ≡ some r
      → Edge r.status to
      → Noted note to
      → t.teachers
        ≡ update_where
            (has_slug slug)
            (λ r. record r { status = to; moderation_note = note })
            s.teachers
      → t.next_id ≡ s.next_id
      → Change texts s t
  badged :
      (slug : String) (verified : Bool)
      → t.teachers ≡ update_where (has_slug slug) (λ r. record r { verified = verified }) s.teachers
      → t.next_id ≡ s.next_id
      → Change texts s t
