-- ===== src/Teachers/Moderation.antt =====
-- backend/internal/admin/service.go: an operator's actions on profiles, with the queries beneath
-- them in repository_postgres.go.
use Prim.Native.String.{String}
use text.Mathlib.Text.{◌==◌ as str_eq}
use find_language_tutor.Prelude.{Bool, true, false, not}
use find_language_tutor.Prelude.Rows.{first_where, update_where}
use find_language_tutor.Effect.{Call, gets, or_raise, ◌>>=◌, ◌>>◌, change, raise_if}
use find_language_tutor.Teachers.{
  TeacherStatus, pending, approved, rejected, suspended, TeacherRow, Teacher, Catalog, TeacherError,
  teacher_not_found, invalid_transition, note_required, Texts,
}
use find_language_tutor.Teachers.Repository.{has_slug}
use find_language_tutor.Teachers.Repository as Repository

-- GetModeration: the row itself, of which the handler shows the state, the badge and the note.
unfoldable pub get_moderation : String → Call Catalog TeacherError TeacherRow
unfolding first_where
get_moderation slug = do
  or_raise (← gets (λ s. first_where (has_slug slug) s.teachers)) teacher_not_found

unfoldable pub set_teacher_status :
    String → TeacherStatus → String → Call Catalog TeacherError (Unit {0})
unfolding update_where
set_teacher_status slug status note = change (λ s. record s {
  teachers =
      update_where (has_slug slug) (λ r. record r { status = status; moderation_note = note })
        s.teachers;
})

unfoldable pub set_teacher_verified : String → Bool → Call Catalog TeacherError (Unit {0})
unfolding update_where
set_teacher_verified slug verified = change (λ s. record s {
  teachers = update_where (has_slug slug) (λ r. record r { verified = verified }) s.teachers;
})

abbrev pub may_approve : TeacherStatus → Bool
may_approve approved = false
may_approve _ = true

abbrev pub may_reject : TeacherStatus → Bool
may_reject pending = true
may_reject _ = false

abbrev pub may_suspend : TeacherStatus → Bool
may_suspend approved = true
may_suspend _ = false

module _ (texts : Texts) where
  unfoldable pub get_teacher : String → Call Catalog TeacherError Teacher
  unfolding get_moderation Repository.get_by_slug
  get_teacher slug = do get_moderation slug; Repository.get_by_slug texts.collate slug

  unfoldable pub transition :
      String → TeacherStatus → String → (TeacherStatus → Bool) → Call Catalog TeacherError Teacher
  unfolding get_moderation set_teacher_status get_teacher
  transition slug to note allow = do
    r ← get_moderation slug
    raise_if (not (allow r.status)) invalid_transition
    set_teacher_status slug to note
    get_teacher slug

  unfoldable pub approve : String → Call Catalog TeacherError Teacher
  unfolding transition
  approve slug = transition slug approved "" may_approve

  unfoldable pub reject : String → String → Call Catalog TeacherError Teacher
  unfolding transition
  reject slug note = do
    raise_if (str_eq note "") note_required
    transition slug rejected note may_reject

  unfoldable pub suspend : String → String → Call Catalog TeacherError Teacher
  unfolding transition
  suspend slug note = do
    raise_if (str_eq note "") note_required
    transition slug suspended note may_suspend

  unfoldable pub set_verified : String → Bool → Call Catalog TeacherError Teacher
  unfolding get_moderation set_teacher_verified get_teacher
  set_verified slug verified = do
    get_moderation slug
    set_teacher_verified slug verified
    get_teacher slug
