-- ===== src/Teachers/Publishing.antt =====
-- A profile is created as it was asked for, and is not public before an operator approves it.
use Prim.Native.String.{String}
use find_language_tutor.Prelude.{
  ℕ, suc, ◌<◌, ◌≡◌, refl, ap, ◌∙◌, Bool, true, false, not, Option, none, some, [], ◌∷◌, ◌++◌,
  length, arith,
}
use text.Mathlib.TextPositions.{eq_refl}
use find_language_tutor.Prelude.Rows.{first_where, first_where-append_none, first_where-exists}
use find_language_tutor.Effect.{raise_if, ok, err, Call, pure, ◌>>=◌, bind-eq}
use find_language_tutor.Teachers.{
  ProfileInput, TeacherRow, Teacher, Catalog, Texts, TeacherStatus, pending, ProfileFault,
  TeacherError, teacher_not_found,
}
use find_language_tutor.Teachers.Slug.{slugify}
use find_language_tutor.Teachers.Profile.{validate_profile, profile_checks, first_of-none}
use find_language_tutor.Teachers.Repository.{
  has_slug, owned_by, new_teacher, is_language, is_focus, insert_languages, insert_focus,
  insert_experience, insert_children, language_of_teacher, focus_of_teacher, experience_of_teacher,
  attach,
}
use find_language_tutor.Teachers.Repository as Repository
use find_language_tutor.Teachers.Service.{
  candidate, free_slug, accept, answer_of, refuse_second, is_approved, create, get_own_profile,
  get_by_slug,
}
use find_language_tutor.Teachers.Naming.{Free, free_slug_finds}
use find_language_tutor.Teachers.Lists.{
  LanguagesDiffer, TagsDiffer, check_languages-LanguagesDiffer,
}
use find_language_tutor.Teachers.Reading.{
  taught, spoken_in, read_languages, read_focus, read_experience,
}
use find_language_tutor.Teachers.Storing.{
  ListsAreOld, stored, not_of, no_language, no_focus, insert_children_all,
}

-- The row of a new profile, column by column.
abbrev pub unpublished_row : ℕ → ℕ → String → ProfileInput → TeacherRow
unpublished_row id owner slug input = record {
  id = id;
  slug = slug;
  user_id = some owner;
  fields = record input.fields { meeting_url = "" };
  status = pending;
  verified = false;
  moderation_note = "";
  rating = 0;
  review_count = 0;
  lessons_completed = 0;
  student_count = 0;
  response_time_hours = 0;
  accepting_students = true;
}

-- The profile, as it is read back: its row, its languages by their roles, its tags and experience.
abbrev pub IsAsAsked : ProfileInput → TeacherRow → Teacher → Type 0
IsAsAsked input row t =
    (t.row ≡ row)
    × (t.teaches ≡ spoken_in taught input.languages)
    × (t.also_speaks ≡ spoken_in (λ l. not (taught l)) input.languages)
    × (t.focus ≡ input.focus)
    × (t.experience ≡ input.experience)

goes_on_unclaimed :
    {B : Type 0} (owner : ℕ) (k : Call Catalog TeacherError B) (s : Catalog)
    → first_where (owned_by owner) s.teachers ≡ none
    → (answer_of (Repository.ref_by_owner owner) >>= λ r. refuse_second r >>= λ a. k) s ≡ k s
unfolding Repository.ref_by_owner
goes_on_unclaimed owner k s e = rw e refl

goes_on_accepted :
    {B : Type 0} (o : Option ProfileFault) (k : Call Catalog TeacherError B) (s : Catalog)
    → o ≡ none
    → (accept o >>= λ a. k) s ≡ k s
goes_on_accepted o k s e = rw e refl

get_by_slug_found :
    (collate : String → String → Bool) (slug : String) (row : TeacherRow) (s : Catalog)
    → first_where (has_slug slug) s.teachers ≡ some row
    → Repository.get_by_slug collate slug s ≡ (ok (attach collate row s), s)
unfolding Repository.get_by_slug
get_by_slug_found collate slug row s e = rw e refl

attach-row :
    (collate : String → String → Bool) (row : TeacherRow) (s : Catalog)
    → (attach collate row s).row ≡ row
unfolding attach
attach-row collate row s = refl

unapproved : (x : TeacherStatus) → x ≡ pending → not (is_approved x) ≡ true
unapproved x e = rw e refl

-- The public page of a profile that waits for approval, and the owner's view.
hidden_pending :
    (texts : Texts) (slug : String) (row : TeacherRow) (s : Catalog)
    → first_where (has_slug slug) s.teachers ≡ some row
    → row.status ≡ pending
    → get_by_slug texts slug s ≡ (err teacher_not_found, s)
unfolding get_by_slug
hidden_pending texts slug row s e p =
    bind-eq (Repository.get_by_slug texts.collate slug)
      (λ t. raise_if (not (is_approved t.row.status)) teacher_not_found >>= λ a. pure t) s s
      (attach texts.collate row s) (get_by_slug_found texts.collate slug row s e)
    ∙ ap (λ b. (raise_if b teacher_not_found >>= λ a. pure (attach texts.collate row s)) s)
        (unapproved (attach texts.collate row s).row.status
          (ap (λ (r : TeacherRow). r.status) (attach-row texts.collate row s) ∙ p))

own_profile :
    (texts : Texts) (owner : ℕ) (row : TeacherRow) (s : Catalog)
    → first_where (owned_by owner) s.teachers ≡ some row
    → first_where (has_slug row.slug) s.teachers ≡ some row
    → get_own_profile texts owner s ≡ (ok (attach texts.collate row s), s)
unfolding get_own_profile Repository.ref_by_owner
own_profile texts owner row s e f =
    bind-eq (Repository.ref_by_owner owner) (λ ref. Repository.get_by_slug texts.collate ref.slug) s
      s (Repository.ref_of row) (rw e refl)
    ∙ get_by_slug_found texts.collate row.slug row s f

transaction-ok :
    {A : Type 0} (m : Call Catalog TeacherError A) (s t : Catalog) (a : A)
    → m s ≡ (ok a, t)
    → Repository.transaction m s ≡ (ok a, t)
transaction-ok m s t a e = ap (λ r. elim r.0 [ ok b ↦ (ok b, r.1) | err x ↦ (err x, s) ]) e

module _ (texts : Texts) (owner : ℕ) (input : ProfileInput) (s : Catalog)
    (alone : first_where (owned_by owner) s.teachers ≡ none)
    (valid : validate_profile texts input ≡ none) (tags : TagsDiffer input.focus)
    (old : ListsAreOld s) where
  languages_differ : LanguagesDiffer input.languages
  unfolding validate_profile
  languages_differ =
      check_languages-LanguagesDiffer texts input.languages
        ((first_of-none (profile_checks texts input)).0 valid).1.0

  repository-create_all :
      (slug : String)
      → Free slug s
      → Repository.create owner slug input s ≡ (ok s.next_id, stored owner slug input s)
  unfolding Repository.create Repository.create_teacher
  repository-create_all slug free =
      let t : Catalog = record s {
        next_id = suc s.next_id;
        teachers = s.teachers ++ new_teacher s.next_id owner slug input.fields ∷ [];
      } in
      transaction-ok
        (Repository.create_teacher owner slug input.fields >>= λ id.
          insert_children id input >>= λ a. pure id)
        s (stored owner slug input s) s.next_id
        (bind-eq (Repository.create_teacher owner slug input.fields)
            (λ id. insert_children id input >>= λ a. pure id) s t s.next_id (rw free refl)
          ∙ bind-eq (insert_children s.next_id input) (λ a. pure s.next_id) t
              (stored owner slug input s) tt
              (insert_children_all input s.next_id t
                (no_language s.next_id s.languages input.languages old.languages) languages_differ
                (no_focus s.next_id s.focus input.focus old.focus) tags))

  attach-stored :
      (slug : String)
      → let row = new_teacher s.next_id owner slug input.fields in
        IsAsAsked input
          (unpublished_row s.next_id owner slug input)
          (attach texts.collate row (stored owner slug input s))
  unfolding attach new_teacher
  attach-stored slug =
      let langs =
        read_languages texts.collate s.next_id s.languages input.languages
          (not_of (λ r. r.teacher_id) s.next_id s.languages old.languages) in
      (
        refl,
        langs.0,
        langs.1,
        read_focus texts.collate s.next_id s.focus input.focus
            (not_of (λ r. r.teacher_id) s.next_id s.focus old.focus),
        read_experience texts.collate s.next_id s.experience input.experience
            (not_of (λ r. r.teacher_id) s.next_id s.experience old.experience),
      )

  found_by_slug :
      (slug : String)
      → Free slug s
      → first_where (has_slug slug) (stored owner slug input s).teachers
        ≡ some (new_teacher s.next_id owner slug input.fields)
  unfolding new_teacher first_where
  found_by_slug slug free =
      first_where-append_none (has_slug slug) s.teachers
        (new_teacher s.next_id owner slug input.fields ∷ [])
        (first_where-exists (has_slug slug) s.teachers free)
      ∙ rw (eq_refl slug) refl

  found_by_owner :
      (slug : String)
      → first_where (owned_by owner) (stored owner slug input s).teachers
        ≡ some (new_teacher s.next_id owner slug input.fields)
  unfolding new_teacher first_where
  found_by_owner slug =
      first_where-append_none (owned_by owner) s.teachers
        (new_teacher s.next_id owner slug input.fields ∷ []) alone
      ∙ ground arith

  created :
      (slug : String)
      → free_slug texts input.fields.display_name s ≡ (ok slug, s)
      → Free slug s
      → create texts owner input s ≡ (
        ok (
            attach texts.collate
              (new_teacher s.next_id owner slug input.fields)
              (stored owner slug input s)),
        stored owner slug input s,
      )
  unfolding create
  created slug named free =
      let back : String → Call Catalog TeacherError Teacher = λ slug.
        Repository.create owner slug input >>= λ id. Repository.get_by_slug texts.collate slug in
      let named_then = free_slug texts input.fields.display_name >>= back in
      goes_on_unclaimed owner (accept (validate_profile texts input) >>= λ a. named_then) s alone
      ∙ goes_on_accepted (validate_profile texts input) named_then s valid
      ∙ bind-eq (free_slug texts input.fields.display_name) back s s slug named
      ∙ bind-eq (Repository.create owner slug input)
          (λ id. Repository.get_by_slug texts.collate slug) s (stored owner slug input s) s.next_id
          (repository-create_all slug free)
      ∙ get_by_slug_found texts.collate slug (new_teacher s.next_id owner slug input.fields)
          (stored owner slug input s) (found_by_slug slug free)

  own :
      (slug : String)
      → Free slug s
      → let t = stored owner slug input s in
        get_own_profile texts owner t
        ≡ (ok (attach texts.collate (new_teacher s.next_id owner slug input.fields) t), t)
  unfolding new_teacher
  own slug free =
      own_profile texts owner (new_teacher s.next_id owner slug input.fields)
        (stored owner slug input s) (found_by_owner slug) (found_by_slug slug free)

  pending_row : (slug : String) → (new_teacher s.next_id owner slug input.fields).status ≡ pending
  unfolding new_teacher
  pending_row slug = refl

  refl_row :
      (slug : String)
      → let row = new_teacher s.next_id owner slug input.fields in
        let t = stored owner slug input s in
        t.teachers ≡ s.teachers ++ (attach texts.collate row t).row ∷ []
  unfolding attach
  refl_row slug = refl

  -- Where an account owns no profile, there are fewer than a thousand, the stored lists belong to
  -- profiles that are stored, the input passes the validation and no tag stands in it twice:
  -- creating a profile succeeds under a free slug. The profile that is returned, and that the owner
  -- reads from then on, has the fields of the input but for the meeting link, which is empty,
  -- its languages by their roles, its tags and its experience in their order; it is pending and
  -- not verified, it is added behind the others, and its public page is not found.
  pub create_publishes :
      length s.teachers < 1000
      → (slug : String) × (t : Catalog) × (teacher : Teacher) × Free slug s
        × (create texts owner input s ≡ (ok teacher, t))
        × IsAsAsked input (unpublished_row s.next_id owner slug input) teacher
        × (t.teachers ≡ s.teachers ++ teacher.row ∷ [])
        × (get_own_profile texts owner t ≡ (ok teacher, t))
        × (get_by_slug texts slug t ≡ (err teacher_not_found, t))
  create_publishes few =
      let (k, named, free, before) = free_slug_finds texts input.fields.display_name s few in
      let slug = candidate (slugify texts.to_lower input.fields.display_name) k in
      let row = new_teacher s.next_id owner slug input.fields in
      let t = stored owner slug input s in
      let teacher = attach texts.collate row t in
      (
        slug,
        t,
        teacher,
        free,
        created slug named free,
        attach-stored slug,
        refl_row slug,
        own slug free,
        hidden_pending texts slug row t (found_by_slug slug free) (pending_row slug),
      )
