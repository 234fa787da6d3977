-- ===== src/Teachers/Repository.antt =====
-- repository_postgres.go of the teachers module: the queries for profiles, and the transactions
-- that create and update them.
use Prim.Native.String.{String}
use text.Mathlib.Text.{◌==◌ as str_eq}
use find_language_tutor.Prelude.{
  ℕ, suc, Bool, true, false, not, ◌&&◌, ◌||◌, none, some, List, [], ◌∷◌, ◌++◌, map, ltb, ◌==◌,
  if◌then◌else◌,
}
use find_language_tutor.Prelude.Order.{sort_with}
use find_language_tutor.Prelude.Page.{select}
use find_language_tutor.Prelude.Rows.{first_where, update_where, delete_where, exists_where}
use find_language_tutor.Effect.{ok, err, Call, pure, gets, or_raise, ◌>>=◌, ◌>>◌, change, raise_if}
use find_language_tutor.Teachers.{
  Language, Experience, LanguageEntry, Fields, ProfileInput, ProfileUpdate, TeacherRow, LanguageRow,
  FocusRow, ExperienceRow, Teacher, Ref, Catalog, pending, TeacherError, teacher_not_found,
  database_error,
}
use find_language_tutor.Teachers.Profile.{role_teaches}

abbrev pub has_slug : String → TeacherRow → Bool
has_slug slug r = str_eq r.slug slug

abbrev pub has_id : ℕ → TeacherRow → Bool
has_id id r = r.id == id

abbrev pub owned_by : ℕ → TeacherRow → Bool
owned_by owner r = elim r.user_id [ none ↦ false | some u ↦ u == owner ]

abbrev pub ref_of : TeacherRow → Ref
ref_of r = record { id = r.id; slug = r.slug; owner_id = elim r.user_id [ none ↦ 0 | some u ↦ u ] }

unfoldable pub ref_by_slug : String → Call Catalog TeacherError Ref
unfolding first_where
ref_by_slug slug = do
  r ← or_raise (← gets (λ s. first_where (has_slug slug) s.teachers)) teacher_not_found
  pure (ref_of r)

unfoldable pub ref_by_owner : ℕ → Call Catalog TeacherError Ref
unfolding first_where
ref_by_owner owner = do
  r ← or_raise (← gets (λ s. first_where (owned_by owner) s.teachers)) teacher_not_found
  pure (ref_of r)

unfoldable pub slug_exists : String → Call Catalog TeacherError Bool
unfolding exists_where
slug_exists slug = gets (λ s. exists_where (has_slug slug) s.teachers)

abbrev pub is_taught : LanguageRow → Bool
is_taught l = str_eq l.role role_teaches

abbrev pub language_of_teacher : ℕ → LanguageRow → Bool
language_of_teacher id l = l.teacher_id == id

abbrev pub focus_of_teacher : ℕ → FocusRow → Bool
focus_of_teacher id t = t.teacher_id == id

abbrev pub experience_of_teacher : ℕ → ExperienceRow → Bool
experience_of_teacher id e = e.teacher_id == id

abbrev pub to_language : LanguageRow → Language
to_language l = record { code = l.code; name = l.name; level = l.level }

abbrev pub to_experience : ExperienceRow → Experience
to_experience e = record { title = e.title; org = e.org; period = e.period }

-- ORDER BY position, text.
abbrev pub placed_before : (String → String → Bool) → ℕ → String → ℕ → String → Bool
placed_before collate i s j t = ltb i j || (i == j && collate s t)

module _ (collate : String → String → Bool) where
  -- ORDER BY role, position, code, for the rows of one teacher.
  abbrev pub language_before : LanguageRow → LanguageRow → Bool
  language_before a b =
      if is_taught a
      then (if is_taught b then placed_before collate a.position a.code b.position b.code else true)
      else (if is_taught b
          then false
          else placed_before collate a.position a.code b.position b.code)

  abbrev pub focus_before : FocusRow → FocusRow → Bool
  focus_before a b = placed_before collate a.position a.tag b.position b.tag

  -- attachLanguages, attachFocus and attachExperience for one teacher.
  unfoldable pub attach : TeacherRow → Catalog → Teacher
  unfolding select sort_with
  attach r s =
      let langs = sort_with language_before (select (language_of_teacher r.id) s.languages) in
      record {
        row = r;
        teaches = map to_language (select is_taught langs);
        also_speaks = map to_language (select (λ l. not (is_taught l)) langs);
        focus = map (λ t. t.tag) (sort_with focus_before (select (focus_of_teacher r.id) s.focus));
        experience = map to_experience (
            sort_with (λ a b. ltb a.position b.position)
              (select (experience_of_teacher r.id) s.experience));
      }

  unfoldable pub get_by_slug : String → Call Catalog TeacherError Teacher
  unfolding first_where attach
  get_by_slug slug = do
    r ← or_raise (← gets (λ s. first_where (has_slug slug) s.teachers)) teacher_not_found
    gets (attach r)

-- What begins a transaction is undone where it fails.
abbrev pub transaction : {A : Type 0} → Call Catalog TeacherError A → Call Catalog TeacherError A
transaction m s = let (r, s') = m s in elim r [ ok a ↦ (ok a, s') | err e ↦ (err e, s) ]

-- The keys of the three tables are unique.
abbrev pub is_language : ℕ → LanguageEntry → LanguageRow → Bool
is_language id l r = r.teacher_id == id && str_eq r.role l.role && str_eq r.code l.code

abbrev pub language_row : ℕ → ℕ → LanguageEntry → LanguageRow
language_row id i l = record {
  teacher_id = id;
  role = l.role;
  code = l.code;
  name = l.name;
  level = l.level;
  position = i;
}

unfoldable pub insert_languages : ℕ → ℕ → List LanguageEntry → Call Catalog TeacherError (Unit {0})
unfolding exists_where
insert_languages id i [] = pure tt
insert_languages id i (l ∷ ls) = do
  taken ← gets (λ s. exists_where (is_language id l) s.languages)
  raise_if taken database_error
  change (λ s. record s { languages = s.languages ++ language_row id i l ∷ [] })
  insert_languages id (suc i) ls

abbrev pub is_focus : ℕ → String → FocusRow → Bool
is_focus id tag r = r.teacher_id == id && str_eq r.tag tag

abbrev pub focus_row : ℕ → ℕ → String → FocusRow
focus_row id i tag = record { teacher_id = id; tag = tag; position = i }

unfoldable pub insert_focus : ℕ → ℕ → List String → Call Catalog TeacherError (Unit {0})
unfolding exists_where
insert_focus id i [] = pure tt
insert_focus id i (t ∷ ts) = do
  taken ← gets (λ s. exists_where (is_focus id t) s.focus)
  raise_if taken database_error
  change (λ s. record s { focus = s.focus ++ focus_row id i t ∷ [] })
  insert_focus id (suc i) ts

abbrev pub experience_row : ℕ → ℕ → Experience → ExperienceRow
experience_row id i e = record {
  teacher_id = id;
  title = e.title;
  org = e.org;
  period = e.period;
  position = i;
}

unfoldable pub insert_experience : ℕ → ℕ → List Experience → Call Catalog TeacherError (Unit {0})
insert_experience id i [] = pure tt
insert_experience id i (e ∷ es) = do
  change (λ s. record s { experience = s.experience ++ experience_row id i e ∷ [] })
  insert_experience id (suc i) es

unfoldable pub insert_children : ℕ → ProfileInput → Call Catalog TeacherError (Unit {0})
unfolding insert_languages insert_focus insert_experience
insert_children id input = do
  insert_languages id 0 input.languages
  insert_focus id 0 input.focus
  insert_experience id 0 input.experience

-- CreateTeacher names no meeting_url, so the column has its default.
unfoldable pub new_teacher : ℕ → ℕ → String → Fields → TeacherRow
new_teacher id owner slug fields = record {
  id = id;
  slug = slug;
  user_id = some owner;
  fields = record fields { meeting_url = "" };
  status = pending;
  verified = false;
  moderation_note = "";
  rating = 0;
  review_count = 0;
  lessons_completed = 0;
  student_count = 0;
  response_time_hours = 0;
  accepting_students = true;
}

unfoldable pub create_teacher : ℕ → String → Fields → Call Catalog TeacherError ℕ
unfolding exists_where new_teacher
create_teacher owner slug fields = do
  taken ← gets (λ s. exists_where (has_slug slug) s.teachers)
  raise_if taken database_error
  id ← gets (λ s. s.next_id)
  change (λ s. record s {
    next_id = suc id;
    teachers = s.teachers ++ new_teacher id owner slug fields ∷ [];
  })
  pure id

unfoldable pub create : ℕ → String → ProfileInput → Call Catalog TeacherError ℕ
unfolding create_teacher insert_children
create owner slug input =
    transaction do id ← create_teacher owner slug input.fields; insert_children id input; pure id

abbrev pub when : Bool → Call Catalog TeacherError (Unit {0}) → Call Catalog TeacherError (Unit {0})
when true m = m
when false m = pure tt

unfoldable pub replace_languages : ℕ → List LanguageEntry → Call Catalog TeacherError (Unit {0})
unfolding delete_where insert_languages
replace_languages id ls = do
  change (λ s. record s { languages = delete_where (language_of_teacher id) s.languages })
  insert_languages id 0 ls

unfoldable pub replace_focus : ℕ → List String → Call Catalog TeacherError (Unit {0})
unfolding delete_where insert_focus
replace_focus id ts = do
  change (λ s. record s { focus = delete_where (focus_of_teacher id) s.focus })
  insert_focus id 0 ts

unfoldable pub replace_experience : ℕ → List Experience → Call Catalog TeacherError (Unit {0})
unfolding delete_where insert_experience
replace_experience id es = do
  change (λ s. record s { experience = delete_where (experience_of_teacher id) s.experience })
  insert_experience id 0 es

unfoldable pub update_teacher : ℕ → Fields → Call Catalog TeacherError (Unit {0})
unfolding update_where
update_teacher id fields = change (λ s. record s {
  teachers = update_where (has_id id) (λ r. record r { fields = fields }) s.teachers;
})

unfoldable pub update : ℕ → ProfileUpdate → Call Catalog TeacherError (Unit {0})
unfolding update_teacher replace_languages replace_focus replace_experience
update id upd = transaction do
  update_teacher id upd.input.fields
  when upd.replace_languages (replace_languages id upd.input.languages)
  when upd.replace_focus (replace_focus id upd.input.focus)
  when upd.replace_experience (replace_experience id upd.input.experience)
