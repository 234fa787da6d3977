-- ===== src/Teachers/Tests.antt =====
-- The theorems on profiles, at a catalogue of one teacher and a second of the same name.
use Prim.Native.String.{String}
use Prim.Native.String as Text
use Prim.Native.Nat.{Ordering}
use find_language_tutor.Prelude.{
  ℕ, ◌<◌, ◌≡◌, ◌↔◌, refl, true, false, none, some, [], ◌∷◌, length, All, arith,
}
use find_language_tutor.Prelude.Int.{pos}
use find_language_tutor.Prelude.Rows.{first_where}
use find_language_tutor.Effect.{ok, err}
use find_language_tutor.Teachers.{
  approved, Fields, ProfileInput, TeacherRow, Teacher, Catalog, Texts, teacher_not_found,
  invalid_transition, bad_kind,
}
use find_language_tutor.Teachers.Slug.{slugify}
use find_language_tutor.Teachers.Grammar.{IsSlug, slugify-IsSlug}
use find_language_tutor.Teachers.Profile.{check_fields, validate_profile}
use find_language_tutor.Teachers.Service.{
  candidate, free_slug, create, get_own_profile, get_by_slug,
}
use find_language_tutor.Teachers.Moderation.{approve, reject, suspend}
use find_language_tutor.Teachers.Naming.{Free, Taken, free_slug_finds}
use find_language_tutor.Teachers.Steps.{
  IsConsistent, Reach, here, next, was_approved, was_suspended, Reach-IsConsistent,
}
use find_language_tutor.Teachers.Lives.{Lives, Reach-Lives}
use find_language_tutor.Teachers.Publishing.{IsAsAsked, unpublished_row, create_publishes}
use find_language_tutor.Teachers.Validity.{InputIsValid, validate_profile_iff}
use find_language_tutor.Teachers.Search.{ListParams, ListResult, list}
use find_language_tutor.Teachers.Filters.{Passes, Count}
use find_language_tutor.Teachers.Listing.{on_page, list_shows}

abbrev texts : Texts
texts = record {
  trim_space = λ s. s;
  to_lower = λ s. s;
  knows_zone = λ s. true;
  parse_url = λ s. none;
  collate = λ s t. elim (Text.compare s t) [ Ordering.gt ↦ false | _ ↦ true ];
}

abbrev fields : Fields
fields = record {
  display_name = "nodira karimova";
  headline = "English with Nodira";
  kind = "professional";
  country_code = "UZ";
  country_name = "Uzbekistan";
  city = "Tashkent";
  timezone = "Asia/Tashkent";
  price_per_hour_minor = pos 9000000;
  trial_price_minor = none;
  currency = "UZS";
  about = "";
  teaching_style = "";
  avatar_url = "";
  intro_video_url = "";
  video_thumbnail_url = "";
  meeting_url = "";
}

abbrev nodira : TeacherRow
nodira = record {
  id = 1;
  slug = "nodira-karimova";
  user_id = some 7;
  fields = fields;
  status = approved;
  verified = true;
  moderation_note = "";
  rating = 48;
  review_count = 3;
  lessons_completed = 20;
  student_count = 4;
  response_time_hours = 2;
  accepting_students = true;
}

abbrev academy : Catalog
academy = record {
  next_id = 2;
  teachers = nodira ∷ [];
  languages =
      record {
        teacher_id = 1;
        role = "teaches";
        code = "en";
        name = "English";
        level = "c2";
        position = 0;
      }
      ∷ [];
  focus = record { teacher_id = 1; tag = "IELTS"; position = 0 } ∷ [];
  experience = [];
}

abbrev request : ProfileInput
request = record {
  fields = fields;
  languages =
      record { role = "also_speaks"; code = "ru"; name = "Russian"; level = "native" }
      ∷ record { role = "teaches"; code = "en"; name = "English"; level = "c1" }
      ∷ [];
  focus = "IELTS" ∷ "Kids" ∷ [];
  experience = record { title = "Tutor"; org = "School"; period = "2020" } ∷ [];
}

abbrev search : ListParams
search = record {
  language = "en";
  kind = "";
  max_price_minor = some (pos 9000000);
  q = "";
  sort = "recommended";
  page = pos 1;
  page_size = pos 0;
}

tidy : slugify (λ s. s) "c++ & go tutor" ≡ "c-go-tutor"
unfolding slugify
tidy = refl

nothing_left : slugify (λ s. s) "---" ≡ "teacher"
unfolding slugify
nothing_left = refl

second_slug : free_slug texts "nodira karimova" academy ≡ (ok "nodira-karimova-2", academy)
unfolding free_slug candidate
second_slug = refl

accepted : validate_profile texts request ≡ none
unfolding validate_profile
accepted = refl

bad :
    validate_profile texts (record request { fields = record fields { kind = "x" } })
    ≡ some bad_kind
unfolding validate_profile
bad = refl

not_pending : reject texts "nodira-karimova" "no" academy ≡ (err invalid_transition, academy)
unfolding reject
not_pending = refl

slugify-IsSlug_example :
    let s = slugify (λ s. s) "c++ & go tutor" in IsSlug s × (slugify (λ s. s) s ≡ s)
slugify-IsSlug_example = slugify-IsSlug (λ s. s) "c++ & go tutor" refl

free_slug_finds_example :
    (k : ℕ) × (free_slug texts "nodira karimova" academy
      ≡ (ok (candidate (slugify (λ s. s) "nodira karimova") k), academy))
    × Free (candidate (slugify (λ s. s) "nodira karimova") k) academy
    × ((j : ℕ) → j < k → Taken (candidate (slugify (λ s. s) "nodira karimova") j) academy)
free_slug_finds_example = free_slug_finds texts "nodira karimova" academy (omega arith)

create_publishes_example :
    (slug : String) × (t : Catalog) × (teacher : Teacher) × Free slug academy
    × (create texts 8 request academy ≡ (ok teacher, t))
    × IsAsAsked request (unpublished_row 2 8 slug request) teacher
    × (t.teachers ≡ nodira ∷ teacher.row ∷ [])
    × (get_own_profile texts 8 t ≡ (ok teacher, t))
    × (get_by_slug texts slug t ≡ (err teacher_not_found, t))
unfolding validate_profile first_where
create_publishes_example =
    create_publishes texts 8 request academy refl refl ((refl, tt), (tt, tt))
      (record { languages = (omega arith, tt); focus = (omega arith, tt); experience = tt })
      (omega arith)

consistent_fields : check_fields texts fields ≡ none
unfolding check_fields
consistent_fields = refl

abbrev consistent : IsConsistent texts academy
consistent = record { rows = ((omega arith, consistent_fields, refl), tt); apart = (tt, tt) }

suspended_then_back :
    Reach texts academy
      (approve texts "nodira-karimova" (suspend texts "nodira-karimova" "late" academy).1).1
suspended_then_back =
    next (next here (was_suspended "nodira-karimova" "late" academy))
      (was_approved "nodira-karimova" (suspend texts "nodira-karimova" "late" academy).1)

Reach-IsConsistent_example :
    IsConsistent texts
      (approve texts "nodira-karimova" (suspend texts "nodira-karimova" "late" academy).1).1
Reach-IsConsistent_example = Reach-IsConsistent texts suspended_then_back consistent

Reach-Lives_example : Lives suspended_then_back
Reach-Lives_example = Reach-Lives texts suspended_then_back consistent

validate_profile_iff_example : (validate_profile texts request ≡ none) ↔ InputIsValid texts request
validate_profile_iff_example = validate_profile_iff texts request

list_shows_example :
    (result : ListResult) × (list texts (λ s q. true) search academy ≡ (ok result, academy))
    × All (λ (t : Teacher). Passes (λ s q. true) search academy t.row) result.teachers
    × Count (Passes (λ s q. true) search academy) (nodira ∷ []) result.total
    × (length result.teachers ≡ on_page 20 0 result.total)
list_shows_example = list_shows texts (λ s q. true) search academy (omega arith)
