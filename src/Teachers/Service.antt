-- ===== src/Teachers/Service.antt =====
-- service.go of the teachers module.
use Prim.Native.String.{String, ◌++◌ as text_append}
use find_language_tutor.Prelude.{
  ℕ, zero, suc, ◌+◌, Bool, true, false, not, ◌||◌, Option, none, some, ◌==◌,
}
use find_language_tutor.Prelude.Decimal.{decimal}
use find_language_tutor.Effect.{Fallible, ok, err, Call, pure, raise, ◌>>=◌, ◌>>◌, raise_if}
use find_language_tutor.Teachers.{
  TeacherStatus, approved, ProfileInput, ProfilePatch, ProfileFault, Teacher, Ref, Catalog,
  TeacherError, teacher_not_found, profile_exists, not_owner, no_free_slug, invalid_profile, Texts,
}
use find_language_tutor.Teachers.Slug.{slugify}
use find_language_tutor.Teachers.Profile.{merge_patch, validate_profile}
use find_language_tutor.Teachers.Repository as Repository

abbrev pub max_slug_dedupe_attempts : ℕ
max_slug_dedupe_attempts = 1000

-- The slug that is tried in round `i`.
unfoldable pub candidate : String → ℕ → String
unfolding decimal
candidate base zero = base
candidate base (suc i) = text_append base (String.◌∷◌ "-" (decimal (i + 2)))

abbrev pub choose :
    {A : Type 0}
    → Bool
    → Call Catalog TeacherError A
    → Call Catalog TeacherError A
    → Call Catalog TeacherError A
choose true m k s = m s
choose false m k s = k s

-- The loop of freeSlug, with the rounds that are left.
unfoldable pub try_slugs : ℕ → ℕ → String → Call Catalog TeacherError String
unfolding Repository.slug_exists
try_slugs zero i base = raise no_free_slug
try_slugs (suc rounds) i base = do
  exists ← Repository.slug_exists (candidate base i)
  choose exists (try_slugs rounds (suc i) base) (pure (candidate base i))

abbrev pub is_approved : TeacherStatus → Bool
is_approved approved = true
is_approved _ = false

abbrev pub is_given : {A : Type 0} → Option A → Bool
is_given none = false
is_given (some _) = true

abbrev pub accept : Option ProfileFault → Call Catalog TeacherError (Unit {0})
accept none = pure tt
accept (some f) = raise (invalid_profile f)

-- An account has one profile: the call goes on only where none is found.
abbrev pub refuse_second : Fallible TeacherError Ref → Call Catalog TeacherError (Unit {0})
refuse_second (ok ref) = raise profile_exists
refuse_second (err teacher_not_found) = pure tt
refuse_second (err e) = raise e

abbrev pub answer_of :
    {A : Type 0} → Call Catalog TeacherError A → Call Catalog TeacherError (Fallible TeacherError A)
answer_of m s = let (r, s') = m s in (ok r, s')

module _ (texts : Texts) where
  unfoldable pub get_by_slug : String → Call Catalog TeacherError Teacher
  unfolding Repository.get_by_slug
  get_by_slug slug = do
    t ← Repository.get_by_slug texts.collate slug
    raise_if (not (is_approved t.row.status)) teacher_not_found
    pure t

  unfoldable pub get_own_profile : ℕ → Call Catalog TeacherError Teacher
  unfolding Repository.ref_by_owner Repository.get_by_slug
  get_own_profile owner = do
    ref ← Repository.ref_by_owner owner
    Repository.get_by_slug texts.collate ref.slug

  unfoldable pub free_slug : String → Call Catalog TeacherError String
  unfolding slugify try_slugs
  free_slug display_name =
      try_slugs max_slug_dedupe_attempts 0 (slugify texts.to_lower display_name)

  unfoldable pub create : ℕ → ProfileInput → Call Catalog TeacherError Teacher
  unfolding Repository.ref_by_owner validate_profile free_slug Repository.create
      Repository.get_by_slug
  create owner input = do
    refuse_second (← answer_of (Repository.ref_by_owner owner))
    accept (validate_profile texts input)
    slug ← free_slug input.fields.display_name
    Repository.create owner slug input
    Repository.get_by_slug texts.collate slug

  unfoldable pub update : String → ℕ → ProfilePatch → Call Catalog TeacherError Teacher
  unfolding Repository.ref_by_slug Repository.get_by_slug merge_patch validate_profile
      Repository.update
  update slug acting_user patch = do
    ref ← Repository.ref_by_slug slug
    raise_if (ref.owner_id == 0 || not (ref.owner_id == acting_user)) not_owner
    current ← Repository.get_by_slug texts.collate slug
    let merged = merge_patch current patch
    accept (validate_profile texts merged)
    Repository.update ref.id (record {
      input = merged;
      replace_languages = is_given patch.languages;
      replace_focus = is_given patch.focus;
      replace_experience = is_given patch.experience;
    })
    Repository.get_by_slug texts.collate slug
