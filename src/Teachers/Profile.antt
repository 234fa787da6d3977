-- ===== src/Teachers/Profile.antt =====
-- teacher.go: the merge of a patch onto a profile, and the validation of a profile.
use Prim.Native.String.{String}
use text.Mathlib.Text.{◌==◌ as str_eq}
use find_language_tutor.Prelude.{
  ℕ, suc, Bool, true, false, not, ◌&&◌, ◌||◌, Option, none, some, List, [], ◌∷◌, ◌++◌, map,
  if◌then◌else◌, All, ◌≡◌, refl, ◌↔◌,
}
use find_language_tutor.Prelude.Int.{ℤ, pos, ltb_ℤ}
use find_language_tutor.Teachers.{
  Language, Experience, LanguageEntry, Fields, ProfileInput, ProfilePatch, Teacher, ProfileFault,
  required, bad_kind, bad_currency, negative_price, negative_trial_price, bad_timezone,
  bad_meeting_url, bad_language_role, blank_language, bad_language_level, duplicate_language,
  blank_focus, blank_experience, Url, Texts,
}

abbrev pub role_teaches : String
role_teaches = "teaches"

abbrev pub role_also_speaks : String
role_also_speaks = "also_speaks"

abbrev pub or_keep : {A : Type 0} → Option A → A → A
or_keep none old = old
or_keep (some new) old = new

abbrev pub or_else : {A : Type 0} → Option A → Option A → Option A
or_else none old = old
or_else (some new) old = some new

abbrev pub entry : String → Language → LanguageEntry
entry role l = record { role = role; code = l.code; name = l.name; level = l.level }

unfoldable pub merge_fields : Fields → ProfilePatch → Fields
merge_fields cur p = record {
  display_name = or_keep p.display_name cur.display_name;
  headline = or_keep p.headline cur.headline;
  kind = or_keep p.kind cur.kind;
  country_code = or_keep p.country_code cur.country_code;
  country_name = or_keep p.country_name cur.country_name;
  city = or_keep p.city cur.city;
  timezone = or_keep p.timezone cur.timezone;
  price_per_hour_minor = or_keep p.price_per_hour_minor cur.price_per_hour_minor;
  trial_price_minor = or_else p.trial_price_minor cur.trial_price_minor;
  currency = or_keep p.currency cur.currency;
  about = or_keep p.about cur.about;
  teaching_style = or_keep p.teaching_style cur.teaching_style;
  avatar_url = or_keep p.avatar_url cur.avatar_url;
  intro_video_url = or_keep p.intro_video_url cur.intro_video_url;
  video_thumbnail_url = or_keep p.video_thumbnail_url cur.video_thumbnail_url;
  meeting_url = or_keep p.meeting_url cur.meeting_url;
}

unfoldable pub merge_patch : Teacher → ProfilePatch → ProfileInput
unfolding merge_fields
merge_patch cur p = record {
  fields = merge_fields cur.row.fields p;
  languages =
      or_keep p.languages
        (map (entry role_teaches) cur.teaches ++ map (entry role_also_speaks) cur.also_speaks);
  focus = or_keep p.focus cur.focus;
  experience = or_keep p.experience cur.experience;
}

unfoldable pub valid_kind : String → Bool
valid_kind k = str_eq k "professional" || str_eq k "community"

unfoldable pub valid_role : String → Bool
valid_role r = str_eq r role_teaches || str_eq r role_also_speaks

unfoldable pub valid_level : String → Bool
valid_level l =
    str_eq l "native"
    || str_eq l "c2"
    || str_eq l "c1"
    || str_eq l "b2"
    || str_eq l "b1"
    || str_eq l "a2"
    || str_eq l "a1"

abbrev pub fault_if : Bool → ProfileFault → Option ProfileFault
fault_if true f = some f
fault_if false f = none

unfoldable pub is_negative : Option ℤ → Bool
is_negative none = false
is_negative (some v) = ltb_ℤ v (pos 0)

unfoldable pub is_web_url : Option Url → Bool
is_web_url none = false
is_web_url (some u) = (str_eq u.scheme "http" || str_eq u.scheme "https") && not (str_eq u.host "")

-- The first fault in the order of the checks.
unfoldable pub first_of : List (Option ProfileFault) → Option ProfileFault
first_of [] = none
first_of (o ∷ os) = or_else o (first_of os)

pub first_of-none :
    (os : List (Option ProfileFault)) → (first_of os ≡ none) ↔ All (λ o. o ≡ none) os
unfolding first_of
first_of-none [] = (λ h. tt, λ h. refl)
first_of-none (none ∷ os) = (λ h. (refl, (first_of-none os).0 h), λ h. (first_of-none os).1 h.1)
first_of-none (some f ∷ os) = (λ h. absurd (cc), λ h. absurd (cc (h.0)))

abbrev pub same_language : LanguageEntry → LanguageEntry → Bool
same_language l m = str_eq l.role m.role && str_eq l.code m.code

-- The keys of `seen` are the roles and codes of the entries before.
unfoldable pub is_seen : LanguageEntry → List LanguageEntry → Bool
is_seen l [] = false
is_seen l (m ∷ ms) = same_language l m || is_seen l ms

module _ (texts : Texts) where
  unfoldable pub blank : String → Bool
  blank s = str_eq (texts.trim_space s) ""

  unfoldable pub check_language : ℕ → List LanguageEntry → LanguageEntry → Option ProfileFault
  unfolding valid_role blank valid_level is_seen
  check_language i seen l =
      if not (valid_role l.role)
      then some (bad_language_role i)
      else if blank l.code || blank l.name
      then some (blank_language i)
      else if not (valid_level l.level)
      then some (bad_language_level i)
      else if is_seen l seen
      then some (duplicate_language i)
      else none

  unfoldable pub check_languages : ℕ → List LanguageEntry → List LanguageEntry → Option ProfileFault
  unfolding check_language
  check_languages i seen [] = none
  check_languages i seen (l ∷ ls) =
      or_else (check_language i seen l) (check_languages (suc i) (l ∷ seen) ls)

  unfoldable pub check_focus : ℕ → List String → Option ProfileFault
  unfolding blank
  check_focus i [] = none
  check_focus i (t ∷ ts) = or_else (fault_if (blank t) (blank_focus i)) (check_focus (suc i) ts)

  unfoldable pub check_experience : ℕ → List Experience → Option ProfileFault
  unfolding blank
  check_experience i [] = none
  check_experience i (e ∷ es) =
      or_else (fault_if (blank e.title || blank e.org || blank e.period) (blank_experience i))
        (check_experience (suc i) es)

  -- The loop over the required texts.
  abbrev pub required_checks : Fields → List (Option ProfileFault)
  required_checks f =
      fault_if (blank f.display_name) (required "display_name")
      ∷ fault_if (blank f.headline) (required "headline")
      ∷ fault_if (blank f.country_code) (required "country_code")
      ∷ fault_if (blank f.country_name) (required "country_name")
      ∷ fault_if (blank f.city) (required "city")
      ∷ fault_if (blank f.timezone) (required "timezone")
      ∷ []

  unfoldable pub check_required : Fields → Option ProfileFault
  unfolding first_of blank
  check_required f = first_of (required_checks f)

  unfoldable pub bad_link : String → Bool
  unfolding is_web_url
  bad_link url = not (str_eq url "") && not (is_web_url (texts.parse_url url))

  abbrev pub field_checks : Fields → List (Option ProfileFault)
  field_checks f =
      check_required f
      ∷ fault_if (not (valid_kind f.kind)) bad_kind
      ∷ fault_if (not (str_eq f.currency "UZS")) bad_currency
      ∷ fault_if (ltb_ℤ f.price_per_hour_minor (pos 0)) negative_price
      ∷ fault_if (is_negative f.trial_price_minor) negative_trial_price
      ∷ fault_if (not (texts.knows_zone f.timezone)) bad_timezone
      ∷ fault_if (bad_link f.meeting_url) bad_meeting_url
      ∷ []

  unfoldable pub check_fields : Fields → Option ProfileFault
  unfolding first_of check_required valid_kind is_negative bad_link
  check_fields f = first_of (field_checks f)

  -- `none` accepts.
  abbrev pub profile_checks : ProfileInput → List (Option ProfileFault)
  profile_checks input =
      check_fields input.fields
      ∷ check_languages 0 [] input.languages
      ∷ check_focus 0 input.focus
      ∷ check_experience 0 input.experience
      ∷ []

  unfoldable pub validate_profile : ProfileInput → Option ProfileFault
  unfolding first_of check_fields check_languages check_focus check_experience
  validate_profile input = first_of (profile_checks input)
