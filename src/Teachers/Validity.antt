-- ===== src/Teachers/Validity.antt =====
-- What the validation of a profile lets through.
use Prim.Native.String.{String}
use text.Mathlib.Text.{◌==◌ as str_eq}
use find_language_tutor.Prelude.{
  ℕ, suc, ◌≡◌, refl, ◌↔◌, ◌⊎◌, inl, inr, Bool, true, false, ◌||◌, Option, none, some, List, [], ◌∷◌,
  All, All-zip, arith, Bool-cases, Option-cases,
}
use find_language_tutor.Prelude.Int.{ℤ, pos, ◌≤ℤ◌}
use find_language_tutor.Teachers.{
  Experience, LanguageEntry, Fields, ProfileInput, Texts, ProfileFault, negative_trial_price,
  bad_meeting_url,
}
use find_language_tutor.Teachers.Profile.{
  valid_kind, valid_role, valid_level, blank, is_negative, is_web_url, bad_link, same_language,
  is_seen, check_language, check_languages, check_focus, check_experience, check_required,
  check_fields, required_checks, field_checks, profile_checks, first_of-none, validate_profile,
  fault_if,
}
use find_language_tutor.Teachers.Lists.{
  LanguagesDiffer, same_language_sym, check_languages-LanguagesDiffer,
}

module _ (texts : Texts) where
  abbrev pub Given : String → Type 0
  Given s = blank texts s ≡ false

  -- A price is not negative, where there is one.
  abbrev pub NotNegative : Option ℤ → Type 0
  NotNegative none = Unit
  NotNegative (some v) = pos 0 ≤ℤ v

  -- No link, or a web address.
  abbrev pub IsLink : String → Type 0
  IsLink url = (str_eq url "" ≡ true) ⊎ (is_web_url (texts.parse_url url) ≡ true)

  pub record FieldsAreValid (f : Fields) : Type 0 where
    pub display_name : Given f.display_name
    pub headline : Given f.headline
    pub country_code : Given f.country_code
    pub country_name : Given f.country_name
    pub city : Given f.city
    pub timezone : Given f.timezone
    pub kind : valid_kind f.kind ≡ true
    pub currency : str_eq f.currency "UZS" ≡ true
    pub price : pos 0 ≤ℤ f.price_per_hour_minor
    pub trial_price : NotNegative f.trial_price_minor
    pub zone : texts.knows_zone f.timezone ≡ true
    pub link : IsLink f.meeting_url

  abbrev pub LanguageIsValid : LanguageEntry → Type 0
  LanguageIsValid l =
      (valid_role l.role ≡ true) × Given l.code × Given l.name × (valid_level l.level ≡ true)

  abbrev pub ExperienceIsValid : Experience → Type 0
  ExperienceIsValid e = Given e.title × Given e.org × Given e.period

  pub record InputIsValid (input : ProfileInput) : Type 0 where
    pub fields : FieldsAreValid input.fields
    pub languages : All LanguageIsValid input.languages
    pub differ : LanguagesDiffer input.languages
    pub focus : All Given input.focus
    pub experience : All ExperienceIsValid input.experience

  fault_if-none : (b : Bool) (f : ProfileFault) → (fault_if b f ≡ none) ↔ (b ≡ false)
  fault_if-none true f = (λ h. absurd (cc), λ h. absurd (cc))
  fault_if-none false f = (λ h. refl, λ h. refl)

  check_focus_iff : (i : ℕ) (ts : List String) → (check_focus texts i ts ≡ none) ↔ All Given ts
  unfolding check_focus
  check_focus_iff i [] = (λ h. tt, λ h. refl)
  check_focus_iff i (t ∷ ts) = elim (Bool-cases (blank texts t)) [
    | inl e ↦ (λ h. absurd (ground (arith, e, h)), λ h. absurd (cc (e, h.0)))
    | inr e ↦ (
      λ h. (e, (check_focus_iff (suc i) ts).0 (ground (arith, e, h))),
      λ h. ground (arith, e, (check_focus_iff (suc i) ts).1 h.1),
    )
  ]

  check_experience_iff :
      (i : ℕ) (es : List Experience)
      → (check_experience texts i es ≡ none) ↔ All ExperienceIsValid es
  unfolding check_experience
  check_experience_iff i [] = (λ h. tt, λ h. refl)
  check_experience_iff i (e ∷ es) =
      let rest = check_experience_iff (suc i) es in
      elim (Bool-cases (blank texts e.title || blank texts e.org || blank texts e.period)) [
        | inl b ↦ (
          λ h. absurd (ground (arith, b, h)),
          λ h. absurd (ground (arith, b, h.0.0, h.0.1, h.0.2)),
        )
        | inr b ↦ (
          λ h. (
            (ground (arith, b), ground (arith, b), ground (arith, b)),
            rest.0 (ground (arith, b, h)),
          ),
          λ h. ground (arith, b, rest.1 h.1),
        )
      ]

  check_language_iff :
      (i : ℕ) (seen : List LanguageEntry) (l : LanguageEntry)
      → (check_language texts i seen l ≡ none) ↔ (LanguageIsValid l × (is_seen l seen ≡ false))
  unfolding check_language
  check_language_iff i seen l = (
    λ h. (
      (ground (arith, h), ground (arith, h), ground (arith, h), ground (arith, h)),
      ground (arith, h),
    ),
    λ h. ground (arith, h.0.0, h.0.1, h.0.2, h.0.3, h.1),
  )

  check_languages-valid :
      (i : ℕ) (seen ls : List LanguageEntry)
      → check_languages texts i seen ls ≡ none
      → All LanguageIsValid ls
  unfolding check_languages
  check_languages-valid i seen [] h = tt
  check_languages-valid i seen (l ∷ ls) h = elim (Option-cases (check_language texts i seen l)) [
    | inr (f, e) ↦ absurd (ground (arith, e, h))
    | inl e ↦ (
      ((check_language_iff i seen l).0 e).0,
      check_languages-valid (suc i) (l ∷ seen) ls (ground (arith, e, h)),
    )
  ]

  check_languages-none :
      (i : ℕ) (seen ls : List LanguageEntry)
      → All LanguageIsValid ls
      → All (λ l. is_seen l seen ≡ false) ls
      → LanguagesDiffer ls
      → check_languages texts i seen ls ≡ none
  unfolding check_languages is_seen
  check_languages-none i seen [] v u d = refl
  check_languages-none i seen (l ∷ ls) v u d = ground (
    arith,
    (check_language_iff i seen l).1 (v.0, u.0),
    check_languages-none (suc i) (l ∷ seen) ls v.1
        (All-zip (λ m. same_language l m ≡ false) (λ m. is_seen m seen ≡ false)
          (λ m. is_seen m (l ∷ seen) ≡ false) ls
          (λ m h k. ground (arith, same_language_sym m l h, k)) d.0 u.1)
        d.1,
  )

  check_languages_iff :
      (ls : List LanguageEntry)
      → (check_languages texts 0 [] ls ≡ none) ↔ (All LanguageIsValid ls × LanguagesDiffer ls)
  unfolding is_seen
  check_languages_iff ls = (
    λ h. (check_languages-valid 0 [] ls h, check_languages-LanguagesDiffer texts ls h),
    λ h. check_languages-none 0 [] ls h.0 (unseen ls) h.1,
  )
    where
      unseen : (ms : List LanguageEntry) → All (λ m. is_seen m [] ≡ false) ms
      unseen [] = tt
      unseen (m ∷ ms) = (refl, unseen ms)

  check_required_iff :
      (f : Fields)
      → (check_required texts f ≡ none) ↔ (
          Given f.display_name
          × Given f.headline
          × Given f.country_code
          × Given f.country_name
          × Given f.city
          × Given f.timezone)
  unfolding check_required
  check_required_iff f =
      let none_of = first_of-none (required_checks texts f) in
      (
        λ h.
            let a = none_of.0 h in
            (
              ground (arith, a.0),
              ground (arith, a.1.0),
              ground (arith, a.1.1.0),
              ground (arith, a.1.1.1.0),
              ground (arith, a.1.1.1.1.0),
              ground (arith, a.1.1.1.1.1.0),
            ),
        λ h. none_of.1 (
          ground (arith, h.0),
          (
            ground (arith, h.1),
            (
              ground (arith, h.2),
              (ground (arith, h.3), (ground (arith, h.4), (ground (arith, h.5), tt))),
            ),
          ),
        ),
      )

  not_negative_iff :
      (price : Option ℤ)
      → (fault_if (is_negative price) negative_trial_price ≡ none) ↔ NotNegative price
  unfolding is_negative
  not_negative_iff none = (λ h. tt, λ h. refl)
  not_negative_iff (some v) = (λ h. ground (arith, h), λ h. ground (arith, h))

  link_iff : (url : String) → (fault_if (bad_link texts url) bad_meeting_url ≡ none) ↔ IsLink url
  unfolding bad_link
  link_iff url = elim (Bool-cases (str_eq url "")) [
    | inl e ↦ (λ h. inl e, λ h. ground (arith, e))
    | inr e ↦ (
      λ h. inr (ground (arith, e, h)),
      λ h. elim h [ inl g ↦ absurd (cc (e, g)) | inr g ↦ ground (arith, e, g) ],
    )
  ]

  pub check_fields_iff : (f : Fields) → (check_fields texts f ≡ none) ↔ FieldsAreValid f
  unfolding check_fields
  check_fields_iff f = (
    λ h.
        let a = (first_of-none (field_checks texts f)).0 h in
        let r = (check_required_iff f).0 a.0 in
        record {
          display_name = r.0;
          headline = r.1;
          country_code = r.2;
          country_name = r.3;
          city = r.4;
          timezone = r.5;
          kind = ground (arith, a.1.0);
          currency = ground (arith, a.1.1.0);
          price = ground (arith, a.1.1.1.0);
          trial_price = (not_negative_iff f.trial_price_minor).0 a.1.1.1.1.0;
          zone = ground (arith, a.1.1.1.1.1.0);
          link = (link_iff f.meeting_url).0 a.1.1.1.1.1.1.0;
        },
    λ h. (first_of-none (field_checks texts f)).1 (
      (check_required_iff f).1
          (h.display_name, h.headline, h.country_code, h.country_name, h.city, h.timezone),
      (
        ground (arith, h.kind),
        (
          ground (arith, h.currency),
          (
            ground (arith, h.price),
            (
              (not_negative_iff f.trial_price_minor).1 h.trial_price,
              (ground (arith, h.zone), ((link_iff f.meeting_url).1 h.link, tt)),
            ),
          ),
        ),
      ),
    ),
  )

  -- validateProfile accepts an input exactly when it is valid: the six required texts are not
  -- blank, the kind is professional or community, the currency is UZS, no price is negative, the
  -- time zone is known, the meeting link is empty or a web address with a host; every language
  -- has a role and a level of the lists and a code and a name that are not blank, no two have the
  -- same role and code; no tag is blank, and no part of an experience is.
  pub validate_profile_iff :
      (input : ProfileInput) → (validate_profile texts input ≡ none) ↔ InputIsValid input
  unfolding validate_profile
  validate_profile_iff input =
      let all = first_of-none (profile_checks texts input) in
      let langs = check_languages_iff input.languages in
      (
        λ h.
            let a = all.0 h in
            record {
              fields = (check_fields_iff input.fields).0 a.0;
              languages = (langs.0 a.1.0).0;
              differ = (langs.0 a.1.0).1;
              focus = (check_focus_iff 0 input.focus).0 a.1.1.0;
              experience = (check_experience_iff 0 input.experience).0 a.1.1.1.0;
            },
        λ h. all.1 (
          (check_fields_iff input.fields).1 h.fields,
          (
            langs.1 (h.languages, h.differ),
            (
              (check_focus_iff 0 input.focus).1 h.focus,
              ((check_experience_iff 0 input.experience).1 h.experience, tt),
            ),
          ),
        ),
      )
