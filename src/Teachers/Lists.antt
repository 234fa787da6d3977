-- ===== src/Teachers/Lists.antt =====
-- The lists of a profile: they are inserted as a whole, and read back in their order.
use Prim.Native.String.{String}
use text.Mathlib.Text.{◌==◌ as str_eq}
use text.Mathlib.TextEquality.{eq_iff}
use find_language_tutor.Prelude.{
  ℕ, suc, ◌≡◌, refl, ap, ◌∙◌, inl, inr, false, none, List, [], ◌∷◌, ◌++◌, All, All-map, All-zip,
  arith, Option-cases,
}
use mathlib.Core.List.{append_assoc, append-nil}
use find_language_tutor.Prelude.Rows.{exists_where, exists_where-append}
use find_language_tutor.Prelude.Pairs.{AllPairs}
use find_language_tutor.Effect.{ok}
use find_language_tutor.Teachers.{
  Experience, LanguageEntry, LanguageRow, FocusRow, ExperienceRow, Catalog, Texts,
}
use find_language_tutor.Teachers.Profile.{same_language, is_seen, check_language, check_languages}
use find_language_tutor.Teachers.Repository.{
  is_language, language_row, insert_languages, is_focus, focus_row, insert_focus, experience_row,
  insert_experience,
}

-- The rows that are written for a list.
abbrev pub language_rows : ℕ → ℕ → List LanguageEntry → List LanguageRow
language_rows id i [] = []
language_rows id i (l ∷ ls) = language_row id i l ∷ language_rows id (suc i) ls

abbrev pub focus_rows : ℕ → ℕ → List String → List FocusRow
focus_rows id i [] = []
focus_rows id i (t ∷ ts) = focus_row id i t ∷ focus_rows id (suc i) ts

abbrev pub experience_rows : ℕ → ℕ → List Experience → List ExperienceRow
experience_rows id i [] = []
experience_rows id i (e ∷ es) = experience_row id i e ∷ experience_rows id (suc i) es

-- No two entries with the same role and code; no tag twice.
abbrev pub LanguagesDiffer : List LanguageEntry → Type 0
LanguagesDiffer = AllPairs (λ l m. same_language l m ≡ false)

abbrev pub TagsDiffer : List String → Type 0
TagsDiffer = AllPairs (λ t u. str_eq t u ≡ false)

-- The validation finds every repetition.
pub same_language_sym :
    (l m : LanguageEntry) → same_language m l ≡ false → same_language l m ≡ false
same_language_sym l m h = ground (
  arith,
  h,
  eq_iff l.role m.role,
  eq_iff l.code m.code,
  eq_iff m.role l.role,
  eq_iff m.code l.code,
)

module _ (texts : Texts) where
  check_language-unseen :
      (i : ℕ) (seen : List LanguageEntry) (l : LanguageEntry)
      → check_language texts i seen l ≡ none
      → is_seen l seen ≡ false
  unfolding check_language
  check_language-unseen i seen l h = ground (arith, h)

  check_languages-unseen :
      (i : ℕ) (seen ls : List LanguageEntry)
      → check_languages texts i seen ls ≡ none
      → All (λ l. is_seen l seen ≡ false) ls × LanguagesDiffer ls
  unfolding check_languages is_seen
  check_languages-unseen i seen [] h = (tt, tt)
  check_languages-unseen i seen (l ∷ ls) h = elim (Option-cases (check_language texts i seen l)) [
    | inr (f, e) ↦ absurd (ground (arith, e, h))
    | inl e ↦
        let rest = check_languages-unseen (suc i) (l ∷ seen) ls (ground (arith, e, h)) in
        (
          (
            check_language-unseen i seen l e,
            All-map (λ m. is_seen m (l ∷ seen) ≡ false) (λ m. is_seen m seen ≡ false) ls
                (λ m k. ground (arith, k)) rest.0,
          ),
          (
            All-map (λ m. is_seen m (l ∷ seen) ≡ false) (λ m. same_language l m ≡ false) ls
                (λ m k. same_language_sym l m (ground (arith, k))) rest.0,
            rest.1,
          ),
        )
  ]

  pub check_languages-LanguagesDiffer :
      (ls : List LanguageEntry) → check_languages texts 0 [] ls ≡ none → LanguagesDiffer ls
  check_languages-LanguagesDiffer ls h = (check_languages-unseen 0 [] ls h).1

still_free :
    (id i : ℕ) (l m : LanguageEntry) (rows : List LanguageRow)
    → exists_where (is_language id m) rows ≡ false
    → same_language l m ≡ false
    → exists_where (is_language id m) (rows ++ language_row id i l ∷ []) ≡ false
unfolding exists_where
still_free id i l m rows h k =
    ground (arith, exists_where-append (is_language id m) rows (language_row id i l ∷ []), h, k)

-- What is inserted behind rows that do not have its keys.
pub insert_languages_all :
    (id i : ℕ) (ls : List LanguageEntry) (s : Catalog)
    → All (λ l. exists_where (is_language id l) s.languages ≡ false) ls
    → LanguagesDiffer ls
    → insert_languages id i ls s
      ≡ (ok tt, record s { languages = s.languages ++ language_rows id i ls })
unfolding insert_languages
insert_languages_all id i [] s free differ = rw (append-nil s.languages) refl
insert_languages_all id i (l ∷ ls) s free differ =
    let t : Catalog = record s { languages = s.languages ++ language_row id i l ∷ [] } in
    rw (free.0) (
      insert_languages_all id (suc i) ls t
        (All-zip (λ m. exists_where (is_language id m) s.languages ≡ false)
          (λ m. same_language l m ≡ false)
          (λ m. exists_where (is_language id m) t.languages ≡ false) ls
          (λ m h k. still_free id i l m s.languages h k) free.1 differ.0)
        differ.1
      ∙ ap (λ rows. (ok tt, record s { languages = rows }))
          (append_assoc s.languages (language_row id i l ∷ []) (language_rows id (suc i) ls)))

tag_still_free :
    (id i : ℕ) (t u : String) (rows : List FocusRow)
    → exists_where (is_focus id u) rows ≡ false
    → str_eq t u ≡ false
    → exists_where (is_focus id u) (rows ++ focus_row id i t ∷ []) ≡ false
unfolding exists_where
tag_still_free id i t u rows h k =
    ground (arith, exists_where-append (is_focus id u) rows (focus_row id i t ∷ []), h, k)

pub insert_focus_all :
    (id i : ℕ) (ts : List String) (s : Catalog)
    → All (λ t. exists_where (is_focus id t) s.focus ≡ false) ts
    → TagsDiffer ts
    → insert_focus id i ts s ≡ (ok tt, record s { focus = s.focus ++ focus_rows id i ts })
unfolding insert_focus
insert_focus_all id i [] s free differ = rw (append-nil s.focus) refl
insert_focus_all id i (t ∷ ts) s free differ =
    let next : Catalog = record s { focus = s.focus ++ focus_row id i t ∷ [] } in
    rw (free.0) (
      insert_focus_all id (suc i) ts next
        (All-zip (λ u. exists_where (is_focus id u) s.focus ≡ false) (λ u. str_eq t u ≡ false)
          (λ u. exists_where (is_focus id u) next.focus ≡ false) ts
          (λ u h k. tag_still_free id i t u s.focus h k) free.1 differ.0)
        differ.1
      ∙ ap (λ rows. (ok tt, record s { focus = rows }))
          (append_assoc s.focus (focus_row id i t ∷ []) (focus_rows id (suc i) ts)))

pub insert_experience_all :
    (id i : ℕ) (es : List Experience) (s : Catalog)
    → insert_experience id i es s
      ≡ (ok tt, record s { experience = s.experience ++ experience_rows id i es })
unfolding insert_experience
insert_experience_all id i [] s = rw (append-nil s.experience) refl
insert_experience_all id i (e ∷ es) s =
    insert_experience_all id (suc i) es
      (record s { experience = s.experience ++ experience_row id i e ∷ [] })
    ∙ ap (λ rows. (ok tt, record s { experience = rows }))
        (append_assoc s.experience (experience_row id i e ∷ []) (experience_rows id (suc i) es))
