-- ===== src/Teachers/Storing.antt =====
-- How the lists of a new profile are stored.
use Prim.Native.String.{String}
use find_language_tutor.Prelude.{
  ℕ, suc, ◌<◌, ◌≡◌, refl, ◌∙◌, false, List, [], ◌∷◌, ◌++◌, ◌==◌, All, All-map, arith,
}
use find_language_tutor.Prelude.Rows.{exists_where, exists_where_none}
use find_language_tutor.Effect.{ok, ◌>>=◌, bind-eq}
use find_language_tutor.Teachers.{LanguageEntry, ProfileInput, LanguageRow, FocusRow, Catalog}
use find_language_tutor.Teachers.Repository.{
  new_teacher, is_language, is_focus, insert_languages, insert_focus, insert_experience,
  insert_children,
}
use find_language_tutor.Teachers.Lists.{
  LanguagesDiffer, TagsDiffer, language_rows, focus_rows, experience_rows, insert_languages_all,
  insert_focus_all, insert_experience_all,
}

-- The lists that are stored belong to profiles that are.
pub record ListsAreOld (s : Catalog) : Type 0 where
  pub languages : All (λ r. r.teacher_id < s.next_id) s.languages
  pub focus : All (λ r. r.teacher_id < s.next_id) s.focus
  pub experience : All (λ r. r.teacher_id < s.next_id) s.experience

-- The tables with the new profile.
abbrev pub stored : ℕ → String → ProfileInput → Catalog → Catalog
stored owner slug input s = record {
  next_id = suc s.next_id;
  teachers = s.teachers ++ new_teacher s.next_id owner slug input.fields ∷ [];
  languages = s.languages ++ language_rows s.next_id 0 input.languages;
  focus = s.focus ++ focus_rows s.next_id 0 input.focus;
  experience = s.experience ++ experience_rows s.next_id 0 input.experience;
}

pub not_of :
    {A : Type 0} (key : A → ℕ) (n : ℕ) (rs : List A)
    → All (λ r. key r < n) rs
    → All (λ r. (key r == n) ≡ false) rs
not_of key n rs = All-map (λ r. key r < n) (λ r. (key r == n) ≡ false) rs (λ r h. ground (arith, h))

pub no_language :
    (n : ℕ) (rs : List LanguageRow) (ls : List LanguageEntry)
    → All (λ r. r.teacher_id < n) rs
    → All (λ l. exists_where (is_language n l) rs ≡ false) ls
no_language n rs [] h = tt
no_language n rs (l ∷ ls) h = (
  exists_where_none (is_language n l) rs (
      All-map (λ r. (r.teacher_id == n) ≡ false) (λ r. is_language n l r ≡ false) rs
        (λ r k. rw k refl) (not_of (λ r. r.teacher_id) n rs h)),
  no_language n rs ls h,
)

pub no_focus :
    (n : ℕ) (rs : List FocusRow) (ts : List String)
    → All (λ r. r.teacher_id < n) rs
    → All (λ t. exists_where (is_focus n t) rs ≡ false) ts
no_focus n rs [] h = tt
no_focus n rs (t ∷ ts) h = (
  exists_where_none (is_focus n t) rs (
      All-map (λ r. (r.teacher_id == n) ≡ false) (λ r. is_focus n t r ≡ false) rs (λ r k. rw k refl)
        (not_of (λ r. r.teacher_id) n rs h)),
  no_focus n rs ts h,
)

pub insert_children_all :
    (input : ProfileInput) (id : ℕ) (s : Catalog)
    → All (λ l. exists_where (is_language id l) s.languages ≡ false) input.languages
    → LanguagesDiffer input.languages
    → All (λ t. exists_where (is_focus id t) s.focus ≡ false) input.focus
    → TagsDiffer input.focus
    → insert_children id input s ≡ (
      ok tt,
      record s {
        languages = s.languages ++ language_rows id 0 input.languages;
        focus = s.focus ++ focus_rows id 0 input.focus;
        experience = s.experience ++ experience_rows id 0 input.experience;
      },
    )
unfolding insert_children
insert_children_all input id s a b c d =
    let t : Catalog = record s { languages = s.languages ++ language_rows id 0 input.languages } in
    let u : Catalog = record t { focus = t.focus ++ focus_rows id 0 input.focus } in
    bind-eq (insert_languages id 0 input.languages)
      (λ x. insert_focus id 0 input.focus >>= λ y. insert_experience id 0 input.experience) s t tt
      (insert_languages_all id 0 input.languages s a b)
    ∙ bind-eq (insert_focus id 0 input.focus) (λ y. insert_experience id 0 input.experience) t u tt
        (insert_focus_all id 0 input.focus t c d)
    ∙ insert_experience_all id 0 input.experience u
