-- ===== src/Teachers/States.antt =====
-- What the parts of a call leave alone: the queries everything, the lists of a profile the others.
use Prim.Native.String.{String}
use find_language_tutor.Prelude.{
  ℕ, zero, suc, ◌≡◌, refl, subst, inl, inr, Bool, true, false, List, [], ◌∷◌, Bool-cases,
  Option-cases,
}
use find_language_tutor.Prelude.Rows.{first_where, exists_where}
use find_language_tutor.Effect.{Fallible, ok, Call, ◌>>=◌}
use find_language_tutor.Effect.Keeps.{Keeps, then-Keeps, bind-reads}
use find_language_tutor.Teachers.{
  LanguageEntry, Experience, ProfileInput, TeacherRow, Catalog, TeacherError, Texts,
}
use find_language_tutor.Teachers.Repository.{
  has_slug, has_id, owned_by, new_teacher, insert_languages, insert_focus, insert_experience,
  insert_children, replace_languages, replace_focus, replace_experience, when,
}
use find_language_tutor.Teachers.Repository as Repository
use find_language_tutor.Teachers.Slug.{slugify}
use find_language_tutor.Teachers.Service.{max_slug_dedupe_attempts, candidate, try_slugs, free_slug}
use find_language_tutor.Teachers.Moderation.{get_moderation, get_teacher}

-- The lists of a profile are written beside the profiles.
abbrev pub Rows : List TeacherRow → ℕ → Catalog → Type 0
Rows ts n s = (s.teachers ≡ ts) × (s.next_id ≡ n)

module _ (ts : List TeacherRow) (n : ℕ) where
  pub insert_languages-Keeps :
      (id i : ℕ) (ls : List LanguageEntry) → Keeps (Rows ts n) (insert_languages id i ls)
  unfolding insert_languages
  insert_languages-Keeps id i [] s h = h
  insert_languages-Keeps id i (l ∷ ls) s h =
      elim (Bool-cases (exists_where (Repository.is_language id l) s.languages)) [
        | inl e ↦ rw e h
        | inr e ↦ rw e (insert_languages-Keeps id (suc i) ls _ h)
      ]

  pub insert_focus-Keeps : (id i : ℕ) (xs : List String) → Keeps (Rows ts n) (insert_focus id i xs)
  unfolding insert_focus
  insert_focus-Keeps id i [] s h = h
  insert_focus-Keeps id i (x ∷ xs) s h =
      elim (Bool-cases (exists_where (Repository.is_focus id x) s.focus)) [
        | inl e ↦ rw e h
        | inr e ↦ rw e (insert_focus-Keeps id (suc i) xs _ h)
      ]

  pub insert_experience-Keeps :
      (id i : ℕ) (xs : List Experience) → Keeps (Rows ts n) (insert_experience id i xs)
  unfolding insert_experience
  insert_experience-Keeps id i [] s h = h
  insert_experience-Keeps id i (x ∷ xs) s h = insert_experience-Keeps id (suc i) xs _ h

  pub insert_children-Keeps :
      (id : ℕ) (input : ProfileInput) → Keeps (Rows ts n) (insert_children id input)
  unfolding insert_children
  insert_children-Keeps id input =
      then-Keeps (Rows ts n) (insert_languages id 0 input.languages)
        (insert_focus id 0 input.focus >>= λ a. insert_experience id 0 input.experience)
        (insert_languages-Keeps id 0 input.languages)
        (then-Keeps (Rows ts n) (insert_focus id 0 input.focus)
          (insert_experience id 0 input.experience) (insert_focus-Keeps id 0 input.focus)
          (insert_experience-Keeps id 0 input.experience))

  pub when-Keeps :
      (b : Bool) (m : Call Catalog TeacherError (Unit {0}))
      → Keeps (Rows ts n) m
      → Keeps (Rows ts n) (when b m)
  when-Keeps true m k s h = k s h
  when-Keeps false m k s h = h

  pub replace_languages-Keeps :
      (id : ℕ) (ls : List LanguageEntry) → Keeps (Rows ts n) (replace_languages id ls)
  unfolding replace_languages
  replace_languages-Keeps id ls s h = insert_languages-Keeps id 0 ls _ h

  pub replace_focus-Keeps : (id : ℕ) (xs : List String) → Keeps (Rows ts n) (replace_focus id xs)
  unfolding replace_focus
  replace_focus-Keeps id xs s h = insert_focus-Keeps id 0 xs _ h

  pub replace_experience-Keeps :
      (id : ℕ) (xs : List Experience) → Keeps (Rows ts n) (replace_experience id xs)
  unfolding replace_experience
  replace_experience-Keeps id xs s h = insert_experience-Keeps id 0 xs _ h

pub get_by_slug_state :
    (collate : String → String → Bool) (slug : String) (s : Catalog)
    → (Repository.get_by_slug collate slug s).1 ≡ s
unfolding Repository.get_by_slug
get_by_slug_state collate slug s = elim (Option-cases (first_where (has_slug slug) s.teachers)) [
  | inl e ↦ rw e refl
  | inr (r, e) ↦ rw e refl
]

pub try_slugs_state :
    (rounds i : ℕ) (base : String) (s : Catalog) → (try_slugs rounds i base s).1 ≡ s
unfolding try_slugs
try_slugs_state zero i base s = refl
try_slugs_state (suc rounds) i base s =
    elim (Bool-cases (exists_where (has_slug (candidate base i)) s.teachers)) [
      | inl e ↦ rw e (try_slugs_state rounds (suc i) base s)
      | inr e ↦ rw e refl
    ]

-- A slug that is found is free.
pub try_slugs-Free :
    (rounds i : ℕ) (base slug : String) (s : Catalog)
    → (try_slugs rounds i base s).0 ≡ ok slug
    → exists_where (has_slug slug) s.teachers ≡ false
unfolding try_slugs
try_slugs-Free zero i base slug s h = absurd (cc)
try_slugs-Free (suc rounds) i base slug s h =
    elim (Bool-cases (exists_where (has_slug (candidate base i)) s.teachers)) [
      | inl e ↦ try_slugs-Free rounds (suc i) base slug s (rw e at h)
      | inr e ↦
          subst (λ x. exists_where (has_slug x) s.teachers ≡ false)
            (cc (let h' : Fallible.ok (candidate base i) ≡ Fallible.ok slug = (rw e at h) in h')) e
    ]

pub free_slug_state : (texts : Texts) (name : String) (s : Catalog) → (free_slug texts name s).1 ≡ s
unfolding free_slug
free_slug_state texts name s =
    try_slugs_state max_slug_dedupe_attempts 0 (slugify texts.to_lower name) s

pub free_slug-Free :
    (texts : Texts) (name slug : String) (s : Catalog)
    → (free_slug texts name s).0 ≡ ok slug
    → exists_where (has_slug slug) s.teachers ≡ false
unfolding free_slug
free_slug-Free texts name slug s =
    try_slugs-Free max_slug_dedupe_attempts 0 (slugify texts.to_lower name) slug s

pub get_moderation_state : (slug : String) (s : Catalog) → (get_moderation slug s).1 ≡ s
unfolding get_moderation
get_moderation_state slug s = elim (Option-cases (first_where (has_slug slug) s.teachers)) [
  | inl e ↦ rw e refl
  | inr (r, e) ↦ rw e refl
]

pub get_teacher_state :
    (texts : Texts) (slug : String) (s : Catalog) → (get_teacher texts slug s).1 ≡ s
unfolding get_teacher
get_teacher_state texts slug s =
    bind-reads (λ t. t ≡ s) (get_moderation slug) (λ r. Repository.get_by_slug texts.collate slug) s
      (get_moderation_state slug s) refl (λ r e. get_by_slug_state texts.collate slug s)
