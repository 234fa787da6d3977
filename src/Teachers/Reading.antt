-- ===== src/Teachers/Reading.antt =====
-- The lists of a profile as a query returns them.
use Prim.Native.String.{String}
use text.Mathlib.Text.{◌==◌ as str_eq}
use find_language_tutor.Prelude.{
  ℕ, suc, ◌<◌, ◌≡◌, refl, ap, ◌∙◌, inl, inr, Bool, true, false, not, List, [], ◌∷◌, ◌++◌, map, ltb,
  All, All-append, arith, Bool-cases,
}
use find_language_tutor.Prelude.Order.{sort_with, insert_between, sort_with_sorted}
use find_language_tutor.Prelude.Pairs.{AllPairs}
use find_language_tutor.Prelude.Page.{
  select, select-append, select_every, select_nothing, select_split, All-select_of,
}
use find_language_tutor.Teachers.{
  Language, Experience, LanguageEntry, LanguageRow, FocusRow, ExperienceRow,
}
use find_language_tutor.Teachers.Profile.{role_teaches}
use find_language_tutor.Teachers.Repository.{
  is_taught, language_row, focus_row, language_before, focus_before, to_language, to_experience,
  language_of_teacher, focus_of_teacher, experience_of_teacher,
}
use find_language_tutor.Teachers.Lists.{language_rows, focus_rows, experience_rows}

-- The languages of a request in one role.
abbrev pub taught : LanguageEntry → Bool
taught l = str_eq l.role role_teaches

abbrev pub spoken_in : (LanguageEntry → Bool) → List LanguageEntry → List Language
spoken_in p ls = map (λ l. record { code = l.code; name = l.name; level = l.level }) (select p ls)

language_rows-After :
    (id i j : ℕ) (ls : List LanguageEntry)
    → i < j
    → All (λ r. i < r.position) (language_rows id j ls)
language_rows-After id i j [] h = tt
language_rows-After id i j (l ∷ ls) h = (h, language_rows-After id i (suc j) ls (omega arith))

module _ (collate : String → String → Bool) where
  -- Rows in the order of their positions are sorted by role.
  sort-language_rows :
      (id i : ℕ) (ls : List LanguageEntry)
      → let rows = language_rows id i ls in
        sort_with (language_before collate) rows
        ≡ select is_taught rows ++ select (λ r. not (is_taught r)) rows
  unfolding sort_with select
  sort-language_rows id i [] = refl
  sort-language_rows id i (l ∷ ls) =
      let x = language_row id i l in
      let rows = language_rows id (suc i) ls in
      let T = select is_taught rows in
      let U = select (λ r. not (is_taught r)) rows in
      let later = language_rows-After id i (suc i) ls (omega arith) in
      elim (Bool-cases (is_taught x)) [
        | inl e ↦
            rw (sort-language_rows id (suc i) ls, e)
              (insert_between (language_before collate) x [] (T ++ U) tt (
                All-append (λ y. language_before collate x y ≡ true) T U
                  (All-select_of (λ r. i < r.position) (λ r. language_before collate x r ≡ true)
                    is_taught rows (λ r h k. ground (arith, e, h, k)) later)
                  (All-select_of (λ r. i < r.position) (λ r. language_before collate x r ≡ true)
                    (λ r. not (is_taught r)) rows (λ r h k. ground (arith, e, h, k)) later)))
        | inr e ↦
            rw (sort-language_rows id (suc i) ls, e)
              (insert_between (language_before collate) x T U
                (All-select_of (λ r. i < r.position) (λ r. language_before collate x r ≡ false)
                  is_taught rows (λ r h k. ground (arith, e, k)) later)
                (All-select_of (λ r. i < r.position) (λ r. language_before collate x r ≡ true)
                  (λ r. not (is_taught r)) rows (λ r h k. ground (arith, e, h, k)) later))
      ]

  sort-focus_rows :
      (id i : ℕ) (ts : List String)
      → sort_with (focus_before collate) (focus_rows id i ts) ≡ focus_rows id i ts
  sort-focus_rows id i ts =
      sort_with_sorted (focus_before collate) (focus_rows id i ts) (pairs id i ts)
    where
      later :
          (id i j : ℕ) (t : String) (ts : List String)
          → i < j
          → All (λ r. focus_before collate (focus_row id i t) r ≡ true) (focus_rows id j ts)
      later id i j t [] h = tt
      later id i j t (u ∷ us) h = (ground (arith, h), later id i (suc j) t us (omega arith))

      pairs :
          (id i : ℕ) (ts : List String)
          → AllPairs (λ x y. focus_before collate x y ≡ true) (focus_rows id i ts)
      pairs id i [] = tt
      pairs id i (t ∷ ts) = (later id i (suc i) t ts (omega arith), pairs id (suc i) ts)

sort-experience_rows :
    (id i : ℕ) (es : List Experience)
    → sort_with (λ a b. ltb a.position b.position) (experience_rows id i es)
      ≡ experience_rows id i es
sort-experience_rows id i es =
    sort_with_sorted (λ a b. ltb a.position b.position) (experience_rows id i es) (pairs id i es)
  where
    later :
        (id i j : ℕ) (es : List Experience)
        → i < j
        → All (λ r. ltb i r.position ≡ true) (experience_rows id j es)
    later id i j [] h = tt
    later id i j (u ∷ us) h = (ground (arith, h), later id i (suc j) us (omega arith))

    pairs :
        (id i : ℕ) (es : List Experience)
        → AllPairs (λ x y. ltb x.position y.position ≡ true) (experience_rows id i es)
    pairs id i [] = tt
    pairs id i (e ∷ es) = (later id i (suc i) es (omega arith), pairs id (suc i) es)

read-language_rows :
    (p : LanguageEntry → Bool) (q : LanguageRow → Bool) (id i : ℕ) (ls : List LanguageEntry)
    → ((k : ℕ) (l : LanguageEntry) → q (language_row id k l) ≡ p l)
    → map to_language (select q (language_rows id i ls)) ≡ spoken_in p ls
unfolding select
read-language_rows p q id i [] agree = refl
read-language_rows p q id i (l ∷ ls) agree =
    ground (arith, agree i l, read-language_rows p q id (suc i) ls agree)

read-focus_rows : (id i : ℕ) (ts : List String) → map (λ t. t.tag) (focus_rows id i ts) ≡ ts
read-focus_rows id i [] = refl
read-focus_rows id i (t ∷ ts) = ap (◌∷◌ t) (read-focus_rows id (suc i) ts)

read-experience_rows :
    (id i : ℕ) (es : List Experience) → map to_experience (experience_rows id i es) ≡ es
read-experience_rows id i [] = refl
read-experience_rows id i (e ∷ es) = ap (◌∷◌ e) (read-experience_rows id (suc i) es)

-- The rows of one teacher among those of others.
of_teacher :
    {A : Type 0} (p : A → Bool) (others rows : List A)
    → All (λ r. p r ≡ false) others
    → All (λ r. p r ≡ true) rows
    → select p (others ++ rows) ≡ rows
of_teacher p others rows h k =
    select-append p others rows ∙ rw (select_nothing p others h, select_every p rows k) refl

language_rows-of :
    (id i : ℕ) (ls : List LanguageEntry)
    → All (λ r. language_of_teacher id r ≡ true) (language_rows id i ls)
language_rows-of id i [] = tt
language_rows-of id i (l ∷ ls) = (ground arith, language_rows-of id (suc i) ls)

focus_rows-of :
    (id i : ℕ) (ts : List String) → All (λ r. focus_of_teacher id r ≡ true) (focus_rows id i ts)
focus_rows-of id i [] = tt
focus_rows-of id i (t ∷ ts) = (ground arith, focus_rows-of id (suc i) ts)

experience_rows-of :
    (id i : ℕ) (es : List Experience)
    → All (λ r. experience_of_teacher id r ≡ true) (experience_rows id i es)
experience_rows-of id i [] = tt
experience_rows-of id i (e ∷ es) = (ground arith, experience_rows-of id (suc i) es)

-- The lists that a query returns for rows that were written for a request.
module _ (collate : String → String → Bool) (id : ℕ) where
  pub read_languages :
      (others : List LanguageRow) (ls : List LanguageEntry)
      → All (λ r. language_of_teacher id r ≡ false) others
      → let langs =
          sort_with
            (language_before collate)
            (select (language_of_teacher id) (others ++ language_rows id 0 ls)) in
        (map to_language (select is_taught langs) ≡ spoken_in taught ls)
        × (map to_language (select (λ l. not (is_taught l)) langs)
            ≡ spoken_in (λ l. not (taught l)) ls)
  read_languages others ls h =
      let rows = language_rows id 0 ls in
      let halves = select_split is_taught rows in
      rw
        (
          of_teacher (language_of_teacher id) others rows h (language_rows-of id 0 ls),
          sort-language_rows collate id 0 ls,
        )
        (
          rw (halves.0) (read-language_rows taught is_taught id 0 ls (λ k l. refl)),
          rw (halves.1) (
              read-language_rows (λ l. not (taught l)) (λ r. not (is_taught r)) id 0 ls
                (λ k l. refl)),
        )

  pub read_focus :
      (others : List FocusRow) (ts : List String)
      → All (λ r. focus_of_teacher id r ≡ false) others
      → map
          (λ t. t.tag)
          (sort_with
            (focus_before collate)
            (select (focus_of_teacher id) (others ++ focus_rows id 0 ts)))
        ≡ ts
  read_focus others ts h =
      rw
        (
          of_teacher (focus_of_teacher id) others (focus_rows id 0 ts) h (focus_rows-of id 0 ts),
          sort-focus_rows collate id 0 ts,
        )
        (read-focus_rows id 0 ts)

  pub read_experience :
      (others : List ExperienceRow) (es : List Experience)
      → All (λ r. experience_of_teacher id r ≡ false) others
      → map to_experience (
          sort_with
            (λ a b. ltb a.position b.position)
            (select (experience_of_teacher id) (others ++ experience_rows id 0 es)))
        ≡ es
  read_experience others es h =
      rw
        (
          of_teacher (experience_of_teacher id) others (experience_rows id 0 es) h
              (experience_rows-of id 0 es),
          sort-experience_rows id 0 es,
        )
        (read-experience_rows id 0 es)
