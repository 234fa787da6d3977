-- ===== src/Teachers/Naming.antt =====
-- The search for a free slug ends.
use Prim.Native.String.{String, ◌++◌ as text_append}
use text.Mathlib.TextEquality.{eq_iff}
use text.Mathlib.TextLemmas.{append_cancel_left, append-nil, cons≢nil, tail-eq_of_cons-eq}
use find_language_tutor.Prelude.{
  ℕ, zero, suc, ◌+◌, ◌<◌, ◌≤◌, ◌≡◌, refl, sym, ◌∙◌, ◌⊎◌, inl, inr, true, false, List, [], ◌∷◌, map,
  length, In, arith, ltb, subst, Bool-cases,
}
use find_language_tutor.Prelude.Decimal.{decimal, decimal_injective}
use find_language_tutor.Prelude.Distinct.{distinct_le_length}
use find_language_tutor.Prelude.Rows.{exists_where}
use find_language_tutor.Effect.{ok}
use find_language_tutor.Teachers.{TeacherRow, Catalog, Texts}
use find_language_tutor.Teachers.Slug.{slugify}
use find_language_tutor.Teachers.Repository.{has_slug}
use find_language_tutor.Teachers.Service.{max_slug_dedupe_attempts, candidate, try_slugs, free_slug}

suffix-ne-nil : (base tail : String) → base ≡ text_append base (String.◌∷◌ "-" tail) → ⊥
suffix-ne-nil base tail e =
    cons≢nil (sym (append_cancel_left base "" (String.◌∷◌ "-" tail) (append-nil base ∙ e)))

-- Different rounds try different slugs.
candidate_injective : (base : String) (i j : ℕ) → candidate base i ≡ candidate base j → i ≡ j
unfolding candidate
candidate_injective base zero zero e = refl
candidate_injective base zero (suc j) e = absurd (suffix-ne-nil base (decimal (j + 2)) e)
candidate_injective base (suc i) zero e = absurd (suffix-ne-nil base (decimal (i + 2)) (sym e))
candidate_injective base (suc i) (suc j) e = omega (
  arith,
  decimal_injective (i + 2) (j + 2) (
      tail-eq_of_cons-eq (
        append_cancel_left base (String.◌∷◌ "-" (decimal (i + 2)))
          (String.◌∷◌ "-" (decimal (j + 2))) e)),
)

abbrev pub Taken : String → Catalog → Type 0
Taken slug s = exists_where (has_slug slug) s.teachers ≡ true

abbrev pub Free : String → Catalog → Type 0
Free slug s = exists_where (has_slug slug) s.teachers ≡ false

lt_or_eq : (i j : ℕ) → i ≤ j → (suc i ≤ j) ⊎ (i ≡ j)
lt_or_eq i j h = elim (Bool-cases (ltb i j)) [
  | inl e ↦ inl (ground (arith, e))
  | inr e ↦ inr (ground (arith, e, h))
]

-- The first round from `i` on that finds a free slug, or every round finds a taken one.
try_slugs-cases :
    (rounds i : ℕ) (base : String) (s : Catalog)
    → ((k : ℕ) × (try_slugs rounds i base s ≡ (ok (candidate base k), s))
        × Free (candidate base k) s
        × (i ≤ k)
        × ((j : ℕ) → i ≤ j → j < k → Taken (candidate base j) s))
      ⊎ ((j : ℕ) → i ≤ j → j < i + rounds → Taken (candidate base j) s)
unfolding try_slugs
try_slugs-cases zero i base s = inr (λ j h k. absurd (omega arith))
try_slugs-cases (suc rounds) i base s =
    elim (Bool-cases (exists_where (has_slug (candidate base i)) s.teachers)) [
      | inl taken ↦ elim (try_slugs-cases rounds (suc i) base s) [
        | inl (k, found, free, le, before) ↦ inl (
          k,
          rw taken found,
          free,
          omega arith,
          λ j h lt. elim (lt_or_eq i j h) [
            | inl l ↦ before j l lt
            | inr e ↦ subst (λ (m : ℕ). Taken (candidate base m) s) e taken
          ],
        )
        | inr all ↦ inr (λ j h lt. elim (lt_or_eq i j h) [
          | inl l ↦ all j l (omega arith)
          | inr e ↦ subst (λ (m : ℕ). Taken (candidate base m) s) e taken
        ])
      ]
      | inr free ↦ inl (i, rw free refl, free, omega arith, λ j h lt. absurd (omega arith))
    ]

In-slugs :
    (slug : String) (rs : List TeacherRow)
    → exists_where (has_slug slug) rs ≡ true
    → In slug (map (λ r. r.slug) rs)
unfolding exists_where
In-slugs slug [] h = absurd (cc)
In-slugs slug (r ∷ rs) h = ground (arith, eq_iff r.slug slug, In-slugs slug rs)

length-slugs : (rs : List TeacherRow) → length (map (λ r. r.slug) rs) ≡ length rs
length-slugs [] = refl
length-slugs (r ∷ rs) = omega (arith, length-slugs rs)

-- With fewer than a thousand profiles, freeSlug succeeds: it returns the first of its candidates
-- that no profile has, and changes nothing.
pub free_slug_finds :
    (texts : Texts) (name : String) (s : Catalog)
    → length s.teachers < 1000
    → (k : ℕ) × (free_slug texts name s ≡ (ok (candidate (slugify texts.to_lower name) k), s))
      × Free (candidate (slugify texts.to_lower name) k) s
      × ((j : ℕ) → j < k → Taken (candidate (slugify texts.to_lower name) j) s)
unfolding free_slug
free_slug_finds texts name s few =
    let base = slugify texts.to_lower name in
    elim (try_slugs-cases max_slug_dedupe_attempts 0 base s) [
      | inl (k, found, free, le, before) ↦ (k, found, free, λ j lt. before j (omega arith) lt)
      | inr all ↦ absurd (
          omega (
            arith,
            length-slugs s.teachers,
            distinct_le_length 1000 (candidate base) (map (λ r. r.slug) s.teachers)
                (candidate_injective base)
                (λ i lt.
                  In-slugs (candidate base i) s.teachers (all i (omega arith) (omega arith))),
          ))
    ]
