-- ===== src/Teachers/Grammar.antt =====
-- The form of the slugs that slugify makes.
use Prim.Native.Char.{code}
use Prim.Native.String.{String}
use text.Mathlib.Text.{◌==◌ as str_eq}
use text.Mathlib.TextEquality.{eq_iff, Char-path}
use text.Mathlib.TextLemmas.{cons≢nil}
use find_language_tutor.Prelude.{
  ℕ, ◌≡◌, ◌⊎◌, inl, inr, refl, ap, Bool, true, false, not, arith, ◌==◌, Bool-cases,
}
use find_language_tutor.Teachers.Slug.{is_slug_char, hyphenate, trim_left, trim_right, slugify}

-- Runs of lower-case letters and digits with single hyphens between them; the flag says whether
-- a run has begun.
abbrev pub Runs : Bool → String → Type 0
Runs begun String.[] = begun ≡ true
Runs begun (String.◌∷◌ c s) =
    ((is_slug_char (code c) ≡ true) × Runs true s)
    ⊎ ((code c ≡ b'-') × (begun ≡ true) × Runs false s)

abbrev pub IsSlug : String → Type 0
IsSlug s = Runs false s

-- The same, with a hyphen at the end let through.
abbrev Loose : Bool → String → Type 0
Loose begun String.[] = Unit
Loose begun (String.◌∷◌ c s) =
    ((is_slug_char (code c) ≡ true) × Loose true s)
    ⊎ ((code c ≡ b'-') × (begun ≡ true) × Loose false s)

not_hyphen : (n : ℕ) → is_slug_char n ≡ true → (n == b'-') ≡ false
unfolding is_slug_char
not_hyphen n h = ground arith

hyphenate-Loose : (b : Bool) (s : String) → Loose (not b) (hyphenate b s)
unfolding hyphenate
hyphenate-Loose b String.[] = tt
hyphenate-Loose true (String.◌∷◌ c s) = elim (Bool-cases (is_slug_char (code c))) [
  | inl e ↦ rw e (inl (e, hyphenate-Loose false s))
  | inr e ↦ rw e (hyphenate-Loose true s)
]
hyphenate-Loose false (String.◌∷◌ c s) = elim (Bool-cases (is_slug_char (code c))) [
  | inl e ↦ rw e (inl (e, hyphenate-Loose false s))
  | inr e ↦ rw e (inr (refl, refl, hyphenate-Loose true s))
]

trim_left-Loose : (b : Bool) (s : String) → Loose b s → Loose false (trim_left s)
unfolding trim_left
trim_left-Loose b String.[] h = tt
trim_left-Loose b (String.◌∷◌ c s) (inl h) = rw (not_hyphen (code c) h.0) (inl h)
trim_left-Loose b (String.◌∷◌ c s) (inr h) = rw h.0 (trim_left-Loose false s h.2)

trim_right-Runs : (b : Bool) (s : String) → Loose b s → (trim_right s ≡ "") ⊎ Runs b (trim_right s)
unfolding trim_right
trim_right-Runs b String.[] h = inl refl
trim_right-Runs b (String.◌∷◌ c s) (inl h) =
    rw (not_hyphen (code c) h.0) (elim (trim_right-Runs true s h.1) [
      | inl e ↦ inr (inl (h.0, rw e refl))
      | inr r ↦ inr (inl (h.0, r))
    ])
trim_right-Runs b (String.◌∷◌ c s) (inr h) = rw h.0 (elim (Bool-cases (str_eq (trim_right s) "")) [
  | inl e ↦ inl (rw e refl)
  | inr e ↦ rw e (elim (trim_right-Runs false s h.2) [
    | inl f ↦ absurd (ground (arith, eq_iff (trim_right s) "", e, f))
    | inr r ↦ inr (inr (h.0, h.1, r))
  ])
])

-- Nothing is changed where the form is right.
hyphenate-Runs :
    (b begun : Bool) (s : String) → (begun ≡ true → b ≡ false) → Runs begun s → hyphenate b s ≡ s
unfolding hyphenate
hyphenate-Runs b begun String.[] k h = refl
hyphenate-Runs b begun (String.◌∷◌ c s) k (inl h) =
    rw (h.0) (ap (String.◌∷◌ c) (hyphenate-Runs false true s (λ e. refl) h.1))
hyphenate-Runs b begun (String.◌∷◌ c s) k (inr h) =
    rw (h.0, k h.1)
      (rw (Char-path c "-" h.0, hyphenate-Runs true false s (λ e. absurd (cc e)) h.2) refl)

trim_left-Runs : (s : String) → IsSlug s → trim_left s ≡ s
unfolding trim_left
trim_left-Runs String.[] h = refl
trim_left-Runs (String.◌∷◌ c s) (inl h) = rw (not_hyphen (code c) h.0) refl
trim_left-Runs (String.◌∷◌ c s) (inr h) = absurd (cc)

Runs-ne-nil : (s : String) → IsSlug s → str_eq s "" ≡ false
Runs-ne-nil String.[] h = absurd (cc)
Runs-ne-nil (String.◌∷◌ c s) h = elim (Bool-cases (str_eq (String.◌∷◌ c s) "")) [
  | inl e ↦ absurd (cons≢nil ((eq_iff (String.◌∷◌ c s) "").0 e))
  | inr e ↦ e
]

trim_right_fixed : (b : Bool) (s : String) → Runs b s → trim_right s ≡ s
unfolding trim_right
trim_right_fixed b String.[] h = refl
trim_right_fixed b (String.◌∷◌ c s) (inl h) =
    rw (not_hyphen (code c) h.0) (rw (trim_right_fixed true s h.1) refl)
trim_right_fixed b (String.◌∷◌ c s) (inr h) =
    rw (h.0, trim_right_fixed false s h.2) (rw (Runs-ne-nil s h.2) refl)

teacher-IsSlug : IsSlug "teacher"
unfolding is_slug_char
teacher-IsSlug =
    inl (refl, inl (refl, inl (refl, inl (refl, inl (refl, inl (refl, inl (refl, refl)))))))

slugify-IsSlug_of : (lower : String → String) (s : String) → IsSlug (slugify lower s)
unfolding slugify
slugify-IsSlug_of lower s =
    let out = trim_right (trim_left (hyphenate false (lower s))) in
    elim (Bool-cases (str_eq out "")) [
      | inl e ↦ rw e teacher-IsSlug
      | inr e ↦
          rw e
            (elim (trim_right-Runs false (trim_left (hyphenate false (lower s))) (
              trim_left-Loose true (hyphenate false (lower s)) (hyphenate-Loose false (lower s)))) [
                | inl f ↦ absurd (ground (arith, eq_iff out "", e, f))
                | inr r ↦ r
              ])
    ]

slugify_fixed :
    (lower : String → String) (s : String) → lower s ≡ s → IsSlug s → slugify lower s ≡ s
unfolding slugify
slugify_fixed lower s same h =
    rw
      (
        same,
        hyphenate-Runs false false s (λ e. refl) h,
        trim_left-Runs s h,
        trim_right_fixed false s h,
      )
      (rw (Runs-ne-nil s h) refl)

-- slugify returns runs of lower-case letters and digits with single hyphens between them, never an
-- empty text; and where lowering leaves such a text alone, slugify does too.
pub slugify-IsSlug :
    (lower : String → String) (s : String)
    → lower (slugify lower s) ≡ slugify lower s
    → IsSlug (slugify lower s) × (slugify lower (slugify lower s) ≡ slugify lower s)
slugify-IsSlug lower s same = (
  slugify-IsSlug_of lower s,
  slugify_fixed lower (slugify lower s) same (slugify-IsSlug_of lower s),
)
