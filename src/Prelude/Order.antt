-- ===== src/Prelude/Order.antt =====
-- Sorting by a Boolean comparison, as ORDER BY and sort.Strings do, and texts without repeats.
use Prim.Native.Nat.{suc}
use Prim.Native.String.{String}
use mathlib.Core.Path.{◌≡◌, refl, ap}
use mathlib.Core.Logic.{◌↔◌, ◌⊎◌, inl, inr}
use mathlib.Core.Bool.{Bool, true, false}
use mathlib.Core.List.{List, [], ◌∷◌, ◌++◌}
use native.Mathlib.Omega.{arith}
use text.Mathlib.Text.{◌==◌ as str_eq}
use text.Mathlib.TextEquality.{eq_iff}
use find_language_tutor.Prelude.Tests.{if◌then◌else◌}
use find_language_tutor.Prelude.Lists.{All, Any, In, length}
use find_language_tutor.Prelude.Pairs.{AllPairs}

module _ {A : Type 0} (before : A → A → Bool) where
  unfoldable pub insert_with : A → List A → List A
  insert_with a [] = a ∷ []
  insert_with a (x ∷ xs) =
      let rest = insert_with a xs in if before a x then a ∷ x ∷ xs else x ∷ rest

  unfoldable pub sort_with : List A → List A
  unfolding insert_with
  sort_with [] = []
  sort_with (x ∷ xs) = insert_with x (sort_with xs)

  module _ (P : A → Type 0) where
    Any-insert_with : (a : A) (xs : List A) → Any P (insert_with a xs) ↔ (P a ⊎ Any P xs)
    unfolding insert_with
    Any-insert_with a [] = (λ h. h, λ h. h)
    Any-insert_with a (x ∷ xs) = (
      λ h. ground (arith, (Any-insert_with a xs).0),
      λ h. ground (arith, (Any-insert_with a xs).1),
    )

    pub Any-sort_with : (xs : List A) → Any P (sort_with xs) ↔ Any P xs
    unfolding sort_with
    Any-sort_with [] = (λ h. h, λ h. h)
    Any-sort_with (x ∷ xs) = (
      λ h. elim ((Any-insert_with x (sort_with xs)).0 h) [
        | inl p ↦ inl p
        | inr q ↦ inr ((Any-sort_with xs).0 q)
      ],
      λ h.
          (Any-insert_with x (sort_with xs)).1
            (elim h [ inl p ↦ inl p | inr q ↦ inr ((Any-sort_with xs).1 q) ]),
    )

-- What every entry satisfies, sorted or not.
module _ {A : Type 0} (before : A → A → Bool) (P : A → Type 0) where
  All-insert_with : (a : A) (xs : List A) → P a → All P xs → All P (insert_with before a xs)
  unfolding insert_with
  All-insert_with a [] h k = (h, tt)
  All-insert_with a (x ∷ xs) h k = ground (arith, All-insert_with a xs h k.1, h, k.0, k.1)

  pub All-sort_with : (xs : List A) → All P xs → All P (sort_with before xs)
  unfolding sort_with
  All-sort_with [] h = tt
  All-sort_with (x ∷ xs) h = All-insert_with x (sort_with before xs) h.0 (All-sort_with xs h.1)

-- Where an entry goes, and what is sorted already.
module _ {A : Type 0} (before : A → A → Bool) where
  pub insert_between :
      (a : A) (xs ys : List A)
      → All (λ x. before a x ≡ false) xs
      → All (λ y. before a y ≡ true) ys
      → insert_with before a (xs ++ ys) ≡ xs ++ a ∷ ys
  unfolding insert_with
  insert_between a [] [] h k = refl
  insert_between a [] (y ∷ ys) h k = rw k.0 refl
  insert_between a (x ∷ xs) ys h k = rw h.0 (ap (◌∷◌ x) (insert_between a xs ys h.1 k))

  pub sort_with_sorted :
      (xs : List A) → AllPairs (λ x y. before x y ≡ true) xs → sort_with before xs ≡ xs
  unfolding sort_with
  sort_with_sorted [] h = refl
  sort_with_sorted (x ∷ xs) h = rw (sort_with_sorted xs h.1) (insert_between x [] xs tt h.0)

module _ {A : Type 0} (before : A → A → Bool) where
  length-insert_with : (a : A) (xs : List A) → length (insert_with before a xs) ≡ suc (length xs)
  unfolding insert_with
  length-insert_with a [] = refl
  length-insert_with a (x ∷ xs) = ground (arith, length-insert_with a xs)

  pub length-sort_with : (xs : List A) → length (sort_with before xs) ≡ length xs
  unfolding sort_with
  length-sort_with [] = refl
  length-sort_with (x ∷ xs) =
      omega (arith, length-insert_with x (sort_with before xs), length-sort_with xs)

-- Whether a text is among others.
unfoldable pub has_text : String → List String → Bool
has_text k [] = false
has_text k (x ∷ xs) = let rest = has_text k xs in if str_eq x k then true else rest

pub has_text_iff : (k : String) (xs : List String) → (has_text k xs ≡ true) ↔ In k xs
unfolding has_text
has_text_iff k [] = (λ h. cc, λ h. absurd h)
has_text_iff k (x ∷ xs) = (
  λ h. ground (arith, (eq_iff x k).0, (has_text_iff k xs).0),
  λ h. ground (arith, (eq_iff x k).1, (has_text_iff k xs).1),
)

-- SELECT DISTINCT, for texts.
unfoldable pub distinct : List String → List String
unfolding has_text
distinct [] = []
distinct (x ∷ xs) = let rest = distinct xs in if has_text x xs then rest else x ∷ rest

pub In-distinct : (k : String) (xs : List String) → In k (distinct xs) ↔ In k xs
unfolding distinct
In-distinct k [] = (λ h. h, λ h. h)
In-distinct k (x ∷ xs) = (
  λ h. ground (arith, (In-distinct k xs).0),
  λ h. ground (arith, (In-distinct k xs).1, (has_text_iff x xs).0),
)
