-- ===== src/Prelude/Sort.antt =====
-- `sort.Slice` with a comparison of numeric keys, as insertion sort. Go's sort is not stable; no
-- theorem depends on the order of entries with equal keys.
use Prim.Native.Nat.{ℕ, ◌≤◌, ◌+◌}
use mathlib.Core.Path.{◌≡◌}
use mathlib.Core.Logic.{◌↔◌, ◌⊎◌, inl, inr}
use mathlib.Core.List.{List, [], ◌∷◌}
use native.Mathlib.Omega.{arith}
use find_language_tutor.Prelude.Tests.{leb, if◌then◌else◌}
use find_language_tutor.Prelude.Lists.{All, Any, length}

module _ {A : Type 0} (key : A → ℕ) where
  unfoldable pub insert_by : A → List A → List A
  insert_by a [] = a ∷ []
  insert_by a (x ∷ xs) =
      let rest = insert_by a xs in if leb (key a) (key x) then a ∷ x ∷ xs else x ∷ rest

  unfoldable pub sort_by : List A → List A
  unfolding insert_by
  sort_by [] = []
  sort_by (x ∷ xs) = insert_by x (sort_by xs)

  -- The keys do not fall, and are `low` or more.
  abbrev pub Rising : ℕ → List A → Type 0
  Rising low [] = Unit {0}
  Rising low (x ∷ xs) = (low ≤ key x) × Rising (key x) xs

  pub Rising-mono : (l h : ℕ) (xs : List A) → l ≤ h → Rising h xs → Rising l xs
  Rising-mono l h [] le r = tt
  Rising-mono l h (x ∷ xs) le r = (omega arith, r.1)

  pub Rising-All : (low : ℕ) (xs : List A) → Rising low xs → All (λ x. low ≤ key x) xs
  Rising-All low [] r = tt
  Rising-All low (x ∷ xs) r = (r.0, Rising-All low xs (Rising-mono low (key x) xs r.0 r.1))

  insert_by-Rising :
      (low : ℕ) (a : A) (xs : List A) → low ≤ key a → Rising low xs → Rising low (insert_by a xs)
  unfolding insert_by
  insert_by-Rising low a [] h r = (h, tt)
  insert_by-Rising low a (x ∷ xs) h r = ground (arith, insert_by-Rising (key x) a xs)

  pub sort_by-Rising : (xs : List A) → Rising 0 (sort_by xs)
  unfolding sort_by
  sort_by-Rising [] = tt
  sort_by-Rising (x ∷ xs) = insert_by-Rising 0 x (sort_by xs) (omega arith) (sort_by-Rising xs)

  length-insert_by : (a : A) (xs : List A) → length (insert_by a xs) ≡ length xs + 1
  unfolding insert_by
  length-insert_by a [] = omega arith
  length-insert_by a (x ∷ xs) = ground (arith, length-insert_by a xs)

  pub length-sort_by : (xs : List A) → length (sort_by xs) ≡ length xs
  unfolding sort_by
  length-sort_by [] = omega arith
  length-sort_by (x ∷ xs) = omega (arith, length-insert_by x (sort_by xs), length-sort_by xs)

  module _ (P : A → Type 0) where
    Any-insert_by : (a : A) (xs : List A) → Any P (insert_by a xs) → P a ⊎ Any P xs
    unfolding insert_by
    Any-insert_by a [] h = h
    Any-insert_by a (x ∷ xs) h = ground (arith, Any-insert_by a xs)

    Any-insert_by_of : (a : A) (xs : List A) → P a ⊎ Any P xs → Any P (insert_by a xs)
    unfolding insert_by
    Any-insert_by_of a [] h = h
    Any-insert_by_of a (x ∷ xs) h = ground (arith, Any-insert_by_of a xs)

    pub Any-sort_by : (xs : List A) → Any P (sort_by xs) ↔ Any P xs
    unfolding sort_by
    Any-sort_by [] = (λ h. h, λ h. h)
    Any-sort_by (x ∷ xs) = (
      λ h. elim (Any-insert_by x (sort_by xs) h) [
        | inl p ↦ inl p
        | inr q ↦ inr ((Any-sort_by xs).0 q)
      ],
      λ h.
          Any-insert_by_of x (sort_by xs)
            (elim h [ inl p ↦ inl p | inr q ↦ inr ((Any-sort_by xs).1 q) ]),
    )

    pub All-insert_by : (a : A) (xs : List A) → P a → All P xs → All P (insert_by a xs)
    unfolding insert_by
    All-insert_by a [] p h = (p, tt)
    All-insert_by a (x ∷ xs) p h = ground (arith, All-insert_by a xs p h.1)

    pub All-sort_by : (xs : List A) → All P xs → All P (sort_by xs)
    unfolding sort_by
    All-sort_by [] h = tt
    All-sort_by (x ∷ xs) h = All-insert_by x (sort_by xs) h.0 (All-sort_by xs h.1)

    pub All-insert_by_of : (a : A) (xs : List A) → All P (insert_by a xs) → P a × All P xs
    unfolding insert_by
    All-insert_by_of a [] h = h
    All-insert_by_of a (x ∷ xs) h = ground (arith, All-insert_by_of a xs)

    pub All-sort_by_of : (xs : List A) → All P (sort_by xs) → All P xs
    unfolding sort_by
    All-sort_by_of [] h = tt
    All-sort_by_of (x ∷ xs) h =
        let step = All-insert_by_of x (sort_by xs) h in (step.0, All-sort_by_of xs step.1)
