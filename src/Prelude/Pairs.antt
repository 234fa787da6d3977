-- ===== src/Prelude/Pairs.antt =====
-- A relation between each entry of a list and those after it.
use mathlib.Core.Bool.{Bool}
use mathlib.Core.Logic.{inl, inr}
use mathlib.Core.List.{List, [], ◌∷◌, ◌++◌}
use find_language_tutor.Prelude.Tests.{Bool-cases}
use find_language_tutor.Prelude.Lists.{All, All-map}
use find_language_tutor.Prelude.Rows.{update_where, All-update_where_of}

abbrev pub AllPairs : {A : Type 0} → (A → A → Type 0) → List A → Type 0
AllPairs R [] = Unit
AllPairs R (x ∷ xs) = All (R x) xs × AllPairs R xs

module _ {A : Type 0} (R : A → A → Type 0) where
  All-snoc : (P : A → Type 0) (xs : List A) (y : A) → All P xs → P y → All P (xs ++ y ∷ [])
  All-snoc P [] y h k = (k, tt)
  All-snoc P (x ∷ xs) y h k = (h.0, All-snoc P xs y h.1 k)

  pub AllPairs-snoc :
      (xs : List A) (y : A) → AllPairs R xs → All (λ x. R x y) xs → AllPairs R (xs ++ y ∷ [])
  AllPairs-snoc [] y h k = (tt, tt)
  AllPairs-snoc (x ∷ xs) y h k = (All-snoc (R x) xs y h.0 k.0, AllPairs-snoc xs y h.1 k.1)

  -- An update that the relation does not see.
  pub AllPairs-update_where :
      (p : A → Bool) (f : A → A) (xs : List A)
      → ((x y : A) → R x y → R (f x) y)
      → ((x y : A) → R x y → R x (f y))
      → AllPairs R xs
      → AllPairs R (update_where p f xs)
  unfolding update_where
  AllPairs-update_where p f [] left right h = tt
  AllPairs-update_where p f (x ∷ xs) left right h =
      let rest = AllPairs-update_where p f xs left right h.1 in
      let kept = All-update_where_of p (R x) f xs (λ y. right x y) h.0 in
      elim (Bool-cases (p x)) [
        | inl e ↦ rw e (All-map (R x) (R (f x)) (update_where p f xs) (λ y. left x y) kept, rest)
        | inr e ↦ rw e (kept, rest)
      ]
