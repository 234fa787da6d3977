-- ===== src/Prelude/Distinct.antt =====
-- Different entries of a list are at most as many as the list has.
use Prim.Native.Nat.{ℕ, zero, suc, ◌≤◌, ◌<◌}
use mathlib.Core.Path.{◌≡◌, refl, sym, ◌∙◌}
use mathlib.Core.Logic.{◌≢◌, inl, inr}
use mathlib.Core.List.{List, [], ◌∷◌}
use native.Mathlib.Omega.{arith}
use find_language_tutor.Prelude.Lists.{length, In}

module _ {A : Type 0} where
  -- The list without one of its entries.
  without : (x : A) (xs : List A) → In x xs → List A
  without x [] h = absurd h
  without x (y ∷ ys) (inl e) = ys
  without x (y ∷ ys) (inr h) = y ∷ without x ys h

  length-without : (x : A) (xs : List A) (h : In x xs) → length xs ≡ suc (length (without x xs h))
  unfolding without
  length-without x [] h = absurd h
  length-without x (y ∷ ys) (inl e) = refl
  length-without x (y ∷ ys) (inr h) = omega (arith, length-without x ys h)

  In-without : (x z : A) (xs : List A) (h : In x xs) → z ≢ x → In z xs → In z (without x xs h)
  unfolding without
  In-without x z [] h apart m = absurd h
  In-without x z (y ∷ ys) (inl e) apart (inl f) = absurd (apart (sym f ∙ e))
  In-without x z (y ∷ ys) (inl e) apart (inr m) = m
  In-without x z (y ∷ ys) (inr h) apart (inl f) = inl f
  In-without x z (y ∷ ys) (inr h) apart (inr m) = inr (In-without x z ys h apart m)

  -- A sequence of `k` different entries.
  pub distinct_le_length :
      (k : ℕ) (f : ℕ → A) (xs : List A)
      → ((i j : ℕ) → f i ≡ f j → i ≡ j)
      → ((i : ℕ) → i < k → In (f i) xs)
      → k ≤ length xs
  distinct_le_length zero f xs inj m = omega arith
  distinct_le_length (suc k) f xs inj m =
      let h : In (f k) xs = m k (omega arith) in
      omega (
        arith,
        length-without (f k) xs h,
        distinct_le_length k f (without (f k) xs h) inj (λ i lt.
            In-without (f k) (f i) xs h (λ e. absurd (omega (arith, inj i k e, lt)))
              (m i (omega arith))),
      )
