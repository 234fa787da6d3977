-- ===== src/Prelude/Page.antt =====
-- The rows of a query: those that pass its condition, and a page of them.
use Prim.Native.Nat.{ℕ, zero, suc, ◌-◌, ◌%◌, ◌^◌, ◌≤◌}
use mathlib.Core.Path.{◌≡◌, refl, ap, ◌∙◌}
use mathlib.Core.Bool.{Bool, true, false, not}
use mathlib.Core.Option.{Option, none, some}
use mathlib.Core.List.{List, [], ◌∷◌, ◌++◌, append-nil}
use native.Mathlib.Omega.{arith}
use find_language_tutor.Prelude.Tests.{ltb, leb, if◌then◌else◌}
use find_language_tutor.Prelude.Lists.{All, All-map, length}

-- The int32 of an offset: `none` where it is negative, which the database refuses.
abbrev pub offset_int32 : ℕ → Option ℕ
offset_int32 n = let m = n % 2 ^ 32 in if ltb m (2 ^ 31) then some m else none

not-true : (b : Bool) → not b ≡ true → b ≡ false
not-true true h = absurd (cc)
not-true false h = refl

module _ {A : Type 0} where
  unfoldable pub select : (A → Bool) → List A → List A
  select p [] = []
  select p (r ∷ rs) = let rest = select p rs in if p r then r ∷ rest else rest

  abbrev pub drop : ℕ → List A → List A
  drop zero rs = rs
  drop (suc n) [] = []
  drop (suc n) (r ∷ rs) = drop n rs

  abbrev pub take : ℕ → List A → List A
  take zero rs = []
  take (suc n) [] = []
  take (suc n) (r ∷ rs) = r ∷ take n rs

  pub select-append :
      (p : A → Bool) (rs ss : List A) → select p (rs ++ ss) ≡ select p rs ++ select p ss
  unfolding select
  select-append p [] ss = refl
  select-append p (r ∷ rs) ss = ground (arith, select-append p rs ss)

  pub All-select :
      (P : A → Type 0) (p : A → Bool) (rs : List A)
      → ((r : A) → p r ≡ true → P r)
      → All P (select p rs)
  unfolding select
  All-select P p [] h = tt
  All-select P p (r ∷ rs) h = ground (arith, All-select P p rs h, h r)

  pub All-drop : (P : A → Type 0) (n : ℕ) (rs : List A) → All P rs → All P (drop n rs)
  All-drop P zero rs h = h
  All-drop P (suc n) [] h = tt
  All-drop P (suc n) (r ∷ rs) h = All-drop P n rs h.1

  pub All-take : (P : A → Type 0) (n : ℕ) (rs : List A) → All P rs → All P (take n rs)
  All-take P zero rs h = tt
  All-take P (suc n) [] h = tt
  All-take P (suc n) (r ∷ rs) h = (h.0, All-take P n rs h.1)

  pub length-take : (n : ℕ) (rs : List A) → length (take n rs) ≤ n
  length-take zero rs = omega arith
  length-take (suc n) [] = omega arith
  length-take (suc n) (r ∷ rs) = omega (arith, length-take n rs)

  pub length-take_eq :
      (n : ℕ) (rs : List A) → length (take n rs) ≡ (if leb n (length rs) then n else length rs)
  length-take_eq zero rs = ground arith
  length-take_eq (suc n) [] = ground arith
  length-take_eq (suc n) (r ∷ rs) = ground (arith, length-take_eq n rs)

  pub length-drop : (n : ℕ) (rs : List A) → length (drop n rs) ≡ length rs - n
  length-drop zero rs = omega arith
  length-drop (suc n) [] = omega arith
  length-drop (suc n) (r ∷ rs) = omega (arith, length-drop n rs)

  -- The same, for rows of which something is known.
  pub All-select_of :
      (Q P : A → Type 0) (p : A → Bool) (rs : List A)
      → ((r : A) → Q r → p r ≡ true → P r)
      → All Q rs
      → All P (select p rs)
  unfolding select
  All-select_of Q P p [] h k = tt
  All-select_of Q P p (r ∷ rs) h k = ground (arith, All-select_of Q P p rs h k.1, h r k.0)

  pub select_every : (p : A → Bool) (rs : List A) → All (λ r. p r ≡ true) rs → select p rs ≡ rs
  unfolding select
  select_every p [] h = refl
  select_every p (r ∷ rs) h = rw h.0 (ap (◌∷◌ r) (select_every p rs h.1))

  pub select_nothing : (p : A → Bool) (rs : List A) → All (λ r. p r ≡ false) rs → select p rs ≡ []
  unfolding select
  select_nothing p [] h = refl
  select_nothing p (r ∷ rs) h = rw h.0 (select_nothing p rs h.1)

  -- Both halves of a split, behind one another.
  pub select_split :
      (p : A → Bool) (rs : List A)
      → (select p (select p rs ++ select (λ r. not (p r)) rs) ≡ select p rs)
        × (select (λ r. not (p r)) (select p rs ++ select (λ r. not (p r)) rs)
            ≡ select (λ r. not (p r)) rs)
  select_split p rs =
      let chosen = All-select (λ r. p r ≡ true) p rs (λ r h. h) in
      let left = All-select (λ r. p r ≡ false) (λ r. not (p r)) rs (λ r h. not-true (p r) h) in
      let q : A → Bool = λ r. not (p r) in
      (
        select-append p (select p rs) (select q rs)
            ∙ rw (select_every p (select p rs) chosen, select_nothing p (select q rs) left)
                (append-nil (select p rs)),
        select-append q (select p rs) (select q rs)
            ∙ rw
                (
                  select_nothing q (select p rs) (
                      All-map (λ r. p r ≡ true) (λ r. q r ≡ false) (select p rs) (λ r h. rw h refl)
                        chosen),
                  select_every q (select q rs) (
                      All-map (λ r. p r ≡ false) (λ r. q r ≡ true) (select q rs) (λ r h. rw h refl)
                        left),
                )
                refl,
      )
