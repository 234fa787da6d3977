-- ===== src/Prelude/Rows.antt =====
-- Tables whose rows are selected by a test: the first row, an update, a deletion, and whether
-- there is one.
use mathlib.Core.Path.{◌≡◌, refl, subst}
use mathlib.Core.Option.{Option, none, some}
use mathlib.Core.Option as Option
use mathlib.Core.Bool.{Bool, true, false, ◌||◌}
use mathlib.Core.List.{List, [], ◌∷◌, ◌++◌}
use native.Mathlib.Omega.{arith}
use find_language_tutor.Prelude.Tests.{if◌then◌else◌, Bool-cases}
use mathlib.Core.Logic.{◌↔◌, inl, inr}
use find_language_tutor.Prelude.Lists.{All, Any}

module _ {A : Type 0} (p : A → Bool) where
  -- SELECT … WHERE p, for at most one row.
  unfoldable pub first_where : List A → Option A
  first_where [] = none
  first_where (r ∷ rs) = if p r then some r else first_where rs

  -- UPDATE … WHERE p.
  unfoldable pub update_where : (A → A) → List A → List A
  update_where f [] = []
  update_where f (r ∷ rs) = (if p r then f r else r) ∷ update_where f rs

  -- DELETE … WHERE p.
  unfoldable pub delete_where : List A → List A
  delete_where [] = []
  delete_where (r ∷ rs) = let rest = delete_where rs in if p r then rest else r ∷ rest

  unfoldable pub exists_where : List A → Bool
  exists_where [] = false
  exists_where (r ∷ rs) = p r || exists_where rs

  -- The row that is found passes the test.
  pub first_where-passes : (rs : List A) (r : A) → first_where rs ≡ some r → p r ≡ true
  unfolding first_where
  first_where-passes [] r h = cc
  first_where-passes (x ∷ rs) r h = ground (arith, first_where-passes rs r)

  -- A row that is appended does not change what was found before.
  pub first_where-append :
      (rs ss : List A) (r : A) → first_where rs ≡ some r → first_where (rs ++ ss) ≡ some r
  unfolding first_where
  first_where-append [] ss r h = cc
  first_where-append (x ∷ rs) ss r h = ground (arith, first_where-append rs ss r)

  -- What every row is after an update.
  pub All-update_where :
      (P : A → Type 0) (f : A → A) (rs : List A)
      → ((r : A) → p r ≡ true → P (f r))
      → ((r : A) → p r ≡ false → P r)
      → All P (update_where f rs)
  unfolding update_where
  All-update_where P f [] t e = tt
  All-update_where P f (r ∷ rs) t e = (ground (arith, t r, e r), All-update_where P f rs t e)

  -- The same, for a property that the change keeps.
  pub All-update_where_of :
      (P : A → Type 0) (f : A → A) (rs : List A)
      → ((r : A) → P r → P (f r))
      → All P rs
      → All P (update_where f rs)
  unfolding update_where
  All-update_where_of P f [] k h = tt
  All-update_where_of P f (r ∷ rs) k h =
      (ground (arith, k r h.0, h.0), All-update_where_of P f rs k h.1)

  pub All-first_where :
      (P : A → Type 0) (rs : List A) (r : A) → All P rs → first_where rs ≡ some r → P r
  unfolding first_where
  All-first_where P [] r h e = cc
  All-first_where P (x ∷ rs) r h e = elim (Bool-cases (p x)) [
    | inl t ↦ subst P (ground (arith, e, t)) h.0
    | inr t ↦ All-first_where P rs r h.1 (ground (arith, e, t))
  ]

  pub All-delete_where : (P : A → Type 0) (rs : List A) → All P rs → All P (delete_where rs)
  unfolding delete_where
  All-delete_where P [] h = tt
  All-delete_where P (r ∷ rs) h = ground (arith, All-delete_where P rs h.1)

  -- What is left after a deletion.
  pub delete_where-passes : (rs : List A) → All (λ r. p r ≡ false) (delete_where rs)
  unfolding delete_where
  delete_where-passes [] = tt
  delete_where-passes (r ∷ rs) = ground (arith, delete_where-passes rs)

  pub exists_where-append :
      (rs ss : List A) → exists_where (rs ++ ss) ≡ exists_where rs || exists_where ss
  unfolding exists_where
  exists_where-append [] ss = refl
  exists_where-append (r ∷ rs) ss = ground (arith, exists_where-append rs ss)

  pub exists_where_none : (rs : List A) → All (λ r. p r ≡ false) rs → exists_where rs ≡ false
  unfolding exists_where
  exists_where_none [] h = refl
  exists_where_none (r ∷ rs) h = ground (arith, exists_where_none rs h.1, h.0)

  -- A row behind those that do not pass.
  pub first_where-append_none :
      (rs ss : List A) → first_where rs ≡ none → first_where (rs ++ ss) ≡ first_where ss
  unfolding first_where
  first_where-append_none [] ss h = refl
  first_where-append_none (r ∷ rs) ss h = ground (arith, first_where-append_none rs ss)

  pub first_where-exists : (rs : List A) → exists_where rs ≡ false → first_where rs ≡ none
  unfolding first_where exists_where
  first_where-exists [] h = refl
  first_where-exists (r ∷ rs) h = ground (arith, first_where-exists rs)

  pub exists_where_iff : (rs : List A) → (exists_where rs ≡ true) ↔ Any (λ r. p r ≡ true) rs
  unfolding exists_where
  exists_where_iff [] = (λ h. cc, λ h. absurd h)
  exists_where_iff (r ∷ rs) =
      (λ h. ground (arith, (exists_where_iff rs).0), λ h. ground (arith, (exists_where_iff rs).1))

-- An update by one test, against a query by another that it does not change.
module _ {A : Type 0} (p q : A → Bool) (f : A → A) where
  pub first_where-update_where :
      (rs : List A)
      → ((r : A) → p (f r) ≡ p r)
      → first_where p (update_where q f rs)
        ≡ Option.map (λ r. if q r then f r else r) (first_where p rs)
  unfolding first_where update_where
  first_where-update_where [] same = refl
  first_where-update_where (r ∷ rs) same = ground (arith, first_where-update_where rs same, same r)

-- A deletion, against a query that finds none of the rows that go.
pub first_where-delete_where :
    {A : Type 0} (p q : A → Bool) (rs : List A)
    → ((r : A) → p r ≡ true → q r ≡ false)
    → first_where p (delete_where q rs) ≡ first_where p rs
unfolding first_where delete_where
first_where-delete_where p q [] apart = refl
first_where-delete_where p q (r ∷ rs) apart =
    ground (arith, first_where-delete_where p q rs apart, apart r)
