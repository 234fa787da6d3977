-- ===== src/Store/Table.antt =====
-- Tables as lists of rows: a query for the first row with a key, and an update of all with a key.
use find_language_tutor.Prelude.{
  ℕ, ◌≡◌, refl, Option, none, some, List, [], ◌∷◌, ◌++◌, arith, ◌==◌, if◌then◌else◌,
}
use mathlib.Core.Option as Option

module _ {A : Type 0} (key : A → ℕ) where
  -- SELECT … WHERE key = k, for a key that at most one row has.
  unfoldable pub find : ℕ → List A → Option A
  find k [] = none
  find k (r ∷ rs) = if key r == k then some r else find k rs

  -- UPDATE … WHERE key = k.
  unfoldable pub modify : ℕ → (A → A) → List A → List A
  modify k f [] = []
  modify k f (r ∷ rs) = (if key r == k then f r else r) ∷ modify k f rs

  pub modify-ext :
      (k : ℕ) (f g : A → A) (rs : List A) → ((r : A) → f r ≡ g r) → modify k f rs ≡ modify k g rs
  unfolding modify
  modify-ext k f g [] same = refl
  modify-ext k f g (r ∷ rs) same = ground (arith, modify-ext k f g rs same, same r)

  pub find-key : (k : ℕ) (rs : List A) (r : A) → find k rs ≡ some r → key r ≡ k
  unfolding find
  find-key k [] r h = cc
  find-key k (x ∷ rs) r h = ground (arith, find-key k rs r)

  -- What an update by the key does to a query by the key.
  pub find-modify :
      (k j : ℕ) (f : A → A) (rs : List A)
      → ((r : A) → key (f r) ≡ key r)
      → find k (modify j f rs) ≡ (if k == j then Option.map f (find k rs) else find k rs)
  unfolding find modify
  find-modify k j f [] same = ground arith
  find-modify k j f (r ∷ rs) same = ground (arith, find-modify k j f rs same, same r)

  -- Appending a row.
  pub find-snoc :
      (k : ℕ) (rs : List A) (r : A)
      → find k (rs ++ r ∷ [])
        ≡ elim (find k rs) [ none ↦ if key r == k then some r else none | some x ↦ some x ]
  unfolding find
  find-snoc k [] r = ground arith
  find-snoc k (x ∷ rs) r = ground (arith, find-snoc k rs r)

-- What an update by one column does to a query by another.
module _ {A : Type 0} (key col : A → ℕ) where
  pub find-modify_by :
      (k j : ℕ) (f : A → A) (rs : List A)
      → ((r : A) → key (f r) ≡ key r)
      → find key k (modify col j f rs)
        ≡ Option.map (λ r. if col r == j then f r else r) (find key k rs)
  unfolding find modify
  find-modify_by k j f [] same = refl
  find-modify_by k j f (r ∷ rs) same = ground (arith, find-modify_by k j f rs same, same r)
