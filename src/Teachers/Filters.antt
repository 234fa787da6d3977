-- ===== src/Teachers/Filters.antt =====
-- What the filters of a search mean, and that the query of the public list applies just these.
use Prim.Native.String.{String}
use text.Mathlib.Text.{◌==◌ as str_eq}
use text.Mathlib.TextEquality.{eq_iff}
use find_language_tutor.Prelude.{
  ℕ, zero, suc, ◌≡◌, ◌≢◌, refl, sym, subst, ◌↔◌, ◌⊎◌, inl, inr, Bool, true, false, not, ◌&&◌, ◌||◌,
  Option, none, some, List, [], ◌∷◌, length, leb, ◌==◌, if◌then◌else◌, Any, arith, Bool-cases,
}
use find_language_tutor.Prelude.Int.{ℤ, pos, negsuc, pos_part, ◌≤ℤ◌, ltb_ℤ}
use find_language_tutor.Prelude.Page.{select}
use find_language_tutor.Prelude.Rows.{exists_where_iff}
use find_language_tutor.Teachers.{
  TeacherStatus, pending, approved, rejected, suspended, TeacherRow, LanguageRow, FocusRow, Catalog,
  Texts,
}
use find_language_tutor.Teachers.Profile.{valid_kind}
use find_language_tutor.Teachers.Repository.{is_taught}
use find_language_tutor.Teachers.Service.{is_approved}
use find_language_tutor.Teachers.Search.{
  ListParams, ceiling, page_size_of, normalized, has_text, under, teaches_language, is_listed,
}

abbrev pub IsKind : String → Type 0
IsKind k = (k ≡ "professional") ⊎ (k ≡ "community")

abbrev pub IsTaughtBy : TeacherRow → String → LanguageRow → Type 0
IsTaughtBy r code l = (l.teacher_id ≡ r.id) × (l.role ≡ "teaches") × (l.code ≡ code)

-- The profile is public, and passes the filters that were asked for: a kind that is one of the two,
-- a price that is not negative, a language and a text that are not empty.
pub record Passes (contains : String → String → Bool) (asked : ListParams) (s : Catalog)
    (r : TeacherRow) : Type 0 where
  pub live : r.status ≡ approved
  pub kind : IsKind asked.kind → r.fields.kind ≡ asked.kind
  pub price :
      (v : ℕ) → asked.max_price_minor ≡ some (pos v) → r.fields.price_per_hour_minor ≤ℤ pos v
  pub language : asked.language ≢ "" → Any (IsTaughtBy r asked.language) s.languages
  pub text :
      asked.q ≢ ""
      → (contains r.fields.display_name asked.q ≡ true)
        ⊎ (contains r.fields.headline asked.q ≡ true)
        ⊎ Any (λ (t : FocusRow). (t.teacher_id ≡ r.id) × (contains t.tag asked.q ≡ true)) s.focus

-- How many rows have the property.
pub data Count (P : TeacherRow → Type 0) : List TeacherRow → ℕ → Type 0 where
  no_more : Count P [] 0
  one_more :
      {n : ℕ} {r : TeacherRow} {rs : List TeacherRow}
      → P r
      → Count P rs n
      → Count P (r ∷ rs) (suc n)
  left_out :
      {n : ℕ} {r : TeacherRow} {rs : List TeacherRow} → ¬ P r → Count P rs n → Count P (r ∷ rs) n

select-Count :
    (P : TeacherRow → Type 0) (p : TeacherRow → Bool) (rs : List TeacherRow)
    → ((r : TeacherRow) → (p r ≡ true) ↔ P r)
    → Count P rs (length (select p rs))
unfolding select
select-Count P p [] h = no_more
select-Count P p (r ∷ rs) h = elim (Bool-cases (p r)) [
  | inl e ↦ rw e (one_more ((h r).0 e) (select-Count P p rs h))
  | inr e ↦ rw e (left_out (λ k. absurd (cc (e, (h r).1 k))) (select-Count P p rs h))
]

Any-map :
    {A : Type 0} (P Q : A → Type 0) (xs : List A) → ((x : A) → P x → Q x) → Any P xs → Any Q xs
Any-map P Q [] f h = h
Any-map P Q (x ∷ xs) f (inl h) = inl (f x h)
Any-map P Q (x ∷ xs) f (inr h) = inr (Any-map P Q xs f h)

differs : (a b : String) → a ≢ b → str_eq a b ≡ false
differs a b ne = elim (Bool-cases (str_eq a b)) [
  | inl e ↦ absurd (ne ((eq_iff a b).0 e))
  | inr e ↦ e
]

differs_of : (a b : String) → str_eq a b ≡ false → a ≢ b
differs_of a b e q = absurd (cc (e, (eq_iff a b).1 q))

live_iff : (st : TeacherStatus) → (is_approved st ≡ true) ↔ (st ≡ approved)
live_iff pending = (λ h. absurd (cc), λ h. absurd (cc))
live_iff approved = (λ h. refl, λ h. refl)
live_iff rejected = (λ h. absurd (cc), λ h. absurd (cc))
live_iff suspended = (λ h. absurd (cc), λ h. absurd (cc))

abbrev kind_asked : String → String
kind_asked k = if not (str_eq k "") && not (valid_kind k) then "" else k

IsKind-valid : (k : String) → IsKind k → (valid_kind k ≡ true) × (str_eq k "" ≡ false)
unfolding valid_kind
IsKind-valid k (inl e) =
    subst (λ u. (valid_kind u ≡ true) × (str_eq u "" ≡ false)) (sym e) (refl, refl)
IsKind-valid k (inr e) =
    subst (λ u. (valid_kind u ≡ true) × (str_eq u "" ≡ false)) (sym e) (refl, refl)

valid-IsKind : (k : String) → valid_kind k ≡ true → IsKind k
unfolding valid_kind
valid-IsKind k h = elim (Bool-cases (str_eq k "professional")) [
  | inl e ↦ inl ((eq_iff k "professional").0 e)
  | inr e ↦ inr ((eq_iff k "community").0 (ground (arith, e, h)))
]

asked_iff :
    (k x : String)
    → ((str_eq (kind_asked k) "" || str_eq x (kind_asked k)) ≡ true) ↔ (IsKind k → x ≡ k)
asked_iff k x = (
  λ h is. (eq_iff x k).0 (ground (arith, (IsKind-valid k is).0, (IsKind-valid k is).1, h)),
  λ h. elim (Bool-cases (str_eq k "")) [
    | inl e ↦ rw (e, e) refl
    | inr e ↦ elim (Bool-cases (valid_kind k)) [
      | inl f ↦ ground (arith, e, f, (eq_iff x k).1 (h (valid-IsKind k f)))
      | inr f ↦ rw (e, f) refl
    ]
  ],
)

taught_iff :
    (r : TeacherRow) (code : String) (l : LanguageRow)
    → ((l.teacher_id == r.id) && is_taught l && str_eq l.code code ≡ true) ↔ IsTaughtBy r code l
taught_iff r code l = (
  λ h. (
    ground (arith, h),
    (eq_iff l.role "teaches").0 (ground (arith, h)),
    (eq_iff l.code code).0 (ground (arith, h)),
  ),
  λ h. ground (arith, h.0, (eq_iff l.role "teaches").1 h.1, (eq_iff l.code code).1 h.2),
)

module _ (texts : Texts) (contains : String → String → Bool) where
  price_iff :
      (o : Option ℤ) (r : TeacherRow)
      → (under texts contains (ceiling o) r ≡ true)
        ↔ ((v : ℕ) → o ≡ some (pos v) → r.fields.price_per_hour_minor ≤ℤ pos v)
  unfolding ceiling
  price_iff none r = (λ h v e. absurd (cc), λ h. refl)
  price_iff (some (pos n)) r = (λ h v e. ground (arith, e, h), λ h. ground (arith, h n refl))
  price_iff (some (negsuc n)) r = (λ h v e. absurd (cc), λ h. ground arith)

  language_iff :
      (code : String) (s : Catalog) (r : TeacherRow)
      → ((str_eq code "" || teaches_language texts contains code s r) ≡ true)
        ↔ (code ≢ "" → Any (IsTaughtBy r code) s.languages)
  unfolding teaches_language
  language_iff code s r =
      let p : LanguageRow → Bool =
        λ l. (l.teacher_id == r.id) && is_taught l && str_eq l.code code in
      let some_row = exists_where_iff p s.languages in
      (
        λ h ne.
            Any-map (λ l. p l ≡ true) (IsTaughtBy r code) s.languages (λ l. (taught_iff r code l).0)
              (some_row.0 (ground (arith, h, differs code "" ne))),
        λ h. elim (Bool-cases (str_eq code "")) [
          | inl e ↦ rw e refl
          | inr e ↦ rw e (
              some_row.1 (
                Any-map (IsTaughtBy r code) (λ l. p l ≡ true) s.languages
                  (λ l. (taught_iff r code l).1) (h (differs_of code "" e))))
        ],
      )

  text_iff :
      (q : String) (s : Catalog) (r : TeacherRow)
      → ((str_eq q "" || has_text texts contains q s r) ≡ true) ↔ (
          q ≢ ""
          → (contains r.fields.display_name q ≡ true)
            ⊎ (contains r.fields.headline q ≡ true)
            ⊎ Any (λ (t : FocusRow). (t.teacher_id ≡ r.id) × (contains t.tag q ≡ true)) s.focus)
  unfolding has_text
  text_iff q s r =
      let p : FocusRow → Bool = λ t. (t.teacher_id == r.id) && contains t.tag q in
      let P : FocusRow → Type 0 = λ t. (t.teacher_id ≡ r.id) × (contains t.tag q ≡ true) in
      let some_row = exists_where_iff p s.focus in
      (
        λ h ne. elim (Bool-cases (contains r.fields.display_name q)) [
          | inl e ↦ inl e
          | inr e ↦ elim (Bool-cases (contains r.fields.headline q)) [
            | inl f ↦ inr (inl f)
            | inr f ↦ inr (
                inr (
                  Any-map (λ t. p t ≡ true) P s.focus
                    (λ t k. (ground (arith, k), ground (arith, k)))
                    (some_row.0 (ground (arith, h, e, f, differs q "" ne)))))
          ]
        ],
        λ h. elim (Bool-cases (str_eq q "")) [
          | inl e ↦ rw e refl
          | inr e ↦ elim (h (differs_of q "" e)) [
            | inl k ↦ ground (arith, e, k)
            | inr (inl k) ↦ ground (arith, e, k)
            | inr (inr k) ↦ ground (
              arith,
              e,
              some_row.1 (Any-map P (λ t. p t ≡ true) s.focus (λ t m. ground (arith, m.0, m.1)) k),
            )
          ]
        ],
      )

  -- The query of the list, with the normalized parameters, against the parameters as they came.
  pub is_listed_iff :
      (asked : ListParams) (s : Catalog) (r : TeacherRow)
      → (is_listed texts contains (normalized asked) s r ≡ true) ↔ Passes contains asked s r
  unfolding is_listed normalized
  is_listed_iff asked s r =
      let kinds = asked_iff asked.kind r.fields.kind in
      let prices = price_iff asked.max_price_minor r in
      let languages = language_iff asked.language s r in
      let words = text_iff asked.q s r in
      (
        λ h. record {
          live = (live_iff r.status).0 (ground (arith, h));
          kind = kinds.0 (ground (arith, h));
          price = prices.0 (ground (arith, h));
          language = languages.0 (ground (arith, h));
          text = words.0 (ground (arith, h));
        },
        λ h. ground (
          arith,
          (live_iff r.status).1 h.live,
          kinds.1 h.kind,
          prices.1 h.price,
          languages.1 h.language,
          words.1 h.text,
        ),
      )

  pub total_listed :
      (asked : ListParams) (s : Catalog)
      → Count
          (Passes contains asked s)
          s.teachers
          (length (select (is_listed texts contains (normalized asked) s) s.teachers))
  total_listed asked s =
      select-Count (Passes contains asked s) (is_listed texts contains (normalized asked) s)
        s.teachers (is_listed_iff asked s)

-- The page and its size that a request gets.
abbrev pub page_given : ℤ → ℕ
page_given (pos zero) = 1
page_given (pos (suc n)) = suc n
page_given (negsuc n) = 1

abbrev pub size_given : ℤ → ℕ
size_given (pos zero) = 20
size_given (pos (suc n)) = if leb (suc n) 100 then suc n else 100
size_given (negsuc n) = 20

size_given_lem : (n : ℤ) → pos_part (page_size_of n) ≡ size_given n
unfolding page_size_of
size_given_lem (pos zero) = refl
size_given_lem (pos (suc n)) = ground arith
size_given_lem (negsuc n) = ground arith

page_given_lem : (n : ℤ) → pos_part (if ltb_ℤ n (pos 1) then pos 1 else n) ≡ page_given n
page_given_lem (pos zero) = refl
page_given_lem (pos (suc n)) = ground arith
page_given_lem (negsuc n) = ground arith

pub normalized-size :
    (asked : ListParams) → pos_part (normalized asked).page_size ≡ size_given asked.page_size
unfolding normalized
normalized-size asked = size_given_lem asked.page_size

pub normalized-page :
    (asked : ListParams) → pos_part (normalized asked).page ≡ page_given asked.page
unfolding normalized
normalized-page asked = page_given_lem asked.page
