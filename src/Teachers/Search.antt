-- ===== src/Teachers/Search.antt =====
-- The public catalogue: ListParams and normalized of teacher.go, List of service.go, and the
-- queries List and LanguageFacets of repository_postgres.go. `contains` is ILIKE with its argument
-- between two `%`.
use Prim.Native.String.{String}
use text.Mathlib.Text.{◌==◌ as str_eq}
use find_language_tutor.Prelude.{
  ℕ, suc, ◌-◌, ◌*◌, Bool, true, false, not, ◌&&◌, ◌||◌, Option, none, some, List, [], ◌∷◌, map, ltb,
  ◌==◌, length, if◌then◌else◌,
}
use find_language_tutor.Prelude.Int.{ℤ, pos, pos_part, ltb_ℤ}
use find_language_tutor.Prelude.Order.{sort_with}
use find_language_tutor.Prelude.Page.{select, take, drop, offset_int32}
use find_language_tutor.Prelude.Rows.{exists_where}
use find_language_tutor.Effect.{Call, pure, gets, or_raise, ◌>>=◌}
use find_language_tutor.Teachers.{
  TeacherRow, LanguageRow, FocusRow, Teacher, Catalog, TeacherError, database_error, Texts,
}
use find_language_tutor.Teachers.Profile.{valid_kind}
use find_language_tutor.Teachers.Repository.{is_taught, attach}
use find_language_tutor.Teachers.Service.{is_approved}

abbrev pub default_page_size : ℤ
default_page_size = pos 20

abbrev pub max_page_size : ℤ
max_page_size = pos 100

-- An empty language, kind or text is no filter, and `none` no ceiling.
pub record ListParams : Type 0 where
  pub language : String
  pub kind : String
  pub max_price_minor : Option ℤ
  pub q : String
  pub sort : String
  pub page : ℤ
  pub page_size : ℤ

unfoldable pub valid_sort : String → Bool
valid_sort s =
    str_eq s "recommended"
    || str_eq s "price_asc"
    || str_eq s "price_desc"
    || str_eq s "rating_desc"

unfoldable pub ceiling : Option ℤ → Option ℤ
ceiling none = none
ceiling (some v) = if ltb_ℤ v (pos 0) then none else some v

unfoldable pub page_size_of : ℤ → ℤ
page_size_of n =
    let size = if ltb_ℤ (pos 0) n then n else default_page_size in
    if ltb_ℤ max_page_size size then max_page_size else size

unfoldable pub normalized : ListParams → ListParams
unfolding valid_sort ceiling page_size_of valid_kind
normalized p = record p {
  sort = if valid_sort p.sort then p.sort else "recommended";
  kind = if not (str_eq p.kind "") && not (valid_kind p.kind) then "" else p.kind;
  page = if ltb_ℤ p.page (pos 1) then pos 1 else p.page;
  page_size = page_size_of p.page_size;
  max_price_minor = ceiling p.max_price_minor;
}

-- The offset of normalized parameters: the page is at least 1.
abbrev pub offset : ListParams → Option ℕ
offset p = offset_int32 ((pos_part p.page - 1) * pos_part p.page_size)

-- ORDER BY, by pairs of keys of which the smaller comes first.
unfoldable pub lexicographic : List (ℕ × ℕ) → Bool
lexicographic [] = true
lexicographic ((x, y) ∷ ks) =
    let rest = lexicographic ks in if ltb x y then true else if ltb y x then false else rest

abbrev rank : Bool → ℕ
rank true = 1
rank false = 0

unfoldable pub listed_before : String → TeacherRow → TeacherRow → Bool
unfolding lexicographic
listed_before sort a b =
    let ties : List (ℕ × ℕ) = (b.review_count, a.review_count) ∷ (a.id, b.id) ∷ [] in
    let rated : List (ℕ × ℕ) = (b.rating, a.rating) ∷ ties in
    let price : TeacherRow → ℕ = λ r. pos_part r.fields.price_per_hour_minor in
    lexicographic (
      if str_eq sort "recommended"
      then (rank b.accepting_students, rank a.accepting_students) ∷ rated
      else if str_eq sort "rating_desc"
      then rated
      else if str_eq sort "price_asc"
      then (price a, price b) ∷ ties
      else if str_eq sort "price_desc"
      then (price b, price a) ∷ ties
      else ties)

pub record LanguageFacet : Type 0 where
  pub code : String
  pub name : String
  pub count : ℕ

-- GROUP BY code, name, with count(DISTINCT teacher_id).
abbrev in_facet : String → String → LanguageRow → Bool
in_facet code name l = is_taught l && str_eq l.code code && str_eq l.name name

unfoldable pub count_teachers : List LanguageRow → ℕ
unfolding exists_where
count_teachers [] = 0
count_teachers (l ∷ ls) =
    let rest = count_teachers ls in
    if exists_where (λ m. m.teacher_id == l.teacher_id) ls then rest else suc rest

unfoldable pub group : List LanguageRow → List LanguageRow → List LanguageFacet
unfolding exists_where count_teachers select
group all [] = []
group all (l ∷ ls) =
    let rest = group all ls in
    let facet : LanguageFacet = record {
      code = l.code;
      name = l.name;
      count = count_teachers (select (in_facet l.code l.name) all);
    } in
    if is_taught l && not (exists_where (in_facet l.code l.name) ls) then facet ∷ rest else rest

pub record ListResult : Type 0 where
  pub teachers : List Teacher
  pub total : ℕ
  pub facets : List LanguageFacet

module _ (texts : Texts) where
  -- The languages and tags are attached, the experience is not.
  abbrev pub in_list : Catalog → TeacherRow → Teacher
  in_list s r = record (attach texts.collate r s) { experience = [] }

  unfoldable pub language_facets : Catalog → List LanguageFacet
  unfolding group sort_with
  language_facets s = sort_with (λ a b. texts.collate a.name b.name) (group s.languages s.languages)

module _ (texts : Texts) (contains : String → String → Bool) where
  unfoldable pub has_text : String → Catalog → TeacherRow → Bool
  unfolding exists_where
  has_text q s r =
      contains r.fields.display_name q
      || contains r.fields.headline q
      || exists_where (λ (t : FocusRow). (t.teacher_id == r.id) && contains t.tag q) s.focus

  abbrev pub under : Option ℤ → TeacherRow → Bool
  under none r = true
  under (some v) r = not (ltb_ℤ v r.fields.price_per_hour_minor)

  unfoldable pub teaches_language : String → Catalog → TeacherRow → Bool
  unfolding exists_where
  teaches_language code s r =
      exists_where
        (λ (l : LanguageRow). (l.teacher_id == r.id) && is_taught l && str_eq l.code code)
        s.languages

  -- The WHERE of ListTeachers and CountTeachers.
  unfoldable pub is_listed : ListParams → Catalog → TeacherRow → Bool
  unfolding has_text teaches_language
  is_listed p s r =
      is_approved r.status
      && (str_eq p.kind "" || str_eq r.fields.kind p.kind)
      && under p.max_price_minor r
      && (str_eq p.language "" || teaches_language p.language s r)
      && (str_eq p.q "" || has_text p.q s r)

  unfoldable pub list_page : ListParams → Call Catalog TeacherError (List Teacher × ℕ)
  unfolding is_listed listed_before sort_with select attach
  list_page p = do
    from ← or_raise (offset p) database_error
    matching ← gets (λ s. select (is_listed p s) s.teachers)
    let page = take (pos_part p.page_size) (drop from (sort_with (listed_before p.sort) matching))
    teachers ← gets (λ s. map (in_list texts s) page)
    pure (teachers, length matching)

  unfoldable pub list : ListParams → Call Catalog TeacherError ListResult
  unfolding normalized list_page language_facets
  list params = do
    page ← list_page (normalized params)
    facets ← gets (language_facets texts)
    pure (record { teachers = page.0; total = page.1; facets = facets })
