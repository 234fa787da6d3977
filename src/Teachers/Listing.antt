-- ===== src/Teachers/Listing.antt =====
-- What the public catalogue shows.
use Prim.Native.String.{String}
use find_language_tutor.Prelude.{
  ℕ, ◌-◌, ◌*◌, ◌^◌, ◌≡◌, refl, ap, ◌∙◌, ◌<◌, Bool, leb, if◌then◌else◌, some, List, [], ◌∷◌, map,
  length, All, arith,
}
use find_language_tutor.Prelude.Int.{pos_part}
use find_language_tutor.Prelude.Order.{sort_with, All-sort_with, length-sort_with}
use find_language_tutor.Prelude.Page.{
  select, take, drop, All-select, All-take, All-drop, length-take_eq, length-drop, offset_int32,
}
use find_language_tutor.Effect.{ok}
use find_language_tutor.Teachers.{TeacherRow, Teacher, Catalog, Texts}
use find_language_tutor.Teachers.Repository.{attach}
use find_language_tutor.Teachers.Filters.{
  Passes, Count, is_listed_iff, total_listed, page_given, size_given, normalized-size,
  normalized-page,
}
use find_language_tutor.Teachers.Search.{
  ListParams, ListResult, normalized, offset, listed_before, is_listed, in_list, list_page,
  language_facets, list,
}

All-in_list :
    (texts : Texts) (P : TeacherRow → Type 0) (s : Catalog) (rs : List TeacherRow)
    → All P rs
    → All (λ (t : Teacher). P t.row) (map (in_list texts s) rs)
unfolding attach
All-in_list texts P s [] h = tt
All-in_list texts P s (r ∷ rs) h = (h.0, All-in_list texts P s rs h.1)

length-in_list :
    (texts : Texts) (s : Catalog) (rs : List TeacherRow)
    → length (map (in_list texts s) rs) ≡ length rs
length-in_list texts s [] = refl
length-in_list texts s (r ∷ rs) = omega (arith, length-in_list texts s rs)

offset_small : (n : ℕ) → n < 2 ^ 31 → offset_int32 n ≡ some n
offset_small n h = ground (arith, h)

listed_of :
    (texts : Texts) (contains : String → String → Bool) (params : ListParams) (s : Catalog)
    (from : ℕ)
    → let p = normalized params in
      let matching = select (is_listed texts contains p s) s.teachers in
      let page =
        take (pos_part p.page_size) (drop from (sort_with (listed_before p.sort) matching)) in
      offset p ≡ some from
      → list texts contains params s ≡ (
        ok (record {
          teachers = map (in_list texts s) page;
          total = length matching;
          facets = language_facets texts s;
        }),
        s,
      )
unfolding list list_page
listed_of texts contains params s from e = rw e refl

-- The smaller of the size of a page and what is left behind its offset.
abbrev pub on_page : ℕ → ℕ → ℕ → ℕ
on_page size from total = if leb size (total - from) then size else total - from

page_length :
    (before : TeacherRow → TeacherRow → Bool) (size from : ℕ) (rs : List TeacherRow)
    → length (take size (drop from (sort_with before rs))) ≡ on_page size from (length rs)
page_length before size from rs = ground (
  arith,
  length-take_eq size (drop from (sort_with before rs)),
  length-drop from (sort_with before rs),
  length-sort_with before rs,
)

-- Where the offset of the page that was asked for (the first page for a number below 1; twenty
-- profiles for a size below 1, and a hundred for a greater size) is below 2^31, the search succeeds
-- and changes nothing: each profile of the page is approved and passes the filters that were asked
-- for, namely a kind that exists, a price ceiling that is not negative, a language taught and a text
-- found; the total is the number of stored profiles of which this holds; and the page has as many
-- profiles as its size, or as are left.
pub list_shows :
    (texts : Texts) (contains : String → String → Bool) (asked : ListParams) (s : Catalog)
    → let size = size_given asked.page_size in
      let from = (page_given asked.page - 1) * size in
      from < 2 ^ 31
      → (result : ListResult) × (list texts contains asked s ≡ (ok result, s))
        × All (λ (t : Teacher). Passes contains asked s t.row) result.teachers
        × Count (Passes contains asked s) s.teachers result.total
        × (length result.teachers ≡ on_page size from result.total)
unfolding list list_page
list_shows texts contains asked s h =
    let p = normalized asked in
    let size = size_given asked.page_size in
    let from = (page_given asked.page - 1) * size in
    let same_size = normalized-size asked in
    let same_page = normalized-page asked in
    let matching = select (is_listed texts contains p s) s.teachers in
    let P : TeacherRow → Type 0 = Passes contains asked s in
    let sorted = sort_with (listed_before p.sort) matching in
    let page = take (pos_part p.page_size) (drop from sorted) in
    let at : offset p ≡ some from =
      ap (λ (x : ℕ). offset_int32 ((x - 1) * pos_part p.page_size)) same_page
      ∙ ap (λ (x : ℕ). offset_int32 ((page_given asked.page - 1) * x)) same_size
      ∙ offset_small from h in
    (
      record {
        teachers = map (in_list texts s) page;
        total = length matching;
        facets = language_facets texts s;
      },
      listed_of texts contains asked s from at,
      All-in_list texts P s page (
          All-take P (pos_part p.page_size) (drop from sorted) (
            All-drop P from sorted (
              All-sort_with (listed_before p.sort) P matching (
                All-select P (is_listed texts contains p s) s.teachers
                  (λ r. (is_listed_iff texts contains asked s r).0))))),
      total_listed texts contains asked s,
      length-in_list texts s page
          ∙ page_length (listed_before p.sort) (pos_part p.page_size) from matching
          ∙ ap (λ (x : ℕ). on_page x from (length matching)) same_size,
    )
