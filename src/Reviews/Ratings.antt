-- ===== src/Reviews/Ratings.antt =====
-- The totals behind a rating: whose they are, and what a change of one review leaves alone.
use find_language_tutor.Prelude.{
  ℕ, ◌+◌, ◌*◌, ◌/◌, ◌≤◌, ◌≡◌, inl, inr, refl, sym, ap, ◌∙◌, Bool, true, false, not, ◌&&◌, none,
  some, List, [], ◌∷◌, ◌++◌, arith, All, All-map, length, leb, Bool-cases, ◌==◌, if◌then◌else◌,
}
use find_language_tutor.Prelude.Rows.{update_where, delete_where}
use find_language_tutor.Prelude.Page.{select}
use find_language_tutor.Reviews.{ReviewRow, TeacherRating}
use find_language_tutor.Reviews.Repository.{
  sum_of, count_of, rounded, new_rating, rerated, is_teacher, is_review, set_hidden,
}

-- The teacher's totals are the same in the two tables.
abbrev pub SameTotals : ℕ → List ReviewRow → List ReviewRow → Type 0
SameTotals id rs rs' = (sum_of id rs' ≡ sum_of id rs) × (count_of id rs' ≡ count_of id rs)

pub append-SameTotals :
    (id : ℕ) (row : ReviewRow) (rs : List ReviewRow)
    → (id == row.teacher_id) ≡ false
    → SameTotals id rs (rs ++ row ∷ [])
unfolding sum_of count_of
append-SameTotals id row [] apart = ground (arith, apart)
append-SameTotals id row (r ∷ rs) apart = ground (arith, append-SameTotals id row rs apart)

-- Every review that the id finds is of the owner.
abbrev pub IsOwned : (ℕ → ℕ) → ReviewRow → Type 0
IsOwned owner r = r.teacher_id ≡ owner r.id

module _ (owner : ℕ → ℕ) (id review_id : ℕ) (apart : (id == owner review_id) ≡ false) where
  foreign :
      (r : ReviewRow)
      → IsOwned owner r
      → is_review review_id r ≡ true
      → (r.teacher_id == id) ≡ false
  foreign r h e =
      let same : r.id ≡ review_id = ground (arith, e) in
      let mine : r.teacher_id ≡ owner review_id = h ∙ ap owner same in ground (arith, mine, apart)

  pub set_hidden-SameTotals :
      (hidden : Bool) (rs : List ReviewRow)
      → All (IsOwned owner) rs
      → SameTotals id rs (set_hidden review_id hidden rs)
  unfolding sum_of count_of set_hidden
  set_hidden-SameTotals hidden [] h = (refl, refl)
  set_hidden-SameTotals hidden (r ∷ rs) h =
      ground (arith, foreign r h.0, set_hidden-SameTotals hidden rs h.1)

  pub delete_where-SameTotals :
      (rs : List ReviewRow)
      → All (IsOwned owner) rs
      → SameTotals id rs (delete_where (is_review review_id) rs)
  unfolding sum_of count_of delete_where
  delete_where-SameTotals [] h = (refl, refl)
  delete_where-SameTotals (r ∷ rs) h = ground (arith, foreign r h.0, delete_where-SameTotals rs h.1)

-- The teacher's row is what a recomputation would write.
abbrev pub IsRecomputed : List ReviewRow → TeacherRating → Type 0
IsRecomputed rs t = rerated rs t ≡ t

rerated-same :
    (rs rs' : List ReviewRow) (t : TeacherRating)
    → SameTotals t.id rs rs'
    → rerated rs' t ≡ rerated rs t
unfolding rerated
rerated-same rs rs' t h = rw (h.0, h.1)

pub rerated-rerated :
    (rs rs' : List ReviewRow) (t : TeacherRating) → rerated rs' (rerated rs t) ≡ rerated rs' t
unfolding rerated
rerated-rerated rs rs' t = refl

rerated-IsRecomputed :
    (rs rs' : List ReviewRow) (id : ℕ) (t : TeacherRating)
    → ((other : ℕ) → (other == id) ≡ false → SameTotals other rs rs')
    → IsRecomputed rs t
    → IsRecomputed rs' (if is_teacher id t then rerated rs' t else t)
rerated-IsRecomputed rs rs' id t frame h = elim (Bool-cases (is_teacher id t)) [
  | inl e ↦ rw e (rerated-rerated rs' rs' t)
  | inr e ↦ rw e (rerated-same rs rs' t (frame t.id e) ∙ h)
]

recompute-IsRecomputed :
    (rs rs' : List ReviewRow) (id : ℕ) (ts : List TeacherRating)
    → ((other : ℕ) → (other == id) ≡ false → SameTotals other rs rs')
    → All (IsRecomputed rs) ts
    → All (IsRecomputed rs') (update_where (is_teacher id) (rerated rs') ts)
unfolding update_where
recompute-IsRecomputed rs rs' id [] frame h = tt
recompute-IsRecomputed rs rs' id (t ∷ ts) frame h =
    (rerated-IsRecomputed rs rs' id t frame h.0, recompute-IsRecomputed rs rs' id ts frame h.1)

-- A visible review of a booking with the teacher.
abbrev pub is_counted : ℕ → ReviewRow → Bool
is_counted id r =
    not r.hidden && r.teacher_id == id && elim r.booking_id [ some b ↦ true | none ↦ false ]

unfoldable pub stars : List ReviewRow → ℕ
stars [] = 0
stars (r ∷ rs) = r.rating + stars rs

-- The mean in tenths, of the base and of the reviews of so many stars: the nearest number, half of
-- one upwards, and 50 at most; 0 where there is nothing.
abbrev pub mean_rating : TeacherRating → ℕ → ℕ → ℕ
mean_rating t total n =
    let all = t.review_count_base + n in
    let tenths = t.rating_base * t.review_count_base + 10 * total in
    let mean = (2 * tenths + all) / (2 * all) in
    if all == 0 then 0 else if leb mean 50 then mean else 50

-- The teacher's rating and number of reviews are those of the base and the reviews that count.
pub record IsFair (rs : List ReviewRow) (t : TeacherRating) : Type 0 where
  pub number : t.review_count ≡ t.review_count_base + length (select (is_counted t.id) rs)
  pub mean :
      t.rating
      ≡ mean_rating t (stars (select (is_counted t.id) rs)) (length (select (is_counted t.id) rs))

sum_of-stars : (id : ℕ) (rs : List ReviewRow) → sum_of id rs ≡ stars (select (is_counted id) rs)
unfolding sum_of stars select
sum_of-stars id [] = refl
sum_of-stars id (r ∷ rs) = ground (arith, sum_of-stars id rs)

count_of-length :
    (id : ℕ) (rs : List ReviewRow) → count_of id rs ≡ length (select (is_counted id) rs)
unfolding count_of select
count_of-length id [] = refl
count_of-length id (r ∷ rs) = ground (arith, count_of-length id rs)

new_rating-mean : (t : TeacherRating) (total n : ℕ) → new_rating t total n ≡ mean_rating t total n
unfolding new_rating rounded
new_rating-mean t total n = ground arith

IsRecomputed-IsFair : (rs : List ReviewRow) (t : TeacherRating) → IsRecomputed rs t → IsFair rs t
unfolding rerated
IsRecomputed-IsFair rs t h = record {
  number =
      sym (ap (λ (x : TeacherRating). x.review_count) h)
      ∙ ap (λ (n : ℕ). t.review_count_base + n) (count_of-length t.id rs);
  mean =
      sym (ap (λ (x : TeacherRating). x.rating) h)
      ∙ new_rating-mean t (sum_of t.id rs) (count_of t.id rs)
      ∙ rw (sum_of-stars t.id rs, count_of-length t.id rs) refl;
}

IsFair-IsRecomputed : (rs : List ReviewRow) (t : TeacherRating) → IsFair rs t → IsRecomputed rs t
unfolding rerated
IsFair-IsRecomputed rs t h =
    let rating : new_rating t (sum_of t.id rs) (count_of t.id rs) ≡ t.rating =
      new_rating-mean t (sum_of t.id rs) (count_of t.id rs)
      ∙ rw (sum_of-stars t.id rs, count_of-length t.id rs) (sym h.mean) in
    let number : t.review_count_base + count_of t.id rs ≡ t.review_count =
      rw (count_of-length t.id rs) (sym h.number) in
    ap (λ (x : ℕ). record t { rating = x; review_count = t.review_count_base + count_of t.id rs })
      rating
    ∙ ap (λ (x : ℕ). record t { review_count = x }) number

pub All-IsRecomputed :
    (rs : List ReviewRow) (ts : List TeacherRating) → All (IsFair rs) ts → All (IsRecomputed rs) ts
All-IsRecomputed rs ts h = All-map (IsFair rs) (IsRecomputed rs) ts (IsFair-IsRecomputed rs) h

-- Where the reviews changed for one teacher only, recomputing that teacher makes all fair.
pub recompute-IsFair :
    (rs rs' : List ReviewRow) (id : ℕ) (ts : List TeacherRating)
    → ((other : ℕ) → (other == id) ≡ false → SameTotals other rs rs')
    → All (IsFair rs) ts
    → All (IsFair rs') (update_where (is_teacher id) (rerated rs') ts)
recompute-IsFair rs rs' id ts frame h =
    All-map (IsRecomputed rs') (IsFair rs') (update_where (is_teacher id) (rerated rs') ts)
      (IsRecomputed-IsFair rs')
      (recompute-IsRecomputed rs rs' id ts frame (All-IsRecomputed rs ts h))

-- A rating never exceeds five stars.
pub rating-le : (rs : List ReviewRow) (t : TeacherRating) → (rerated rs t).rating ≤ 50
unfolding rerated new_rating rounded
rating-le rs t = ground arith
