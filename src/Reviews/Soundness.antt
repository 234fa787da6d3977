-- ===== src/Reviews/Soundness.antt =====
-- What holds of the reviews at any time, and that each change keeps it.
use Prim.Native.String.{String}
use find_language_tutor.Prelude.{
  ℕ, suc, ◌+◌, ◌≤◌, ◌<◌, ◌≡◌, inl, inr, refl, sym, ap, subst, ◌∙◌, Bool, false, none, some, List,
  [], ◌∷◌, ◌++◌, arith, All, All-append, All-map, Bool-cases, ◌==◌, if◌then◌else◌,
}
use find_language_tutor.Prelude.Rows.{
  first_where, delete_where, exists_where, first_where-passes, All-update_where_of, All-first_where,
  All-delete_where,
}
use find_language_tutor.Store.{completed}
use find_language_tutor.Reviews.{BookingRef, ReviewRow, Reviews}
use find_language_tutor.Reviews.Repository.{
  is_booking, is_of_booking, is_review, set_hidden, recompute_teacher_rating,
}
use find_language_tutor.Reviews.Create.{new_row, reviewed}
use find_language_tutor.Reviews.Ratings.{
  append-SameTotals, IsOwned, set_hidden-SameTotals, delete_where-SameTotals, IsFair,
  recompute-IsFair,
}

-- How many reviews a booking has.
unfoldable pub times : ℕ → List ReviewRow → ℕ
times b [] = 0
times b (r ∷ rs) = let rest = times b rs in if is_of_booking b r then suc rest else rest

times-append :
    (b : ℕ) (row : ReviewRow) (rs : List ReviewRow)
    → times b (rs ++ row ∷ []) ≡ times b rs + (if is_of_booking b row then 1 else 0)
unfolding times
times-append b row [] = ground arith
times-append b row (r ∷ rs) = ground (arith, times-append b row rs)

times-set_hidden :
    (b id : ℕ) (hidden : Bool) (rs : List ReviewRow)
    → times b (set_hidden id hidden rs) ≡ times b rs
unfolding times set_hidden
times-set_hidden b id hidden [] = refl
times-set_hidden b id hidden (r ∷ rs) = ground (arith, times-set_hidden b id hidden rs)

times-delete_where :
    (b id : ℕ) (rs : List ReviewRow) → times b (delete_where (is_review id) rs) ≤ times b rs
unfolding times delete_where
times-delete_where b id [] = omega arith
times-delete_where b id (r ∷ rs) = ground (arith, times-delete_where b id rs)

times-none :
    (b : ℕ) (rs : List ReviewRow) → exists_where (is_of_booking b) rs ≡ false → times b rs ≡ 0
unfolding times exists_where
times-none b [] h = refl
times-none b (r ∷ rs) h = ground (arith, times-none b rs, h)

single-append :
    (b booking_id : ℕ) (row : ReviewRow) (rs : List ReviewRow)
    → row.booking_id ≡ some booking_id
    → exists_where (is_of_booking booking_id) rs ≡ false
    → times b rs ≤ 1
    → times b (rs ++ row ∷ []) ≤ 1
single-append b booking_id row rs e first h = elim (Bool-cases (booking_id == b)) [
  | inl same ↦
      let eq : booking_id ≡ b = ground (arith, same) in
      let zero_times : times b rs ≡ 0 =
        subst (λ x. times x rs ≡ 0) eq (times-none booking_id rs first) in
      ground (arith, times-append b row rs, zero_times)
  | inr apart ↦ ground (arith, times-append b row rs, e, apart, h)
]

-- A review of a booking is its student's, on its teacher, and the booking is completed.
abbrev pub IsEarned : List BookingRef → ReviewRow → Type 0
IsEarned bs r = elim r.booking_id [
  | none ↦ Unit {0}
  | some b ↦
      (ref : BookingRef) × (first_where (is_booking b) bs ≡ some ref)
      × (ref.status ≡ completed)
      × (ref.student_id ≡ r.student_id)
      × (ref.teacher_id ≡ r.teacher_id)
]

abbrev pub IsGood : (ℕ → ℕ) → ℕ → List BookingRef → ReviewRow → Type 0
IsGood owner next bs r =
    IsOwned owner r × (r.id < next) × IsEarned bs r × (1 ≤ r.rating) × (r.rating ≤ 5)

-- The invariant; `owner` names the teacher of the reviews with an id.
pub record IsSound (s : Reviews) : Type 0 where
  pub owner : ℕ → ℕ
  pub good : All (IsGood owner s.next_id s.bookings) s.rows
  pub fair : All (IsFair s.rows) s.teachers
  pub single : (b : ℕ) → times b s.rows ≤ 1

IsOwned-of :
    (owner : ℕ → ℕ) (next : ℕ) (bs : List BookingRef) (rs : List ReviewRow)
    → All (IsGood owner next bs) rs
    → All (IsOwned owner) rs
IsOwned-of owner next bs rs h = All-map (IsGood owner next bs) (IsOwned owner) rs (λ r k. k.0) h

pub reviewed-IsSound :
    (b : BookingRef) (booking_id score : ℕ) (comment : String) (s : Reviews)
    → first_where (is_booking booking_id) s.bookings ≡ some b
    → b.status ≡ completed
    → 1 ≤ score
    → score ≤ 5
    → exists_where (is_of_booking booking_id) s.rows ≡ false
    → IsSound s
    → IsSound (reviewed b booking_id score comment s)
unfolding reviewed recompute_teacher_rating new_row
reviewed-IsSound b booking_id score comment s found taught low high first k =
    let row = new_row b booking_id score comment s in
    let owner' : ℕ → ℕ = λ i. if i == s.next_id then b.teacher_id else k.owner i in
    let old : ReviewRow → Type 0 = IsGood k.owner s.next_id s.bookings in
    let now : ReviewRow → Type 0 = IsGood owner' (suc s.next_id) s.bookings in
    record {
      owner = owner';
      good =
          All-append now s.rows (row ∷ [])
            (All-map old now s.rows
              (λ r g. (ground (arith, g.0, g.1), omega (arith, g.1), g.2, g.3, g.4)) k.good)
            ((ground arith, omega arith, (b, found, taught, refl, refl), low, high), tt);
      fair =
          recompute-IsFair s.rows (s.rows ++ row ∷ []) b.teacher_id s.teachers
            (λ other apart. append-SameTotals other row s.rows apart) k.fair;
      single = λ other. single-append other booking_id row s.rows refl first (k.single other);
    }

-- The teacher of the review that an id finds.
owner_of :
    (owner : ℕ → ℕ) (next id : ℕ) (bs : List BookingRef) (row : ReviewRow) (rs : List ReviewRow)
    → All (IsGood owner next bs) rs
    → first_where (is_review id) rs ≡ some row
    → owner id ≡ row.teacher_id
owner_of owner next id bs row rs good found =
    let own = (All-first_where (is_review id) (IsGood owner next bs) rs row good found).0 in
    let same : id ≡ row.id = ground (arith, first_where-passes (is_review id) rs row found) in
    ap owner same ∙ sym own

set_hidden-IsGood :
    (owner : ℕ → ℕ) (next id : ℕ) (bs : List BookingRef) (hidden : Bool) (rs : List ReviewRow)
    → All (IsGood owner next bs) rs
    → All (IsGood owner next bs) (set_hidden id hidden rs)
unfolding set_hidden
set_hidden-IsGood owner next id bs hidden rs h =
    All-update_where_of (is_review id) (IsGood owner next bs) (λ r. record r { hidden = hidden }) rs
      (λ r g. (g.0, g.1, g.2, g.3, g.4)) h

pub set_hidden-IsSound :
    (id : ℕ) (hidden : Bool) (row : ReviewRow) (s : Reviews)
    → first_where (is_review id) s.rows ≡ some row
    → IsSound s
    → IsSound
        (recompute_teacher_rating row.teacher_id (record s { rows = set_hidden id hidden s.rows }))
unfolding recompute_teacher_rating
set_hidden-IsSound id hidden row s found k =
    let good = IsGood k.owner s.next_id s.bookings in
    let mine = owner_of k.owner s.next_id id s.bookings row s.rows k.good found in
    record {
      owner = k.owner;
      good = set_hidden-IsGood k.owner s.next_id id s.bookings hidden s.rows k.good;
      fair =
          recompute-IsFair s.rows (set_hidden id hidden s.rows) row.teacher_id s.teachers
            (λ other apart.
              set_hidden-SameTotals k.owner other id (rw mine apart) hidden s.rows
                (IsOwned-of k.owner s.next_id s.bookings s.rows k.good))
            k.fair;
      single = λ b. rw (times-set_hidden b id hidden s.rows) (k.single b);
    }

pub remove-IsSound :
    (id : ℕ) (row : ReviewRow) (s : Reviews)
    → first_where (is_review id) s.rows ≡ some row
    → IsSound s
    → IsSound (
        recompute_teacher_rating row.teacher_id
          (record s { rows = delete_where (is_review id) s.rows }))
unfolding recompute_teacher_rating
remove-IsSound id row s found k =
    let mine = owner_of k.owner s.next_id id s.bookings row s.rows k.good found in
    record {
      owner = k.owner;
      good = All-delete_where (is_review id) (IsGood k.owner s.next_id s.bookings) s.rows k.good;
      fair =
          recompute-IsFair s.rows (delete_where (is_review id) s.rows) row.teacher_id s.teachers
            (λ other apart.
              delete_where-SameTotals k.owner other id (rw mine apart) s.rows
                (IsOwned-of k.owner s.next_id s.bookings s.rows k.good))
            k.fair;
      single = λ b. omega (arith, times-delete_where b id s.rows, k.single b);
    }
