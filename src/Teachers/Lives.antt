-- ===== src/Teachers/Lives.antt =====
-- What becomes of each profile over time.
use Prim.Native.String.{String}
use find_language_tutor.Prelude.{
  ◌≡◌, refl, sym, subst, ◌⊎◌, inl, inr, Bool, true, some, List, [], ◌∷◌, ◌++◌, All, All-map, arith,
  Bool-cases,
}
use find_language_tutor.Prelude.Rows.{first_where, update_where}
use find_language_tutor.Prelude.Pairs.{AllPairs}
use find_language_tutor.Teachers.{TeacherStatus, pending, TeacherRow, Catalog, Texts}
use find_language_tutor.Teachers.Repository.{has_slug, has_id, new_teacher}
use find_language_tutor.Teachers.Changes.{Edge, Change, same, inserted, written, moderated, badged}
use find_language_tutor.Teachers.Steps.{
  Step-Change, Reach, here, next, IsConsistent, Apart, Reach-IsConsistent,
}

-- A move, or none.
abbrev pub Moves : TeacherStatus → TeacherStatus → Type 0
Moves s t = (t ≡ s) ⊎ Edge s t

-- The same profile, after one call.
abbrev pub Later : TeacherRow → TeacherRow → Type 0
Later r q = (q.id ≡ r.id) × (q.slug ≡ r.slug) × (q.user_id ≡ r.user_id) × Moves r.status q.status

-- The profiles before and after one call: the old ones in their places, and at most one behind
-- them, which is pending.
abbrev pub Continues : List TeacherRow → List TeacherRow → Type 0
Continues [] [] = Unit {0}
Continues [] (q ∷ []) = q.status ≡ pending
Continues [] (q ∷ _ ∷ _) = ⊥
Continues (r ∷ rs) [] = ⊥
Continues (r ∷ rs) (q ∷ qs) = Later r q × Continues rs qs

-- Every single call of the run is such a change.
abbrev pub Lives : {texts : Texts} {s t : Catalog} → Reach texts s t → Type 0
Lives here = Unit {0}
Lives (next {t = t} {u = u} r st) = Lives r × Continues t.teachers u.teachers

Continues-refl : (rs : List TeacherRow) → Continues rs rs
Continues-refl [] = tt
Continues-refl (r ∷ rs) = ((refl, refl, refl, inl refl), Continues-refl rs)

snoc-Continues :
    (rs : List TeacherRow) (q : TeacherRow) → q.status ≡ pending → Continues rs (rs ++ q ∷ [])
snoc-Continues [] q e = e
snoc-Continues (r ∷ rs) q e = ((refl, refl, refl, inl refl), snoc-Continues rs q e)

-- An update that keeps who a profile is, and moves its state along an edge or not at all.
abbrev Allowed : (TeacherRow → Bool) → (TeacherRow → TeacherRow) → TeacherRow → Type 0
Allowed p f x = p x ≡ true → Moves x.status (f x).status

module _ (p : TeacherRow → Bool) (f : TeacherRow → TeacherRow)
    (same_id : (x : TeacherRow) → (f x).id ≡ x.id)
    (same_slug : (x : TeacherRow) → (f x).slug ≡ x.slug)
    (same_owner : (x : TeacherRow) → (f x).user_id ≡ x.user_id) where
  update_where-Continues :
      (rs : List TeacherRow) → All (Allowed p f) rs → Continues rs (update_where p f rs)
  unfolding update_where
  update_where-Continues [] a = tt
  update_where-Continues (x ∷ rs) a = elim (Bool-cases (p x)) [
    | inl e ↦ rw e ((same_id x, same_slug x, same_owner x, a.0 e), update_where-Continues rs a.1)
    | inr e ↦ rw e ((refl, refl, refl, inl refl), update_where-Continues rs a.1)
  ]

All-every : {A : Type 0} (P : A → Type 0) (xs : List A) → ((x : A) → P x) → All P xs
All-every P [] h = tt
All-every P (x ∷ xs) h = (h x, All-every P xs h)

-- The row that a slug finds is the only one with it.
only_found :
    (slug : String) (rs : List TeacherRow) (r : TeacherRow)
    → AllPairs Apart rs
    → first_where (has_slug slug) rs ≡ some r
    → All (λ x. has_slug slug x ≡ true → x ≡ r) rs
unfolding first_where
only_found slug [] r a h = tt
only_found slug (x ∷ rs) r a h = elim (Bool-cases (has_slug slug x)) [
  | inl e ↦ (
    λ k. ground (arith, e, h),
    All-map (Apart x) (λ y. has_slug slug y ≡ true → y ≡ r) rs
        (λ y apart k. absurd (cc (apart.1 slug e, k))) a.0,
  )
  | inr e ↦ (λ k. absurd (cc (e, k)), only_found slug rs r a.1 (ground (arith, e, h)))
]

Change-Continues :
    (texts : Texts) {s t : Catalog}
    → Change texts s t
    → IsConsistent texts s
    → Continues s.teachers t.teachers
unfolding new_teacher
Change-Continues texts {s} {t} (same e n) k = rw e (Continues-refl s.teachers)
Change-Continues texts {s} {t} (inserted owner slug fields alone free valid e n) k =
    rw e (snoc-Continues s.teachers (new_teacher s.next_id owner slug fields) refl)
Change-Continues texts {s} {t} (written id fields valid e n) k = rw e (
    update_where-Continues (has_id id) (λ r. record r { fields = fields }) (λ x. refl) (λ x. refl)
      (λ x. refl) s.teachers
      (All-every (Allowed (has_id id) (λ r. record r { fields = fields })) s.teachers
        (λ x e. inl refl)))
Change-Continues texts {s} {t} (moderated slug note to r found edge noted e n) k =
    let f : TeacherRow → TeacherRow = λ x. record x { status = to; moderation_note = note } in
    rw e (
      update_where-Continues (has_slug slug) f (λ x. refl) (λ x. refl) (λ x. refl) s.teachers
        (All-map (λ x. has_slug slug x ≡ true → x ≡ r) (Allowed (has_slug slug) f) s.teachers
          (λ x only g. inr (subst (λ (y : TeacherRow). Edge y.status to) (sym (only g)) edge))
          (only_found slug s.teachers r k.apart found)))
Change-Continues texts {s} {t} (badged slug verified e n) k = rw e (
    update_where-Continues (has_slug slug) (λ r. record r { verified = verified }) (λ x. refl)
      (λ x. refl) (λ x. refl) s.teachers
      (All-every (Allowed (has_slug slug) (λ r. record r { verified = verified })) s.teachers
        (λ x e. inl refl)))

-- In every run from profiles on that are consistent, as Teachers.Steps says: each single call of a
-- teacher or an operator leaves every profile where it is, with its id, its slug and its owner, and
-- its moderation state stays or makes one move: pending to approved or rejected, approved to
-- suspended, rejected or suspended to approved. At most one profile is new after a call, the last,
-- and it is pending.
pub Reach-Lives :
    (texts : Texts) {s t : Catalog} (r : Reach texts s t) → IsConsistent texts s → Lives r
Reach-Lives texts here h = tt
Reach-Lives texts (next r st) h = (
  Reach-Lives texts r h,
  Change-Continues texts (Step-Change texts st) (Reach-IsConsistent texts r h),
)
