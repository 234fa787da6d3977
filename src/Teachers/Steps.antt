-- ===== src/Teachers/Steps.antt =====
-- The profiles over time.
use Prim.Native.String.{String}
use text.Mathlib.Text.{◌==◌ as str_eq}
use text.Mathlib.TextEquality.{eq_iff}
use find_language_tutor.Prelude.{
  ℕ, suc, ◌<◌, ◌≡◌, refl, inl, inr, sym, subst, Bool, true, false, none, List, [], ◌∷◌, ◌==◌, All,
  All-append, All-map, arith, ==→eq, Bool-cases,
}
use find_language_tutor.Prelude.Rows.{first_where, exists_where, All-update_where_of}
use find_language_tutor.Prelude.Pairs.{AllPairs, AllPairs-snoc, AllPairs-update_where}
use find_language_tutor.Teachers.{
  TeacherStatus, pending, approved, rejected, suspended, Fields, ProfileInput, ProfilePatch,
  TeacherRow, Catalog, Texts,
}
use find_language_tutor.Teachers.Profile.{first_of-none, field_checks, check_fields}
use find_language_tutor.Teachers.Repository.{has_slug, has_id, owned_by, new_teacher}
use find_language_tutor.Teachers.Service.{create, update}
use find_language_tutor.Teachers.Moderation.{approve, reject, suspend, set_verified}
use find_language_tutor.Teachers.Changes.{Noted, Change, same, inserted, written, moderated, badged}
use find_language_tutor.Teachers.Effects.{
  create-Change, update-Change, approve-Change, reject-Change, suspend-Change, set_verified-Change,
}

-- A call of a teacher or of an operator, whatever it answers.
pub data Step (texts : Texts) : Catalog → Catalog → Type 0 where
  created :
      (owner : ℕ) (input : ProfileInput) (s : Catalog) → Step texts s (create texts owner input s).1
  edited :
      (slug : String) (user : ℕ) (patch : ProfilePatch) (s : Catalog)
      → Step texts s (update texts slug user patch s).1
  was_approved : (slug : String) (s : Catalog) → Step texts s (approve texts slug s).1
  was_rejected : (slug note : String) (s : Catalog) → Step texts s (reject texts slug note s).1
  was_suspended : (slug note : String) (s : Catalog) → Step texts s (suspend texts slug note s).1
  was_badged :
      (slug : String) (verified : Bool) (s : Catalog)
      → Step texts s (set_verified texts slug verified s).1

pub data Reach (texts : Texts) (s : Catalog) : Catalog → Type 0 where
  here : Reach texts s s
  next : {t u : Catalog} → Reach texts s t → Step texts t u → Reach texts s u

pub Step-Change : (texts : Texts) {s t : Catalog} → Step texts s t → Change texts s t
Step-Change texts (created owner input s) = create-Change texts owner input s
Step-Change texts (edited slug user patch s) = update-Change texts slug user patch s
Step-Change texts (was_approved slug s) = approve-Change texts slug s
Step-Change texts (was_rejected slug note s) = reject-Change texts slug note s
Step-Change texts (was_suspended slug note s) = suspend-Change texts slug note s
Step-Change texts (was_badged slug verified s) = set_verified-Change texts slug verified s

-- A profile that was turned down says why, and no other has a note.
abbrev NoteFits : TeacherStatus → String → Type 0
NoteFits pending note = str_eq note "" ≡ true
NoteFits approved note = str_eq note "" ≡ true
NoteFits rejected note = str_eq note "" ≡ false
NoteFits suspended note = str_eq note "" ≡ false

-- Two profiles have different ids, slugs and owners.
abbrev pub Apart : TeacherRow → TeacherRow → Type 0
Apart r q =
    ((r.id == q.id) ≡ false)
    × ((slug : String) → has_slug slug r ≡ true → has_slug slug q ≡ false)
    × ((owner : ℕ) → owned_by owner r ≡ true → owned_by owner q ≡ false)

abbrev RowIsConsistent : Texts → ℕ → TeacherRow → Type 0
RowIsConsistent texts n r =
    (r.id < n) × (check_fields texts r.fields ≡ none) × NoteFits r.status r.moderation_note

pub record IsConsistent (texts : Texts) (s : Catalog) : Type 0 where
  pub rows : All (RowIsConsistent texts s.next_id) s.teachers
  pub apart : AllPairs Apart s.teachers

not_owned :
    (owner : ℕ) (rs : List TeacherRow)
    → first_where (owned_by owner) rs ≡ none
    → All (λ r. owned_by owner r ≡ false) rs
unfolding first_where
not_owned owner [] h = tt
not_owned owner (r ∷ rs) h = elim (Bool-cases (owned_by owner r)) [
  | inl e ↦ absurd (ground (arith, e, h))
  | inr e ↦ (e, not_owned owner rs (ground (arith, e, h)))
]

not_slugged :
    (slug : String) (rs : List TeacherRow)
    → exists_where (has_slug slug) rs ≡ false
    → All (λ r. has_slug slug r ≡ false) rs
unfolding exists_where
not_slugged slug [] h = tt
not_slugged slug (r ∷ rs) h = (ground (arith, h), not_slugged slug rs (ground (arith, h)))

-- The empty link is let through by the validation.
check_fields-unlinked :
    (texts : Texts) (f : Fields)
    → check_fields texts f ≡ none
    → check_fields texts (record f { meeting_url = "" }) ≡ none
unfolding check_fields
check_fields-unlinked texts f h =
    let all = (first_of-none (field_checks texts f)).0 h in
    (first_of-none (field_checks texts (record f { meeting_url = "" }))).1
      (all.0, (all.1.0, (all.1.1.0, (all.1.1.1.0, (all.1.1.1.1.0, (all.1.1.1.1.1.0, (refl, tt)))))))

owners_apart :
    (owner other : ℕ) (r : TeacherRow)
    → owned_by owner r ≡ false
    → owned_by other r ≡ true
    → (owner == other) ≡ false
owners_apart owner other r h k = elim (Bool-cases (owner == other)) [
  | inl e ↦ absurd (
      let f : owned_by other r ≡ false =
        subst (λ (u : ℕ). owned_by u r ≡ false) (==→eq owner other e) h in
      cc (f, k))
  | inr e ↦ e
]

All-Apart_new :
    (texts : Texts) (n owner : ℕ) (slug : String) (fields : Fields) (rs : List TeacherRow)
    → All (RowIsConsistent texts n) rs
    → All (λ r. owned_by owner r ≡ false) rs
    → All (λ r. has_slug slug r ≡ false) rs
    → All (λ r. Apart r (new_teacher n owner slug fields)) rs
unfolding new_teacher
All-Apart_new texts n owner slug fields [] h k l = tt
All-Apart_new texts n owner slug fields (r ∷ rs) h k l = (
  (
    ground (arith, h.0.0),
    λ other e. ground (arith, e, l.0, eq_iff slug other, eq_iff r.slug other, eq_iff r.slug slug),
    λ other e. owners_apart owner other r k.0 e,
  ),
  All-Apart_new texts n owner slug fields rs h.1 k.1 l.1,
)

Noted-NoteFits : (note : String) (to : TeacherStatus) → Noted note to → NoteFits to note
Noted-NoteFits note to (inl h) = subst (λ x. NoteFits x note) (sym h.1) h.0
Noted-NoteFits note to (inr (h, inl e)) = subst (λ x. NoteFits x note) (sym e) h
Noted-NoteFits note to (inr (h, inr e)) = subst (λ x. NoteFits x note) (sym e) h

Change-IsConsistent :
    (texts : Texts) {s t : Catalog} → Change texts s t → IsConsistent texts s → IsConsistent texts t
unfolding new_teacher
Change-IsConsistent texts {s} {t} (same e n) h = record {
  rows = rw (e, n) h.rows;
  apart = rw e h.apart;
}
Change-IsConsistent texts {s} {t} (inserted owner slug fields alone free valid e n) h = record {
  rows =
      rw (e, n)
        (All-append (RowIsConsistent texts (suc s.next_id)) s.teachers
          (new_teacher s.next_id owner slug fields ∷ [])
          (All-map (RowIsConsistent texts s.next_id) (RowIsConsistent texts (suc s.next_id))
            s.teachers (λ r k. (omega (arith, k.0), k.1, k.2)) h.rows)
          ((omega arith, check_fields-unlinked texts fields valid, refl), tt));
  apart = rw e (
      AllPairs-snoc Apart s.teachers (new_teacher s.next_id owner slug fields) h.apart (
        All-Apart_new texts s.next_id owner slug fields s.teachers h.rows
          (not_owned owner s.teachers alone) (not_slugged slug s.teachers free)));
}
Change-IsConsistent texts {s} {t} (written id fields valid e n) h = record {
  rows =
      rw (e, n)
        (All-update_where_of (has_id id) (RowIsConsistent texts s.next_id)
          (λ r. record r { fields = fields }) s.teachers (λ r k. (k.0, valid, k.2)) h.rows);
  apart = rw e (
      AllPairs-update_where Apart (has_id id) (λ r. record r { fields = fields }) s.teachers
        (λ x y k. k) (λ x y k. k) h.apart);
}
Change-IsConsistent texts {s} {t} (moderated slug note to r found edge noted e n) h = record {
  rows =
      rw (e, n)
        (All-update_where_of (has_slug slug) (RowIsConsistent texts s.next_id)
          (λ r. record r { status = to; moderation_note = note }) s.teachers
          (λ r k. (k.0, k.1, Noted-NoteFits note to noted)) h.rows);
  apart = rw e (
      AllPairs-update_where Apart (has_slug slug)
        (λ r. record r { status = to; moderation_note = note }) s.teachers (λ x y k. k) (λ x y k. k)
        h.apart);
}
Change-IsConsistent texts {s} {t} (badged slug verified e n) h = record {
  rows =
      rw (e, n)
        (All-update_where_of (has_slug slug) (RowIsConsistent texts s.next_id)
          (λ r. record r { verified = verified }) s.teachers (λ r k. k) h.rows);
  apart = rw e (
      AllPairs-update_where Apart (has_slug slug) (λ r. record r { verified = verified }) s.teachers
        (λ x y k. k) (λ x y k. k) h.apart);
}

-- Whatever the calls of teachers and operators: where no two profiles have the same id, the same
-- slug or the same owner, every profile passes the validation of its fields, and a note is stored
-- exactly with those that are rejected or suspended, all this holds afterwards.
pub Reach-IsConsistent :
    (texts : Texts) {s t : Catalog} → Reach texts s t → IsConsistent texts s → IsConsistent texts t
Reach-IsConsistent texts here h = h
Reach-IsConsistent texts (next r st) h =
    Change-IsConsistent texts (Step-Change texts st) (Reach-IsConsistent texts r h)
