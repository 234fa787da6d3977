-- ===== src/Teachers/Effects.antt =====
-- What each call does to the profiles, with the conditions under which it does so.
use Prim.Native.String.{String}
use text.Mathlib.Text.{◌==◌ as str_eq}
use find_language_tutor.Prelude.{
  ℕ, suc, ◌≡◌, refl, inl, inr, Bool, false, not, ◌||◌, Option, none, some, [], ◌∷◌, ◌++◌, ◌==◌,
  arith, Option-cases,
}
use find_language_tutor.Prelude.Rows.{first_where, update_where, exists_where}
use find_language_tutor.Effect.{ok, Fallible-cases, Call, pure, raise_if, ◌>>=◌}
use find_language_tutor.Effect.Keeps.{then-Keeps, bind-ok, guard-after, bind-reads, bind-state}
use find_language_tutor.Teachers.{
  TeacherStatus, pending, approved, rejected, suspended, ProfileInput, ProfilePatch, ProfileUpdate,
  TeacherRow, Teacher, Catalog, TeacherError, not_owner, invalid_transition, note_required,
  ProfileFault, Texts, Ref,
}
use find_language_tutor.Teachers.Profile.{check_fields, validate_profile, merge_patch}
use find_language_tutor.Teachers.Repository.{
  has_slug, has_id, owned_by, new_teacher, insert_languages, insert_focus, insert_experience,
  insert_children, replace_languages, replace_focus, replace_experience, when,
}
use find_language_tutor.Teachers.Repository as Repository
use find_language_tutor.Teachers.Service.{
  max_slug_dedupe_attempts, candidate, try_slugs, free_slug, accept, answer_of, refuse_second,
}
use find_language_tutor.Teachers.Service as Service
use find_language_tutor.Teachers.Moderation.{
  get_moderation, set_teacher_status, set_teacher_verified, get_teacher, transition, approve,
  reject, suspend, set_verified, may_approve, may_reject, may_suspend,
}
use find_language_tutor.Teachers.Changes.{
  Edge, approve_new, reject_new, suspend_live, reconsider, reinstate, Noted, Change, same, inserted,
  written, moderated, badged,
}
use find_language_tutor.Teachers.States.{
  insert_children-Keeps, when-Keeps, replace_languages-Keeps, replace_focus-Keeps,
  replace_experience-Keeps, get_by_slug_state, free_slug_state, free_slug-Free,
  get_moderation_state, get_teacher_state, Rows,
}

check_fields_of :
    (texts : Texts) (input : ProfileInput)
    → validate_profile texts input ≡ none
    → check_fields texts input.fields ≡ none
unfolding validate_profile
check_fields_of texts input h = elim (Option-cases (check_fields texts input.fields)) [
  | inl e ↦ e
  | inr (f, e) ↦ absurd (ground (arith, e, h))
]

transaction-state :
    {A : Type 0} (P : Catalog → Type 0) (m : Call Catalog TeacherError A) (s : Catalog)
    → P s
    → P (m s).1
    → P (Repository.transaction m s).1
transaction-state P m s h k = elim (Fallible-cases (m s).0) [
  | inl (a, e) ↦ rw (e, Repository.transaction) k
  | inr (x, e) ↦ rw (e, Repository.transaction) h
]

-- The transaction of Create, after its guards.
repository-create :
    (texts : Texts) (owner : ℕ) (slug : String) (input : ProfileInput) (s : Catalog)
    → first_where (owned_by owner) s.teachers ≡ none
    → exists_where (has_slug slug) s.teachers ≡ false
    → check_fields texts input.fields ≡ none
    → Change texts s (Repository.create owner slug input s).1
unfolding Repository.create Repository.create_teacher
repository-create texts owner slug input s alone free valid =
    let t : Catalog = record s {
      next_id = suc s.next_id;
      teachers = s.teachers ++ new_teacher s.next_id owner slug input.fields ∷ [];
    } in
    let after_insert : (u : Catalog) → Rows t.teachers t.next_id u → Change texts s u =
      λ u k. inserted owner slug input.fields alone free valid k.0 k.1 in
    transaction-state (Change texts s)
      (Repository.create_teacher owner slug input.fields >>= λ id.
        insert_children id input >>= λ a. pure id)
      s (same refl refl)
      (bind-ok (Change texts s) (Repository.create_teacher owner slug input.fields)
        (λ id. insert_children id input >>= λ a. pure id) s t s.next_id (rw free refl)
        (after_insert _ (
          bind-state (Rows t.teachers t.next_id) (insert_children s.next_id input)
            (λ a. pure s.next_id) t
            (insert_children-Keeps t.teachers t.next_id s.next_id input t (refl, refl))
            (λ a u. refl))))

accept-after :
    {B : Type 0} (P : Catalog → Type 0) (o : Option ProfileFault) (k : Call Catalog TeacherError B)
    (s : Catalog)
    → P s
    → (o ≡ none → P (k s).1)
    → P ((accept o >>= λ a. k) s).1
accept-after P none k s h g = g refl
accept-after P (some f) k s h g = h

-- Create, once no profile of the account was found.
create_unclaimed :
    (texts : Texts) (owner : ℕ) (input : ProfileInput) (s : Catalog)
    → first_where (owned_by owner) s.teachers ≡ none
    → validate_profile texts input ≡ none
    → Change texts s
        ((free_slug texts input.fields.display_name >>= λ slug.
            Repository.create owner slug input >>= λ id. Repository.get_by_slug texts.collate slug)
          s).1
create_unclaimed texts owner input s alone valid =
    bind-reads (Change texts s) (free_slug texts input.fields.display_name)
      (λ slug.
        Repository.create owner slug input >>= λ id. Repository.get_by_slug texts.collate slug)
      s (free_slug_state texts input.fields.display_name s) (same refl refl)
      (λ slug e.
        bind-state (Change texts s) (Repository.create owner slug input)
          (λ id. Repository.get_by_slug texts.collate slug) s
          (repository-create texts owner slug input s alone
            (free_slug-Free texts input.fields.display_name slug s e)
            (check_fields_of texts input valid))
          (λ id t. get_by_slug_state texts.collate slug t))

-- No profile of the account is found, or the call answers that there is one.
unclaimed_or_refused :
    {B : Type 0} (P : Catalog → Type 0) (owner : ℕ) (k : Call Catalog TeacherError B) (s : Catalog)
    → P s
    → (first_where (owned_by owner) s.teachers ≡ none → P (k s).1)
    → P ((answer_of (Repository.ref_by_owner owner) >>= λ r. refuse_second r >>= λ a. k) s).1
unfolding Repository.ref_by_owner
unclaimed_or_refused P owner k s h g =
    elim (Option-cases (first_where (owned_by owner) s.teachers)) [
      | inl e ↦ rw e (g e)
      | inr (r, e) ↦ rw e h
    ]

pub create-Change :
    (texts : Texts) (owner : ℕ) (input : ProfileInput) (s : Catalog)
    → Change texts s (Service.create texts owner input s).1
unfolding Service.create
create-Change texts owner input s =
    let named = free_slug texts input.fields.display_name >>= λ slug.
    Repository.create owner slug input >>= λ id. Repository.get_by_slug texts.collate slug in
    unclaimed_or_refused (Change texts s) owner
      (accept (validate_profile texts input) >>= λ a. named) s (same refl refl)
      (λ alone.
        accept-after (Change texts s) (validate_profile texts input) named s (same refl refl)
          (λ valid. create_unclaimed texts owner input s alone valid))

-- The transaction of Update.
repository-update :
    (texts : Texts) (id : ℕ) (upd : ProfileUpdate) (s : Catalog)
    → check_fields texts upd.input.fields ≡ none
    → Change texts s (Repository.update id upd s).1
unfolding Repository.update Repository.update_teacher
repository-update texts id upd s valid =
    let ts = update_where (has_id id) (λ r. record r { fields = upd.input.fields }) s.teachers in
    let t : Catalog = record s { teachers = ts } in
    let P : Catalog → Type 0 = Rows ts s.next_id in
    let languages = when upd.replace_languages (replace_languages id upd.input.languages) in
    let focus = when upd.replace_focus (replace_focus id upd.input.focus) in
    let experience = when upd.replace_experience (replace_experience id upd.input.experience) in
    let k =
      then-Keeps P languages (focus >>= λ a. experience)
        (when-Keeps ts s.next_id upd.replace_languages (replace_languages id upd.input.languages)
          (replace_languages-Keeps ts s.next_id id upd.input.languages))
        (then-Keeps P focus experience
          (when-Keeps ts s.next_id upd.replace_focus (replace_focus id upd.input.focus)
            (replace_focus-Keeps ts s.next_id id upd.input.focus))
          (when-Keeps ts s.next_id upd.replace_experience
            (replace_experience id upd.input.experience)
            (replace_experience-Keeps ts s.next_id id upd.input.experience)))
        t (refl, refl) in
    transaction-state (Change texts s)
      (Repository.update_teacher id upd.input.fields >>= λ x.
        languages >>= λ a. focus >>= λ b. experience)
      s (same refl refl) (written id upd.input.fields valid k.0 k.1)

ref_by_slug_state : (slug : String) (s : Catalog) → (Repository.ref_by_slug slug s).1 ≡ s
unfolding Repository.ref_by_slug
ref_by_slug_state slug s = elim (Option-cases (first_where (has_slug slug) s.teachers)) [
  | inl e ↦ rw e refl
  | inr (r, e) ↦ rw e refl
]

pub update-Change :
    (texts : Texts) (slug : String) (acting_user : ℕ) (patch : ProfilePatch) (s : Catalog)
    → Change texts s (Service.update texts slug acting_user patch s).1
unfolding Service.update
update-Change texts slug acting_user patch s =
    let P : Catalog → Type 0 = Change texts s in
    let back = Repository.get_by_slug texts.collate slug in
    let upd : Teacher → ProfileUpdate = λ current. record {
      input = merge_patch current patch;
      replace_languages = Service.is_given patch.languages;
      replace_focus = Service.is_given patch.focus;
      replace_experience = Service.is_given patch.experience;
    } in
    let write : Ref → Teacher → Call Catalog TeacherError Teacher =
      λ ref current. Repository.update ref.id (upd current) >>= λ a. back in
    let edit : Ref → Call Catalog TeacherError Teacher = λ ref. back >>= λ current.
    accept (validate_profile texts (merge_patch current patch)) >>= λ a. write ref current in
    bind-reads P (Repository.ref_by_slug slug)
      (λ ref. raise_if (ref.owner_id == 0 || not (ref.owner_id == acting_user)) not_owner >>= λ a.
        edit ref)
      s (ref_by_slug_state slug s) (same refl refl)
      (λ ref e.
        guard-after P (ref.owner_id == 0 || not (ref.owner_id == acting_user)) not_owner (edit ref)
          s (same refl refl)
          (λ owned.
            bind-reads P back
              (λ current. accept (validate_profile texts (merge_patch current patch)) >>= λ a.
                write ref current)
              s (get_by_slug_state texts.collate slug s) (same refl refl)
              (λ current f.
                accept-after P (validate_profile texts (merge_patch current patch))
                  (write ref current) s (same refl refl)
                  (λ valid.
                    bind-state P (Repository.update ref.id (upd current)) (λ a. back) s
                      (repository-update texts ref.id (upd current) s
                        (check_fields_of texts (merge_patch current patch) valid))
                      (λ a t. get_by_slug_state texts.collate slug t)))))

get_moderation_found :
    (slug : String) (s : Catalog) (r : TeacherRow)
    → (get_moderation slug s).0 ≡ ok r
    → first_where (has_slug slug) s.teachers ≡ some r
unfolding get_moderation
get_moderation_found slug s r h = elim (Option-cases (first_where (has_slug slug) s.teachers)) [
  | inl e ↦ absurd (ground (arith, e, h))
  | inr (x, e) ↦ ground (arith, e, h)
]

transition-Change :
    (texts : Texts) (slug note : String) (to : TeacherStatus) (allow : TeacherStatus → Bool)
    (s : Catalog)
    → ((from : TeacherStatus) → not (allow from) ≡ false → Edge from to)
    → Noted note to
    → Change texts s (transition texts slug to note allow s).1
unfolding transition set_teacher_status
transition-Change texts slug note to allow s edges noted =
    let P : Catalog → Type 0 = Change texts s in
    let write = set_teacher_status slug to note >>= λ a. get_teacher texts slug in
    bind-reads P (get_moderation slug)
      (λ r. raise_if (not (allow r.status)) invalid_transition >>= λ a. write) s
      (get_moderation_state slug s) (same refl refl)
      (λ r e.
        guard-after P (not (allow r.status)) invalid_transition write s (same refl refl) (λ allowed.
          bind-state P (set_teacher_status slug to note) (λ a. get_teacher texts slug) s
            (moderated slug note to r (get_moderation_found slug s r e) (edges r.status allowed)
              noted refl refl)
            (λ a t. get_teacher_state texts slug t)))

may_approve-Edge : (from : TeacherStatus) → not (may_approve from) ≡ false → Edge from approved
may_approve-Edge pending h = approve_new
may_approve-Edge approved h = absurd (cc)
may_approve-Edge rejected h = reconsider
may_approve-Edge suspended h = reinstate

may_reject-Edge : (from : TeacherStatus) → not (may_reject from) ≡ false → Edge from rejected
may_reject-Edge pending h = reject_new
may_reject-Edge approved h = absurd (cc)
may_reject-Edge rejected h = absurd (cc)
may_reject-Edge suspended h = absurd (cc)

may_suspend-Edge : (from : TeacherStatus) → not (may_suspend from) ≡ false → Edge from suspended
may_suspend-Edge pending h = absurd (cc)
may_suspend-Edge approved h = suspend_live
may_suspend-Edge rejected h = absurd (cc)
may_suspend-Edge suspended h = absurd (cc)

pub approve-Change :
    (texts : Texts) (slug : String) (s : Catalog) → Change texts s (approve texts slug s).1
unfolding approve
approve-Change texts slug s =
    transition-Change texts slug "" approved may_approve s may_approve-Edge (inl (refl, refl))

pub reject-Change :
    (texts : Texts) (slug note : String) (s : Catalog) → Change texts s (reject texts slug note s).1
unfolding reject
reject-Change texts slug note s =
    guard-after (Change texts s) (str_eq note "") note_required
      (transition texts slug rejected note may_reject) s (same refl refl)
      (λ given.
        transition-Change texts slug note rejected may_reject s may_reject-Edge
          (inr (given, inl refl)))

pub suspend-Change :
    (texts : Texts) (slug note : String) (s : Catalog)
    → Change texts s (suspend texts slug note s).1
unfolding suspend
suspend-Change texts slug note s =
    guard-after (Change texts s) (str_eq note "") note_required
      (transition texts slug suspended note may_suspend) s (same refl refl)
      (λ given.
        transition-Change texts slug note suspended may_suspend s may_suspend-Edge
          (inr (given, inr refl)))

pub set_verified-Change :
    (texts : Texts) (slug : String) (verified : Bool) (s : Catalog)
    → Change texts s (set_verified texts slug verified s).1
unfolding set_verified set_teacher_verified
set_verified-Change texts slug verified s =
    let write = set_teacher_verified slug verified >>= λ a. get_teacher texts slug in
    bind-reads (Change texts s) (get_moderation slug) (λ r. write) s (get_moderation_state slug s)
      (same refl refl)
      (λ r e.
        bind-state (Change texts s) (set_teacher_verified slug verified)
          (λ a. get_teacher texts slug) s (badged slug verified refl refl)
          (λ a t. get_teacher_state texts slug t))
