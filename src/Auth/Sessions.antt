-- ===== src/Auth/Sessions.antt =====
-- Refresh tokens: rotation, and what the reuse of a token does.
use Prim.Native.String.{String}
use find_language_tutor.Prelude.{
  ℕ, ◌≡◌, refl, true, false, none, some, List, [], ◌∷◌, ◌++◌, arith, All, Bool-cases, Option-cases,
  inl, inr, ◌+◌,
}
use text.Mathlib.Text.{◌==◌ as str_eq}
use find_language_tutor.Prelude.Rows.{
  first_where, update_where, first_where-passes, first_where-append, All-update_where,
  first_where-update_where,
}
use find_language_tutor.Effect.{ok, err}
use find_language_tutor.Auth.{
  User, Session, Accounts, invalid_refresh_token, Deps, is_revoked, is_expired,
}
use find_language_tutor.Auth.Repository.{
  has_id, has_refresh_hash, is_live_id, is_live_of, revoke_all, create_session,
  session_by_refresh_hash, revoke_session, revoke_all_user_sessions, user_by_id,
}
use find_language_tutor.Auth.Service.{AuthResult, new_opaque_token, start_session, rotate, refresh}

-- No session of the user is live.
abbrev pub SignedOut : ℕ → Accounts → Type 0
SignedOut user_id s = All (λ x. is_live_of user_id x ≡ false) s.sessions

pub revoke_all-SignedOut : (user_id : ℕ) (s : Accounts) → SignedOut user_id (revoke_all user_id s)
revoke_all-SignedOut user_id s =
    All-update_where (is_live_of user_id) (λ x. is_live_of user_id x ≡ false)
      (λ x. record x { revoked_at = some s.now }) s.sessions (λ x h. ground arith) (λ x h. h)

-- A revoked session: its token is refused, and every session of its user is revoked.
refresh_revoked :
    (d : Deps) (raw user_agent : String) (s : Accounts) (x : Session)
    → str_eq raw "" ≡ false
    → first_where (has_refresh_hash (d.sha256 raw)) s.sessions ≡ some x
    → is_revoked x ≡ true
    → refresh d raw user_agent s ≡ (err invalid_refresh_token, revoke_all x.user_id s)
unfolding refresh session_by_refresh_hash revoke_all_user_sessions
refresh_revoked d raw user_agent s x named found gone = ground (arith, named, found, gone)

-- The row of the session that `rotate` opens, and what it answers.
abbrev opened : Deps → User → String → Accounts → Session
opened d u user_agent s = record {
  id = s.next_id;
  user_id = u.id;
  refresh_token_hash = d.sha256 (d.random_token s.draws);
  expires_at = s.now + d.refresh_ttl;
  revoked_at = none;
  replaced_by = none;
  user_agent = user_agent;
  created_at = s.now;
}

abbrev replaced : Accounts → Session → Session
replaced s x = record x { revoked_at = some s.now; replaced_by = some s.next_id }

rotated_rows : Deps → User → String → Session → Accounts → List Session
rotated_rows d u user_agent x s =
    update_where (is_live_id x.id) (replaced s) (s.sessions ++ opened d u user_agent s ∷ [])

rotate_lem :
    (d : Deps) (x : Session) (user_agent : String) (s s' : Accounts) (r : AuthResult)
    → rotate d x user_agent s ≡ (ok r, s')
    → (u : User) × (first_where (has_id x.user_id) s.users ≡ some u)
      × (r.user ≡ u)
      × (s'.sessions ≡ rotated_rows d u user_agent x s)
unfolding rotate user_by_id start_session new_opaque_token create_session revoke_session
    rotated_rows
rotate_lem d x user_agent s s' r h = elim (Option-cases (first_where (has_id x.user_id) s.users)) [
  | inl e ↦ ground (arith, e)
  | inr (u, e) ↦ (u, e, ground (arith, e), ground (arith, e))
]

-- The old session is still the one that its token finds, and is revoked.
old_found :
    (d : Deps) (raw user_agent : String) (s : Accounts) (u : User) (x : Session)
    → first_where (has_refresh_hash (d.sha256 raw)) s.sessions ≡ some x
    → is_revoked x ≡ false
    → first_where (has_refresh_hash (d.sha256 raw)) (rotated_rows d u user_agent x s)
      ≡ some (replaced s x)
unfolding rotated_rows
old_found d raw user_agent s u x found live =
    let p = has_refresh_hash (d.sha256 raw) in
    ground (
      arith,
      live,
      first_where-update_where p (is_live_id x.id) (replaced s)
          (s.sessions ++ opened d u user_agent s ∷ []) (λ y. refl),
      first_where-append p s.sessions (opened d u user_agent s ∷ []) x found,
    )

-- What a successful refresh did.
record Rotated (d : Deps) (raw : String) (s : Accounts) (r : AuthResult) (s' : Accounts)
    : Type 0 where
  pub named : str_eq raw "" ≡ false
  pub old : Session
  pub owner : r.user.id ≡ old.user_id
  pub now_found : first_where (has_refresh_hash (d.sha256 raw)) s'.sessions ≡ some (replaced s old)

refresh-Rotated :
    (d : Deps) (raw user_agent : String) (s s' : Accounts) (r : AuthResult)
    → refresh d raw user_agent s ≡ (ok r, s')
    → Rotated d raw s r s'
unfolding refresh session_by_refresh_hash revoke_all_user_sessions revoke_session
refresh-Rotated d raw user_agent s s' r h = elim (Bool-cases (str_eq raw "")) [
  | inl e ↦ ground (arith, e)
  | inr e ↦ elim (Option-cases (first_where (has_refresh_hash (d.sha256 raw)) s.sessions)) [
    | inl f ↦ ground (arith, e, f)
    | inr (x, f) ↦ elim (Bool-cases (is_revoked x)) [
      | inl g ↦ ground (arith, e, f, g)
      | inr g ↦ elim (Bool-cases (is_expired x s.now)) [
        | inl k ↦ ground (arith, e, f, g, k)
        | inr k ↦
            let (u, at, same, rows) =
              rotate_lem d x user_agent s s' r (ground (arith, e, f, g, k)) in
            let mine = first_where-passes (has_id x.user_id) s.users u at in
            record {
              named = e;
              old = x;
              owner = ground (arith, same, mine);
              now_found = rw rows (old_found d raw user_agent s u x f g);
            }
      ]
    ]
  ]
]

-- A refresh token works once: where it was accepted, presenting it again is refused, whoever does
-- so, and then no session of the user is live any more, the new one included.
pub refresh_once :
    (d : Deps) (raw user_agent other_agent : String) (s s' : Accounts) (r : AuthResult)
    → refresh d raw user_agent s ≡ (ok r, s')
    → let again = refresh d raw other_agent s' in
      (again.0 ≡ err invalid_refresh_token) × SignedOut r.user.id again.1
refresh_once d raw user_agent other_agent s s' r h =
    let done = refresh-Rotated d raw user_agent s s' r h in
    let again =
      refresh_revoked d raw other_agent s' (replaced s done.old) done.named done.now_found refl in
    rw (again, done.owner) (refl, revoke_all-SignedOut done.old.user_id s')
