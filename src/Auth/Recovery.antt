-- ===== src/Auth/Recovery.antt =====
-- The recovery of an account by a link that is mailed to it.
use Prim.Native.String.{String, len}
use find_language_tutor.Prelude.{ℕ, suc, ◌≡◌, ◌≤◌, refl, none, some, List, [], ◌∷◌, arith, ◌+◌}
use text.Mathlib.TextPositions.{eq_refl}
use find_language_tutor.Prelude.Rows.{first_where, update_where, first_where-update_where}
use find_language_tutor.Effect.{ok, err}
use find_language_tutor.Auth.{
  User, AuthToken, TokenPurpose, password_reset, Accounts, invalid_token, Deps, hash_password,
  verify_password, normalize_email, min_password_len, issue_access, argon_time, argon_memory,
  argon_parallelism,
}
use find_language_tutor.Auth.Repository.{
  has_email, has_id, is_redeemable, is_unspent, spend, live_auth_token, apply_reset, user_by_email,
  create_session,
}
use find_language_tutor.Auth.Service.{
  AuthResult, permissions_for, reset_password, draw_salt, login, new_opaque_token, start_session,
  start_session_result,
}
use find_language_tutor.Auth.Sessions.{SignedOut, revoke_all-SignedOut}

-- No token with the digest can be redeemed.
none_redeemable :
    (now now' : ℕ) (hash : String) (purpose : TokenPurpose) (ts : List AuthToken)
    → first_where (is_redeemable now' hash purpose) (update_where (is_unspent hash) (spend now) ts)
      ≡ none
unfolding first_where update_where
none_redeemable now now' hash purpose [] = refl
none_redeemable now now' hash purpose (t ∷ ts) =
    ground (arith, none_redeemable now now' hash purpose ts)

-- The state after the reset of a user's password.
after_reset : Deps → String → String → ℕ → Accounts → Accounts
unfolding apply_reset hash_password
after_reset d raw password user_id s =
    (apply_reset user_id (d.sha256 raw) (hash_password d password (d.random_salt s.draws))
      (record s { draws = suc s.draws })).1

reset_password_lem :
    (d : Deps) (raw password : String) (s : Accounts) (t : AuthToken)
    → min_password_len ≤ len password
    → first_where (is_redeemable s.now (d.sha256 raw) password_reset) s.tokens ≡ some t
    → reset_password d raw password s ≡ (ok tt, after_reset d raw password t.user_id s)
unfolding reset_password live_auth_token draw_salt after_reset
reset_password_lem d raw password s t long found = ground (arith, found)

reset_spent :
    (d : Deps) (raw password other : String) (user_id : ℕ) (s : Accounts)
    → min_password_len ≤ len other
    → let s' = after_reset d raw password user_id s in
      reset_password d raw other s' ≡ (err invalid_token, s')
unfolding reset_password live_auth_token after_reset
reset_spent d raw password other user_id s long =
    ground (arith, none_redeemable s.now s.now (d.sha256 raw) password_reset s.tokens)

reset-SignedOut :
    (d : Deps) (raw password : String) (user_id : ℕ) (s : Accounts)
    → SignedOut user_id (after_reset d raw password user_id s)
unfolding after_reset
reset-SignedOut d raw password user_id s = revoke_all-SignedOut user_id s

-- The new password is accepted.
reset-login :
    (d : Deps) (raw password email user_agent : String) (s : Accounts) (u : User)
    → first_where (has_email (normalize_email d email)) s.users ≡ some u
    → (r : AuthResult) × ((login d email password user_agent (after_reset d raw password u.id s)).0
        ≡ ok r)
      × (r.user.id ≡ u.id)
unfolding after_reset login user_by_email verify_password start_session start_session_result
    new_opaque_token create_session
reset-login d raw password email user_agent s u found =
    let hash = hash_password d password (d.random_salt s.draws) in
    let u' : User = record u { password_hash = some hash; updated_at = s.now } in
    let row : User → User = λ x. record x { password_hash = some hash; updated_at = s.now } in
    (
      record {
        user = u';
        permissions = permissions_for d u.id;
        access_token = issue_access d u' s.now;
        access_ttl = d.access_ttl;
        refresh_token = d.random_token (suc s.draws);
        refresh_expires = s.now + d.refresh_ttl;
      },
      ground (
        arith,
        found,
        first_where-update_where (has_email (normalize_email d email)) (has_id u.id) row s.users
            (λ x. refl),
        eq_refl
            (d.argon2 password (d.random_salt s.draws) argon_time argon_memory argon_parallelism),
      ),
      refl,
    )

-- Where a reset link is live for an account and the new password has at least eight bytes, the
-- reset succeeds; no session of the account is live then, the link cannot be redeemed again, and
-- the new password signs the account in.
pub reset_password_replaces :
    (d : Deps) (raw password other email user_agent : String) (s : Accounts) (t : AuthToken)
    (u : User)
    → min_password_len ≤ len password
    → min_password_len ≤ len other
    → first_where (is_redeemable s.now (d.sha256 raw) password_reset) s.tokens ≡ some t
    → first_where (has_email (normalize_email d email)) s.users ≡ some u
    → t.user_id ≡ u.id
    → let (answer, s') = reset_password d raw password s in
      (answer ≡ ok tt)
      × SignedOut u.id s'
      × (reset_password d raw other s' ≡ (err invalid_token, s'))
      × ((r : AuthResult) × ((login d email password user_agent s').0 ≡ ok r) × (r.user.id ≡ u.id))
reset_password_replaces d raw password other email user_agent s t u long long' live found mine =
    rw (reset_password_lem d raw password s t long live, mine)
      (
        refl,
        reset-SignedOut d raw password u.id s,
        reset_spent d raw password other u.id s long',
        reset-login d raw password email user_agent s u found,
      )
