-- ===== src/Auth/Repository.antt =====
-- repository_postgres.go of the auth module.
use Prim.Native.String.{String}
use find_language_tutor.Prelude.{
  ℕ, suc, ◌*◌, ◌+◌, Bool, true, false, not, ◌&&◌, Option, none, some, List, [], ◌∷◌, ◌++◌, ltb,
  ◌==◌, if◌then◌else◌,
}
use find_language_tutor.Prelude.Rows.{first_where, update_where, exists_where}
use text.Mathlib.Text.{◌==◌ as str_eq}
use find_language_tutor.Clock.{second}
use find_language_tutor.Effect.{ok, err, Call, gets, or_raise, ◌>>=◌, ◌>>◌, change}
use find_language_tutor.Auth.{
  PasswordHash, User, Session, TokenPurpose, password_reset, email_verification, AuthToken,
  Accounts, AuthError, email_taken, user_not_found, invalid_refresh_token, invalid_token, is_some,
}

abbrev pub has_email : String → User → Bool
has_email email u = str_eq u.email email

abbrev pub has_id : ℕ → User → Bool
has_id id u = u.id == id

-- CreateUser: the address is unique.
unfoldable pub create_user : String → PasswordHash → String → Call Accounts AuthError User
unfolding exists_where
create_user email hash display_name s =
    let u : User = record {
      id = s.next_id;
      email = email;
      display_name = display_name;
      email_verified_at = none;
      password_hash = some hash;
      created_at = s.now;
      updated_at = s.now;
    } in
    if exists_where (has_email email) s.users
    then (err email_taken, s)
    else (ok u, record s { users = s.users ++ u ∷ []; next_id = suc s.next_id })

-- UserWithHashByEmail and UserByEmail.
unfoldable pub user_by_email : String → Call Accounts AuthError User
unfolding first_where
user_by_email email = do
  or_raise (← gets (λ s. first_where (has_email email) s.users)) user_not_found

unfoldable pub user_by_id : ℕ → Call Accounts AuthError User
unfolding first_where
user_by_id id = do or_raise (← gets (λ s. first_where (has_id id) s.users)) user_not_found

unfoldable pub update_user : ℕ → String → Call Accounts AuthError User
unfolding user_by_id update_where
update_user id display_name = do
  change (λ s. record s {
    users =
        update_where (has_id id) (λ u. record u { display_name = display_name; updated_at = s.now })
          s.users;
  })
  user_by_id id

unfoldable pub create_session : ℕ → String → ℕ → String → Call Accounts AuthError Session
create_session user_id hash expires_at user_agent s =
    let x : Session = record {
      id = s.next_id;
      user_id = user_id;
      refresh_token_hash = hash;
      expires_at = expires_at;
      revoked_at = none;
      replaced_by = none;
      user_agent = user_agent;
      created_at = s.now;
    } in
    (ok x, record s { sessions = s.sessions ++ x ∷ []; next_id = suc s.next_id })

abbrev pub has_refresh_hash : String → Session → Bool
has_refresh_hash hash x = str_eq x.refresh_token_hash hash

unfoldable pub session_by_refresh_hash : String → Call Accounts AuthError Session
unfolding first_where
session_by_refresh_hash hash = do
  or_raise (← gets (λ s. first_where (has_refresh_hash hash) s.sessions)) invalid_refresh_token

-- RevokeSession: `id = $1 AND revoked_at IS NULL`.
abbrev pub is_live_id : ℕ → Session → Bool
is_live_id id x = x.id == id && not (is_some x.revoked_at)

unfoldable pub revoke_session : ℕ → Option ℕ → Call Accounts AuthError (Unit {0})
unfolding update_where
revoke_session id replaced_by = change (λ s. record s {
  sessions =
      update_where (is_live_id id)
        (λ x. record x { revoked_at = some s.now; replaced_by = replaced_by }) s.sessions;
})

abbrev pub is_live_of : ℕ → Session → Bool
is_live_of user_id x = x.user_id == user_id && not (is_some x.revoked_at)

abbrev pub revoke_all : ℕ → Accounts → Accounts
revoke_all user_id s = record s {
  sessions =
      update_where (is_live_of user_id) (λ x. record x { revoked_at = some s.now }) s.sessions;
}

unfoldable pub revoke_all_user_sessions : ℕ → Call Accounts AuthError (Unit {0})
unfolding update_where
revoke_all_user_sessions user_id = change (revoke_all user_id)

abbrev pub same_purpose : TokenPurpose → TokenPurpose → Bool
same_purpose password_reset password_reset = true
same_purpose email_verification email_verification = true
same_purpose _ _ = false

unfoldable pub create_auth_token :
    ℕ → TokenPurpose → String → ℕ → Call Accounts AuthError (Unit {0})
create_auth_token user_id purpose hash expires_at = change (λ s. record s {
  tokens =
      s.tokens
      ++ record {
        user_id = user_id;
        purpose = purpose;
        token_hash = hash;
        expires_at = expires_at;
        consumed_at = none;
        created_at = s.now;
      }
        ∷ [];
})

abbrev pub has_token : String → TokenPurpose → AuthToken → Bool
has_token hash purpose t = str_eq t.token_hash hash && same_purpose t.purpose purpose

-- GetLiveAuthToken: not consumed, not expired.
abbrev pub is_redeemable : ℕ → String → TokenPurpose → AuthToken → Bool
is_redeemable now hash purpose t =
    has_token hash purpose t && not (is_some t.consumed_at) && ltb now t.expires_at

unfoldable pub live_auth_token : String → TokenPurpose → Call Accounts AuthError AuthToken
unfolding first_where
live_auth_token hash purpose = do
  or_raise (← gets (λ s. first_where (is_redeemable s.now hash purpose) s.tokens)) invalid_token

-- AuthTokenUser: consumed and expired tokens too.
unfoldable pub auth_token_user : String → TokenPurpose → Accounts → Option AuthToken
unfolding first_where
auth_token_user hash purpose s = first_where (has_token hash purpose) s.tokens

abbrev pub is_outstanding : ℕ → TokenPurpose → AuthToken → Bool
is_outstanding user_id purpose t =
    t.user_id == user_id && same_purpose t.purpose purpose && not (is_some t.consumed_at)

abbrev pub spend : ℕ → AuthToken → AuthToken
spend now t = record t { consumed_at = some now }

unfoldable pub consume_user_auth_tokens : ℕ → TokenPurpose → Call Accounts AuthError (Unit {0})
unfolding update_where
consume_user_auth_tokens user_id purpose = change (λ s. record s {
  tokens = update_where (is_outstanding user_id purpose) (spend s.now) s.tokens;
})

-- The Unix epoch, which LatestAuthTokenAt takes for "none", as seconds since the zero time.
abbrev pub unix_epoch : ℕ
unix_epoch = 62135596800 * second

-- max(created_at) over the outstanding tokens.
unfoldable pub latest : ℕ → TokenPurpose → List AuthToken → ℕ
latest user_id purpose [] = 0
latest user_id purpose (t ∷ ts) =
    let rest = latest user_id purpose ts in
    if is_outstanding user_id purpose t && ltb rest t.created_at then t.created_at else rest

unfoldable pub latest_auth_token_at : ℕ → TokenPurpose → Accounts → Option ℕ
unfolding latest
latest_auth_token_at user_id purpose s =
    let last = latest user_id purpose s.tokens in
    if ltb last (unix_epoch + second) then none else some last

abbrev pub is_unspent : String → AuthToken → Bool
is_unspent hash t = str_eq t.token_hash hash && not (is_some t.consumed_at)

-- The transaction of ResetPassword: the hash, the token, the sessions.
unfoldable pub apply_reset : ℕ → String → PasswordHash → Call Accounts AuthError (Unit {0})
unfolding update_where
apply_reset user_id token_hash hash = change (λ s. revoke_all user_id (record s {
  users =
      update_where (has_id user_id)
        (λ u. record u { password_hash = some hash; updated_at = s.now }) s.users;
  tokens = update_where (is_unspent token_hash) (spend s.now) s.tokens;
}))

abbrev pub first_time : Option ℕ → ℕ → Option ℕ
first_time none now = some now
first_time (some t) now = some t

-- The transaction of ConfirmEmail.
unfoldable pub confirm_email : ℕ → String → Call Accounts AuthError (Unit {0})
unfolding update_where
confirm_email user_id token_hash = change (λ s. record s {
  users =
      update_where (has_id user_id)
        (λ u. record u {
          email_verified_at = first_time u.email_verified_at s.now;
          updated_at = s.now;
        })
        s.users;
  tokens = update_where (is_unspent token_hash) (spend s.now) s.tokens;
})
