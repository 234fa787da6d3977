-- ===== src/Auth/Service.antt =====
-- service.go of the auth module.
use Prim.Native.String.{String, len}
use find_language_tutor.Prelude.{
  ℕ, suc, ◌+◌, ◌-◌, Bool, false, not, Option, none, some, List, [], ◌∷◌, ltb, if◌then◌else◌,
}
use text.Mathlib.Text.{◌==◌ as str_eq}
use find_language_tutor.Effect.{ok, err, Call, pure, gets, ◌>>=◌, ◌>>◌, change, raise_if}
use find_language_tutor.Auth.{
  User, Session, TokenPurpose, password_reset, email_verification, Accounts, AuthError,
  invalid_credentials, invalid_refresh_token, invalid_token, already_verified, bad_email,
  short_password, no_display_name, Deps, password_reset_ttl, email_verification_ttl,
  resend_cooldown, min_password_len, is_some, is_revoked, is_expired, hash_password,
  verify_password, issue_access, normalize_email, valid_email,
}
use find_language_tutor.Auth.Repository.{
  create_user, user_by_email, user_by_id, update_user, create_session, session_by_refresh_hash,
  revoke_session, revoke_all_user_sessions, create_auth_token, live_auth_token, auth_token_user,
  consume_user_auth_tokens, latest_auth_token_at, apply_reset, confirm_email,
}

pub record AuthResult : Type 0 where
  pub user : User
  pub permissions : List String
  pub access_token : String
  pub access_ttl : ℕ
  pub refresh_token : String
  pub refresh_expires : ℕ

module _ (d : Deps) where
  -- permissionsFor: no port is no permission.
  abbrev pub permissions_for : ℕ → List String
  permissions_for user_id = elim d.permissions [ none ↦ [] | some port ↦ port user_id ]

  -- newOpaqueToken and newRefreshToken: the raw token.
  unfoldable pub new_opaque_token : Call Accounts AuthError String
  new_opaque_token s = (ok (d.random_token s.draws), record s { draws = suc s.draws })

  unfoldable pub draw_salt : Call Accounts AuthError String
  draw_salt s = (ok (d.random_salt s.draws), record s { draws = suc s.draws })

  -- startSession, with the id of the new session.
  unfoldable pub start_session : User → String → Call Accounts AuthError (AuthResult × ℕ)
  unfolding issue_access new_opaque_token create_session
  start_session user user_agent = do
    now ← gets (λ s. s.now)
    let access = issue_access d user now
    raw ← new_opaque_token
    let expires = now + d.refresh_ttl
    x ← create_session user.id (d.sha256 raw) expires user_agent
    pure (
      record {
        user = user;
        permissions = permissions_for user.id;
        access_token = access;
        access_ttl = d.access_ttl;
        refresh_token = raw;
        refresh_expires = expires;
      },
      x.id,
    )

  unfoldable pub start_session_result : User → String → Call Accounts AuthError AuthResult
  unfolding start_session
  start_session_result user user_agent = do r ← start_session user user_agent; pure r.0

  unfoldable pub on_cooldown : ℕ → TokenPurpose → Accounts → Bool
  unfolding latest_auth_token_at
  on_cooldown user_id purpose s = elim (latest_auth_token_at user_id purpose s) [
    | none ↦ false
    | some last ↦ ltb (s.now - last) resend_cooldown
  ]

  -- The token and the mail of the recovery flows.
  unfoldable pub issue_token : User → TokenPurpose → ℕ → Call Accounts AuthError (Unit {0})
  unfolding new_opaque_token consume_user_auth_tokens create_auth_token
  issue_token user purpose ttl = do
    raw ← new_opaque_token
    consume_user_auth_tokens user.id purpose
    now ← gets (λ s. s.now)
    create_auth_token user.id purpose (d.sha256 raw) (now + ttl)
    change (λ s. record s {
      mails =
          record {
            purpose = purpose;
            address = user.email;
            name = user.display_name;
            raw_token = raw;
          }
          ∷ s.mails;
    })

  unfoldable pub issue_email_verification : User → Call Accounts AuthError (Unit {0})
  unfolding issue_token
  issue_email_verification user = issue_token user email_verification email_verification_ttl

  unfoldable pub register : String → String → String → String → Call Accounts AuthError AuthResult
  unfolding normalize_email valid_email draw_salt hash_password create_user issue_email_verification
      start_session_result
  register email password display_name user_agent = do
    let address = normalize_email d email
    let name = d.trim_space display_name
    raise_if (not (valid_email d address)) bad_email
    raise_if (ltb (len password) min_password_len) short_password
    raise_if (str_eq name "") no_display_name
    salt ← draw_salt
    user ← create_user address (hash_password d password salt) name
    issue_email_verification user
    start_session_result user user_agent

  -- The part of RequestPasswordReset for an account: it may have a token of late.
  unfoldable pub send_reset : User → Call Accounts AuthError (Unit {0})
  unfolding on_cooldown issue_token
  send_reset user s =
      let sent = issue_token user password_reset password_reset_ttl s in
      if on_cooldown user.id password_reset s then (ok tt, s) else sent

  -- It answers nil whatever happens.
  unfoldable pub request_password_reset : String → Call Accounts AuthError (Unit {0})
  unfolding normalize_email valid_email user_by_email send_reset
  request_password_reset email s =
      let address = normalize_email d email in
      if not (valid_email d address)
      then (ok tt, s)
      else (elim (user_by_email address s).0 [ err e ↦ (ok tt, s) | ok user ↦ send_reset user s ])

  unfoldable pub reset_password : String → String → Call Accounts AuthError (Unit {0})
  unfolding live_auth_token draw_salt hash_password apply_reset
  reset_password raw_token new_password = do
    raise_if (ltb (len new_password) min_password_len) short_password
    let hash = d.sha256 raw_token
    t ← live_auth_token hash password_reset
    salt ← draw_salt
    apply_reset t.user_id hash (hash_password d new_password salt)

  -- The second chance of VerifyEmail, for a token that is spent or expired.
  unfoldable pub already_confirmed : String → Accounts → Bool
  unfolding auth_token_user user_by_id
  already_confirmed hash s = elim (auth_token_user hash email_verification s) [
    | none ↦ false
    | some t ↦ elim (user_by_id t.user_id s).0 [
      | ok u ↦ is_some u.email_verified_at
      | err e ↦ false
    ]
  ]

  unfoldable pub verify_email : String → Call Accounts AuthError (Unit {0})
  unfolding live_auth_token already_confirmed confirm_email
  verify_email raw_token s =
      let hash = d.sha256 raw_token in
      elim (live_auth_token hash email_verification s).0 [
        | ok t ↦ confirm_email t.user_id hash s
        | err e ↦ if already_confirmed hash s then (ok tt, s) else (err invalid_token, s)
      ]

  unfoldable pub resend_email_verification : ℕ → Call Accounts AuthError (Unit {0})
  unfolding user_by_id on_cooldown issue_email_verification
  resend_email_verification user_id = do
    user ← user_by_id user_id
    raise_if (is_some user.email_verified_at) already_verified
    waiting ← gets (on_cooldown user.id email_verification)
    if waiting then pure tt else issue_email_verification user

  unfoldable pub login : String → String → String → Call Accounts AuthError AuthResult
  unfolding normalize_email user_by_email verify_password start_session_result
  login email password user_agent s = elim (user_by_email (normalize_email d email) s).0 [
    | err e ↦ (err invalid_credentials, s)
    | ok user ↦
        let started = start_session_result user user_agent s in
        if verify_password d password user.password_hash
        then started
        else (err invalid_credentials, s)
  ]

  -- The end of Refresh, for a session that is neither revoked nor expired.
  unfoldable pub rotate : Session → String → Call Accounts AuthError AuthResult
  unfolding user_by_id start_session revoke_session
  rotate x user_agent s = elim (user_by_id x.user_id s).0 [
    | err e ↦ (err invalid_refresh_token, s)
    | ok user ↦ (do r ← start_session user user_agent; revoke_session x.id (some r.1); pure r.0) s
  ]

  unfoldable pub refresh : String → String → Call Accounts AuthError AuthResult
  unfolding session_by_refresh_hash revoke_all_user_sessions revoke_session rotate
  refresh raw user_agent s =
      if str_eq raw ""
      then (err invalid_refresh_token, s)
      else (elim (session_by_refresh_hash (d.sha256 raw) s).0 [
        | err e ↦ (err invalid_refresh_token, s)
        | ok x ↦
            if is_revoked x
            then (err invalid_refresh_token, (revoke_all_user_sessions x.user_id s).1)
            else (if is_expired x s.now
                then (err invalid_refresh_token, (revoke_session x.id none s).1)
                else rotate x user_agent s)
      ])

  unfoldable pub logout : String → Call Accounts AuthError (Unit {0})
  unfolding session_by_refresh_hash revoke_session
  logout raw s =
      if str_eq raw "" then (ok tt, s) else (elim (session_by_refresh_hash (d.sha256 raw) s).0 [
        | err e ↦ (ok tt, s)
        | ok x ↦ revoke_session x.id none s
      ])

  unfoldable pub update_current_user : ℕ → Option String → Call Accounts AuthError User
  unfolding user_by_id update_user
  update_current_user id none = user_by_id id
  update_current_user id (some display_name) = do
    let name = d.trim_space display_name
    raise_if (str_eq name "") no_display_name
    update_user id name
