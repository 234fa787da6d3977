-- ===== src/Auth/Tests.antt =====
-- The theorems on sessions and on recovery, at an account with one session and one reset link.
use Prim.Native.String.{String}
use find_language_tutor.Prelude.{
  ◌+◌, ◌*◌, ◌≡◌, refl, ◌==◌, none, some, [], ◌∷◌, if◌then◌else◌, arith,
}
use find_language_tutor.Clock.{hour}
use find_language_tutor.Effect.{ok, err}
use find_language_tutor.Auth.{
  normalize_email, User, Session, AuthToken, password_reset, Accounts, invalid_refresh_token,
  invalid_token, Deps,
}
use find_language_tutor.Auth.Service.{AuthResult, refresh, reset_password, login}
use find_language_tutor.Auth.Sessions.{SignedOut, refresh_once}
use find_language_tutor.Auth.Recovery.{reset_password_replaces}

-- Small stand-ins for the libraries: a digest that marks the text, and two random tokens.
abbrev deps : Deps
deps = record {
  access_ttl = hour;
  refresh_ttl = 24 * hour;
  permissions = none;
  argon2 = λ password salt t m p. password;
  sha256 = λ s. String.◌∷◌ "#" s;
  sign = λ c. c.email;
  random_token = λ n. if n == 0 then "r0" else "r1";
  random_salt = λ n. "salt";
  trim_space = λ s. s;
  to_lower = λ s. s;
  parse_address = λ s. some s;
}

abbrev ann : User
ann = record {
  id = 1;
  email = "ann@x.uz";
  display_name = "Ann";
  email_verified_at = none;
  password_hash = none;
  created_at = 0;
  updated_at = 0;
}

abbrev first_session : Session
first_session = record {
  id = 2;
  user_id = 1;
  refresh_token_hash = "#first";
  expires_at = 500;
  revoked_at = none;
  replaced_by = none;
  user_agent = "web";
  created_at = 0;
}

abbrev link : AuthToken
link = record {
  user_id = 1;
  purpose = password_reset;
  token_hash = "#link";
  expires_at = 500;
  consumed_at = none;
  created_at = 0;
}

abbrev accounts : Accounts
accounts = record {
  now = 100;
  next_id = 10;
  draws = 0;
  users = ann ∷ [];
  sessions = first_session ∷ [];
  tokens = link ∷ [];
  mails = [];
}

abbrev answer : AuthResult
answer = record {
  user = ann;
  permissions = [];
  access_token = "ann@x.uz";
  access_ttl = hour;
  refresh_token = "r0";
  refresh_expires = 100 + 24 * hour;
}

abbrev refreshed : Accounts
refreshed = (refresh deps "first" "web" accounts).1

-- The new session is there, and the old one names it.
refresh_rows :
    refreshed.sessions
    ≡ record first_session { revoked_at = some 100; replaced_by = some 10 }
      ∷ record first_session {
        id = 10;
        refresh_token_hash = "#r0";
        expires_at = 100 + 24 * hour;
        created_at = 100;
      }
      ∷ []
unfolding refresh
refresh_rows = refl

refresh_once_example :
    ((refresh deps "first" "other" refreshed).0 ≡ err invalid_refresh_token)
    × SignedOut 1 (refresh deps "first" "other" refreshed).1
unfolding refresh
refresh_once_example = refresh_once deps "first" "web" "other" accounts refreshed answer refl

abbrev reset : Accounts
reset = (reset_password deps "link" "new-secret" accounts).1

reset_password_replaces_example :
    ((reset_password deps "link" "new-secret" accounts).0 ≡ ok tt)
    × SignedOut 1 reset
    × (reset_password deps "link" "other-secret" reset ≡ (err invalid_token, reset))
    × ((r : AuthResult) × ((login deps "ann@x.uz" "new-secret" "web" reset).0 ≡ ok r)
        × (r.user.id ≡ 1))
unfolding reset_password normalize_email
reset_password_replaces_example =
    reset_password_replaces deps "link" "new-secret" "other-secret" "ann@x.uz" "web" accounts link
      ann (omega arith) (omega arith) refl refl refl
