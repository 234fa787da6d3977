-- ===== src/Auth.antt =====
-- backend/internal/auth: accounts, sessions and the recovery of accounts (auth.go, token.go,
-- password.go), with the tables of its repository.
pub mod Repository
pub mod Service
pub mod Sessions
pub mod Recovery
mod Tests
use Prim.Native.String.{String, len}
use Prim.Native.Char.{code}
use find_language_tutor.Prelude.{
  ℕ, zero, suc, ◌+◌, ◌*◌, Bool, true, false, ◌&&◌, ◌||◌, not, Option, none, some, List, [], ◌∷◌,
  ltb, leb, ◌==◌, if◌then◌else◌,
}
use text.Mathlib.Text.{◌==◌ as str_eq}
use find_language_tutor.Clock.{second, minute, hour}

-- A PHC string by its fields: the cost that was used, the salt and the key. A stored text that is
-- no such string is `none` in a row.
pub record PasswordHash : Type 0 where
  pub memory : ℕ
  pub time : ℕ
  pub parallelism : ℕ
  pub salt : String
  pub key : String

-- `password_hash` is a column of the users table; the code never passes it on with a `User`.
pub record User : Type 0 where
  pub id : ℕ
  pub email : String
  pub display_name : String
  pub email_verified_at : Option ℕ
  pub password_hash : Option PasswordHash
  pub created_at : ℕ
  pub updated_at : ℕ

pub record Session : Type 0 where
  pub id : ℕ
  pub user_id : ℕ
  pub refresh_token_hash : String
  pub expires_at : ℕ
  pub revoked_at : Option ℕ
  pub replaced_by : Option ℕ
  pub user_agent : String
  pub created_at : ℕ

pub data TokenPurpose : Type 0 where
  password_reset email_verification : TokenPurpose

pub record AuthToken : Type 0 where
  pub user_id : ℕ
  pub purpose : TokenPurpose
  pub token_hash : String
  pub expires_at : ℕ
  pub consumed_at : Option ℕ
  pub created_at : ℕ

-- A mail that was handed to the mailer: its kind, the address, the name and the raw token.
pub record Mail : Type 0 where
  pub purpose : TokenPurpose
  pub address : String
  pub name : String
  pub raw_token : String

-- The tables of the module; `draws` counts the random values that were read.
pub record Accounts : Type 0 where
  pub now : ℕ
  pub next_id : ℕ
  pub draws : ℕ
  pub users : List User
  pub sessions : List Session
  pub tokens : List AuthToken
  pub mails : List Mail

pub data AuthError : Type 0 where
  email_taken invalid_credentials invalid_refresh_token user_not_found invalid_token : AuthError
  already_verified bad_email short_password no_display_name : AuthError

-- The payload of an access token: `sub`, `iat` and `exp`, and what rides along.
pub record AccessClaims : Type 0 where
  pub email : String
  pub display_name : String
  pub subject : ℕ
  pub issued_at : ℕ
  pub expires_at : ℕ

-- What the module is given: the configured lifetimes, the permissions port, the libraries that
-- derive keys, digest and sign, the source of random values (by the number of the draw), and
-- functions of Go's standard library on text and addresses.
pub record Deps : Type 0 where
  pub access_ttl : ℕ
  pub refresh_ttl : ℕ
  pub permissions : Option (ℕ → List String)
  pub argon2 : String → String → ℕ → ℕ → ℕ → String
  pub sha256 : String → String
  pub sign : AccessClaims → String
  pub random_token : ℕ → String
  pub random_salt : ℕ → String
  pub trim_space : String → String
  pub to_lower : String → String
  pub parse_address : String → Option String

abbrev pub password_reset_ttl : ℕ
password_reset_ttl = hour

abbrev pub email_verification_ttl : ℕ
email_verification_ttl = 24 * hour

abbrev pub resend_cooldown : ℕ
resend_cooldown = 60 * second

abbrev pub min_password_len : ℕ
min_password_len = 8

abbrev pub argon_memory : ℕ
argon_memory = 64 * 1024

abbrev pub argon_time : ℕ
argon_time = 1

abbrev pub argon_parallelism : ℕ
argon_parallelism = 4

abbrev pub is_some : {A : Type 0} → Option A → Bool
is_some none = false
is_some (some _) = true

-- Session.revoked and Session.expired.
abbrev pub is_revoked : Session → Bool
is_revoked s = is_some s.revoked_at

abbrev pub is_expired : Session → ℕ → Bool
is_expired s now = not (ltb now s.expires_at)

-- HashPassword with the salt that it draws.
unfoldable pub hash_password : Deps → String → String → PasswordHash
hash_password d password salt = record {
  memory = argon_memory;
  time = argon_time;
  parallelism = argon_parallelism;
  salt = salt;
  key = d.argon2 password salt argon_time argon_memory argon_parallelism;
}

-- VerifyPassword: an unreadable hash is no match.
unfoldable pub verify_password : Deps → String → Option PasswordHash → Bool
verify_password d password none = false
verify_password d password (some h) =
    str_eq (d.argon2 password h.salt h.time h.memory h.parallelism) h.key

-- IssueAccess.
unfoldable pub issue_access : Deps → User → ℕ → String
issue_access d u now = d.sign (record {
  email = u.email;
  display_name = u.display_name;
  subject = u.id;
  issued_at = now;
  expires_at = now + d.access_ttl;
})

-- The code points of a text.
abbrev pub codes : String → List ℕ
codes String.[] = []
codes (String.◌∷◌ c s) = code c ∷ codes s

unfoldable pub has_code : ℕ → List ℕ → Bool
has_code c [] = false
has_code c (x ∷ xs) = x == c || has_code c xs

-- What stands after the last `c`: the whole where there is none.
unfoldable pub after_last : ℕ → List ℕ → List ℕ
unfolding has_code
after_last c [] = []
after_last c (x ∷ xs) =
    let rest = after_last c xs in if has_code c xs then rest else (if x == c then xs else x ∷ xs)

-- normalizeEmail and validEmail.
unfoldable pub normalize_email : Deps → String → String
normalize_email d s = d.to_lower (d.trim_space s)

unfoldable pub valid_email : Deps → String → Bool
unfolding has_code after_last
valid_email d s =
    if ltb (len s) 3 || ltb 254 (len s) || not (has_code b'@' (codes s))
    then false
    else (elim (d.parse_address s) [
      | none ↦ false
      | some address ↦ str_eq address s && has_code b'.' (after_last b'@' (codes s))
    ])
