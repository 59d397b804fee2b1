-- ===== src/Access.antt =====
-- app.py: logins, sessions, controller tokens, roles, tag scopes and the login throttle.
pub mod Scope
pub mod Identity
pub mod Gate
pub mod GateLaws
pub mod Throttle
pub mod Users
pub mod Tokens
pub mod Changes
pub mod Lockout
pub mod Untouched
pub mod Presets
pub mod Revocation
use nexus_controller.Prelude.{
  ℕ, String, Bool, true, false, Option, some, List, nat_eq, string_eq, pair_eq,
}
use nexus_controller.Prelude.Dict.{Dict}

pub data Role : Type 0 where
  admin operator viewer : Role

abbrev pub same_role : Role → Role → Bool
same_role admin admin = true
same_role operator operator = true
same_role viewer viewer = true
same_role _ _ = false

-- A login of the auth file. A record without a readable role, tag list or generation reads as a
-- viewer, as no tags and as generation 0; `scope_preset` is "" where there is none.
pub record User : Type 0 where
  pub password : String
  pub role : Role
  pub must_change : Bool
  pub tags : List String
  pub scope_preset : String
  pub session_gen : ℕ

-- A controller token, filed under its hash.
pub record Token : Type 0 where
  pub id : String
  pub user : String
  pub name : String

pub record Config : Type 0 where
  pub users : Dict String User
  pub presets : Dict String (List String)
  pub tokens : Dict String Token

-- The signed cookie: the user, "" if there is none, and the generation, `none` if it is no number.
pub record Session : Type 0 where
  pub user : String
  pub gen : Option ℕ

abbrev pub no_session : Session
no_session = record { user = ""; gen = some 0 }

-- What a route answers: its value, or an error with its status.
pub data Reply {ℓ} (A : Type ℓ) : Type ℓ where
  done : A → Reply A
  refuse : ℕ → String → Reply A

-- The interpreter's and the framework's functions that the routes call: `str.lower`, the host part
-- of `urlsplit`, SHA-256 in hex, and werkzeug's password hashes.
pub record Web : Type 0 where
  pub lower : String → String
  pub netloc : String → String
  pub sha256 : String → String
  pub generate_hash : String → String
  pub check_hash : String → String → Bool
