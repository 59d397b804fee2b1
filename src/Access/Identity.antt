-- ===== src/Access/Identity.antt =====
-- app.py: who a request is from: `parse_bearer`, `_resolve_token` and `_resolve_identity`.
use nexus_controller.Prelude.{
  ℕ, String, Bool, false, not, ◌&&◌, ◌||◌, Option, none, some, leb, nat_beq, if◌then◌else◌, ◌==◌,
  nat_eq, string_eq, pair_eq,
}
use Prim.Native.Char.{code}
use text.Mathlib.Text.{starts_with}
use nexus_controller.Prelude.Text
use nexus_controller.Prelude.Dict
use nexus_controller.Prelude.Dict.{Dict}
use nexus_controller.Access.{Role, Token, Config, Session, Web}

-- s.split(None, 1) of a text without outer white space: the first word, and the rest from its
-- first character that is not white space on.
unfoldable pub first_word : String → String × String
first_word Prim.Native.String.String.[] = ("", "")
first_word (Prim.Native.String.String.◌∷◌ c s) =
    let (w, rest) = first_word s in
    if Text.is_space (code c)
    then ("", Text.lstrip s)
    else (Prim.Native.String.String.◌∷◌ c w, rest)

unfoldable pub parse_bearer : Web → String → Option String
unfolding first_word
parse_bearer w header =
    let (scheme, rest) = first_word (Text.strip header) in
    let tok = Text.strip rest in
    if Text.is_empty rest || not (w.lower scheme == "bearer")
    then none
    else (if starts_with tok "ct_" && leb 20 (Text.length tok) then some tok else none)

-- No controller token was presented; one that is not valid; or the login of one that is.
pub data Presented : Type 0 where
  nothing : Presented
  invalid : Presented
  valid : String → Role → Presented

abbrev pub login_of : Option Token → Config → Presented
login_of none cfg = invalid
login_of (some rec) cfg = elim (Dict.get rec.user cfg.users) [
  | none ↦ invalid
  | some urec ↦ valid rec.user urec.role
]

-- The `Authorization` header is "" if there is none.
unfoldable pub resolve_token : Web → Config → String → Presented
resolve_token w cfg header = elim (parse_bearer w header) [
  | none ↦ nothing
  | some tok ↦ login_of (Dict.get (w.sha256 tok) cfg.tokens) cfg
]

abbrev pub is_gen : ℕ → Option ℕ → Bool
is_gen n none = false
is_gen n (some g) = nat_beq g n

unfoldable pub resolve_session : Config → Session → Option (String × Role)
resolve_session cfg session =
    if Text.is_empty session.user then none else elim (Dict.get session.user cfg.users) [
      | none ↦ none
      | some rec ↦
          if is_gen rec.session_gen session.gen then some (session.user, rec.role) else none
    ]

-- A token that is presented decides alone: an invalid one never falls back to the session.
unfoldable pub resolve_identity : Web → Config → String → Session → Option (String × Role)
resolve_identity w cfg header session = elim (resolve_token w cfg header) [
  | nothing ↦ resolve_session cfg session
  | invalid ↦ none
  | valid user role ↦ some (user, role)
]
