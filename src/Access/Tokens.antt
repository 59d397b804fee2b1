-- ===== src/Access/Tokens.antt =====
-- app.py: the tokens of a login: `tokens_create` and `tokens_delete`.
use nexus_controller.Prelude.{
  String, ◌≡◌, inl, inr, Bool, true, not, ◌&&◌, ◌||◌, Option, none, some, [], ◌∷◌, arith, ltb, leb,
  if◌then◌else◌, Option-cases, ◌==◌, nat_eq, string_eq, pair_eq,
}
use nexus_controller.Prelude.Text
use nexus_controller.Prelude.Dict
use nexus_controller.Prelude.Dict.{Dict, get-delete}
use nexus_controller.Access.{Role, Token, Config, Web, Reply, done, refuse}
use nexus_controller.Access.Scope.{is_admin}

-- RE_TOKEN_NAME
unfoldable pub is_token_name : String → Bool
is_token_name s =
    leb 1 (Text.length s) && leb (Text.length s) 48 && not (Text.any_code (λ c. ltb c 32) s)

-- A token of an interactive session; `tok` and `id` are what `secrets` has drawn. With a token as
-- the credential, `session_user` is not asked.
unfoldable pub tokens_create :
    Web → Config → (by_token : Bool) → (session_user me name tok id : String) → Reply Config
tokens_create w cfg by_token session_user me name tok id =
    let label = if Text.is_empty (Text.strip name) then "token" else Text.strip name in
    if by_token || Text.is_empty session_user
    then refuse 403 "Only an interactive session can create API tokens"
    else (if not (is_token_name label)
        then refuse 400 "token name must be 1–48 printable characters"
        else done (record cfg {
          tokens = Dict.set (w.sha256 tok) (record { id = id; user = me; name = label }) cfg.tokens;
        }))

-- next((h for h, t in toks.items() if t.get('id') == tid), None), with the token
unfoldable pub find_token : String → Dict String Token → Option (String × Token)
find_token tid [] = none
find_token tid ((h, t) ∷ toks) = if t.id == tid then some (h, t) else find_token tid toks

unfoldable pub tokens_delete : Config → (me : String) → Role → (tid : String) → Reply Config
tokens_delete cfg me role tid = elim (find_token tid cfg.tokens) [
  | none ↦ refuse 404 "token not found"
  | some (h, t) ↦
      if not (t.user == me) && not (is_admin role)
      then refuse 404 "token not found"
      else done (record cfg { tokens = Dict.delete h cfg.tokens })
]

-- A token that is revoked was in the file under some hash, and belonged to the login that asks
-- unless an administrator asks; afterwards nothing is found under that hash, and every other token
-- is found as before.
pub tokens_delete-revokes :
    (cfg after : Config) (me : String) (role : Role) (tid : String)
    → tokens_delete cfg me role tid ≡ done after
    → (found : String × Token) × (find_token tid cfg.tokens ≡ some found)
      × (found.1.user == me || is_admin role ≡ true)
      × ((j : String)
          → Dict.get j after.tokens ≡ (if found.0 == j then none else Dict.get j cfg.tokens))
unfolding tokens_delete
tokens_delete-revokes cfg after me role tid h = elim (Option-cases (find_token tid cfg.tokens)) [
  | inl missing ↦ ground arith
  | inr ((hash, t), is) ↦
      ((hash, t), is, ground arith, λ j. ground (arith, get-delete hash j cfg.tokens))
]
