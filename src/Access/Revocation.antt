-- ===== src/Access/Revocation.antt =====
-- app.py: the credentials of a login after its deletion or a new password.
use nexus_controller.Prelude.{
  ℕ, ◌+◌, String, ◌≡◌, refl, sym, ap, ◌∙◌, ◌⊎◌, inl, inr, true, false, Option, none, some, arith,
  eq_iff, if◌then◌else◌, nat_beq_iff, Bool-cases, Option-cases, ◌==◌, beq_refl, nat_eq, string_eq,
  pair_eq,
}
use nexus_controller.Prelude.Text
use nexus_controller.Prelude.Dict
use nexus_controller.Prelude.Dict.{Dict, at}
use nexus_controller.Access.{Role, User, Token, Config, Session, Web, done}
use nexus_controller.Access.Identity.{
  parse_bearer, Presented, nothing, invalid, valid, login_of, resolve_token, is_gen,
  resolve_session, resolve_identity,
}
use nexus_controller.Access.Users.{
  save_users, bump_session_gen, new_password, change_password, users_delete,
}

session_user-has :
    (cfg : Config) (session : Session) (name : String) (role : Role)
    → resolve_session cfg session ≡ some (name, role)
    → Dict.has name cfg.users ≡ true
unfolding resolve_session
session_user-has cfg session name role h = ground (arith, Dict.has-get session.user cfg.users)

login_of-has :
    (cfg : Config) (t : Option Token) (name : String) (role : Role)
    → login_of t cfg ≡ valid name role
    → Dict.has name cfg.users ≡ true
login_of-has cfg none name role h = ground arith
login_of-has cfg (some rec) name role h = ground (arith, Dict.has-get rec.user cfg.users)

resolve_token-some :
    (w : Web) (cfg : Config) (header tok : String)
    → parse_bearer w header ≡ some tok
    → resolve_token w cfg header ≡ login_of (Dict.get (w.sha256 tok) cfg.tokens) cfg
unfolding resolve_token
resolve_token-some w cfg header tok is = rw (resolve_token, is) refl

token_user-has :
    (w : Web) (cfg : Config) (header name : String) (role : Role)
    → resolve_token w cfg header ≡ valid name role
    → Dict.has name cfg.users ≡ true
unfolding resolve_token
token_user-has w cfg header name role h = elim (Option-cases (parse_bearer w header)) [
  | inl bare ↦ ground arith
  | inr (tok, is) ↦
      login_of-has cfg (Dict.get (w.sha256 tok) cfg.tokens) name role
        (sym (resolve_token-some w cfg header tok is) ∙ h)
]

Presented-cases :
    (p : Presented) → (p ≡ nothing) ⊎ ((p ≡ invalid) ⊎ ((x : String × Role) × (p ≡ valid x.0 x.1)))
Presented-cases nothing = inl refl
Presented-cases invalid = inr (inl refl)
Presented-cases (valid u r) = inr (inr ((u, r), refl))

identity-has :
    (w : Web) (cfg : Config) (header : String) (session : Session) (name : String) (role : Role)
    → resolve_identity w cfg header session ≡ some (name, role)
    → Dict.has name cfg.users ≡ true
unfolding resolve_identity
identity-has w cfg header session name role h =
    elim (Presented-cases (resolve_token w cfg header)) [
      | inl bare ↦ session_user-has cfg session name role (ground arith)
      | inr (inl junk) ↦ ground arith
      | inr (inr ((u, r), is)) ↦ token_user-has w cfg header name role (ground arith)
    ]

users_delete-has :
    (cfg after : Config) (me user : String)
    → users_delete cfg me user ≡ done after
    → Dict.has user after.users ≡ false
unfolding users_delete
users_delete-has cfg after me user h =
    ground (arith, Dict.has-delete user user cfg.users, beq_refl user)

-- Once a login has been deleted, no request resolves to it: neither a session nor a token of it.
pub users_delete-resolve_identity :
    (w : Web) (cfg after : Config) (me user header : String) (session : Session) (name : String)
    (role : Role)
    → users_delete cfg me user ≡ done after
    → resolve_identity w after header session ≡ some (name, role)
    → (name == user) ≡ false
users_delete-resolve_identity w cfg after me user header session name role deleted is =
    elim (Bool-cases (name == user)) [
      | inl same ↦ ground (
        arith,
        users_delete-has cfg after me user deleted,
        identity-has w after header session name role is,
        ap (λ u. Dict.has u after.users) ((eq_iff name user).0 same),
      )
      | inr other ↦ other
    ]

change_password-done :
    (w : Web) (cfg after : Config) (user old new : String) (gen : ℕ) (rec : User)
    → change_password w cfg user old new ≡ done (after, gen)
    → Dict.get user cfg.users ≡ some rec
    → (after ≡ save_users cfg (Dict.set user (new_password w new rec) cfg.users))
      × (gen ≡ (new_password w new rec).session_gen)
      × (Text.is_empty user ≡ false)
unfolding change_password
change_password-done w cfg after user old new gen rec h is =
    (ground arith, ground arith, ground arith)

resolve_session-was :
    (cfg : Config) (session : Session) (user : String) (role : Role)
    → resolve_session cfg session ≡ some (user, role)
    → (rec : User) × (session.user ≡ user)
      × (Dict.get user cfg.users ≡ some rec)
      × (rec.role ≡ role)
      × (is_gen rec.session_gen session.gen ≡ true)
unfolding resolve_session
resolve_session-was cfg session user role h =
    elim (Option-cases (Dict.get session.user cfg.users)) [
      | inl nobody ↦ ground arith
      | inr (rec, is) ↦
          let same : session.user ≡ user = ground arith in
          (rec, same, ap (λ u. Dict.get u cfg.users) (sym same) ∙ is, ground arith, ground arith)
    ]

resolve_session-set :
    (cfg : Config) (user : String) (r : User) (session : Session)
    → session.user ≡ user
    → Text.is_empty user ≡ false
    → resolve_session (save_users cfg (Dict.set user r cfg.users)) session
      ≡ (if is_gen r.session_gen session.gen then some (user, r.role) else none)
unfolding resolve_session
resolve_session-set cfg user r session same named =
    ground (arith, Dict.get-set user session.user r cfg.users, eq_iff user session.user)

is_gen-next : (n : ℕ) (g : Option ℕ) → is_gen n g ≡ true → is_gen (n + 1) g ≡ false
is_gen-next n none h = ground arith
is_gen-next n (some m) h = ground (arith, nat_beq_iff m n, nat_beq_iff m (n + 1))

new_password-gen :
    (w : Web) (new : String) (rec : User)
    → (new_password w new rec).session_gen ≡ rec.session_gen + 1
unfolding new_password bump_session_gen
new_password-gen w new rec = refl

new_password-role : (w : Web) (new : String) (rec : User) → (new_password w new rec).role ≡ rec.role
unfolding new_password bump_session_gen
new_password-role w new rec = refl

-- A login that changes its own password ends its other sessions: of the sessions that resolved to
-- it before none does afterwards, and the one that is stamped with the new generation does.
pub change_password-resolve_session :
    (w : Web) (cfg after : Config) (user old new : String) (gen : ℕ) (session : Session)
    (role : Role)
    → change_password w cfg user old new ≡ done (after, gen)
    → resolve_session cfg session ≡ some (user, role)
    → (resolve_session after session ≡ none)
      × (resolve_session after (record { user = user; gen = some gen }) ≡ some (user, role))
change_password-resolve_session w cfg after user old new gen session role changed was =
    let (rec, same, is, ranks, gens) = resolve_session-was cfg session user role was in
    let (saves, stamped, named) =
      change_password-done w cfg after user old new gen rec changed is in
    let fresh = new_password w new rec in
    (
      ap (λ c. resolve_session c session) saves
          ∙ (resolve_session-set cfg user fresh session same named
              ∙ ground (
                arith,
                new_password-gen w new rec,
                is_gen-next rec.session_gen session.gen gens,
              )),
      ap (λ c. resolve_session c (record { user = user; gen = some gen })) saves
          ∙ (resolve_session-set cfg user fresh (record { user = user; gen = some gen }) refl named
              ∙ ground (arith, new_password-role w new rec, nat_beq_iff gen fresh.session_gen)),
    )
