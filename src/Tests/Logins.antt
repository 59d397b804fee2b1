-- ===== src/Tests/Logins.antt =====
-- Logins, the guard and tokens at concrete inputs.
use nexus_controller.Prelude.{
  String, ◌≡◌, refl, true, false, not, ◌&&◌, none, some, List, [], ◌∷◌, arith, if◌then◌else◌, ◌==◌,
  nat_eq, string_eq, pair_eq, select, any, contains,
}
use nexus_controller.Prelude.Text
use nexus_controller.Prelude.Dict
use nexus_controller.Prelude.Dict.{Dict}
use nexus_controller.Access.{
  Role, admin, operator, viewer, User, Token, Config, Session, Web, Reply, done, refuse,
}
use nexus_controller.Access.Scope.{is_admin}
use nexus_controller.Access.Identity.{resolve_session, resolve_identity}
use nexus_controller.Access.Gate.{
  public_endpoints, rbac_exempt, admin_only, Request, is_write, cross_site_request, admitted,
  is_viewer, scope_of, require_login,
}
use nexus_controller.Access.GateLaws.{require_login-admitted}
use nexus_controller.Access.Users.{Update, change_password, users_delete}
use nexus_controller.Access.Changes.{Change, delete_user, enact_all}
use nexus_controller.Access.Lockout.{is_admin_login, enact_all-admin}
use nexus_controller.Access.Untouched.{touches}
use nexus_controller.Access.Presets.{HasPresets, enact_all-HasPresets}
use nexus_controller.Access.Tokens.{find_token, tokens_delete}
use nexus_controller.Access.Revocation.{
  users_delete-resolve_identity, change_password-resolve_session,
}

abbrev pub web : Web
web = record {
  lower = λ s. s;
  netloc = λ s. s;
  sha256 = λ s. s;
  generate_hash = λ s. s;
  check_hash = λ h p. h == p;
}

abbrev ann : User
ann = record {
  password = "correct horse";
  role = admin;
  must_change = false;
  tags = [];
  scope_preset = "";
  session_gen = 3;
}

abbrev bob : User
bob = record ann { role = viewer; session_gen = 0 }

abbrev pub office : Config
office = record { users = ("ann", ann) ∷ ("bob", bob) ∷ []; presets = []; tokens = [] }

abbrev ann_session : Session
ann_session = record { user = "ann"; gen = some 3 }

abbrev bob_session : Session
bob_session = record { user = "bob"; gen = some 0 }

abbrev list_users : Request
list_users = record {
  method = "GET";
  endpoint = "users_list";
  authorization = "";
  own_hosts = "ctl" ∷ [];
  origin = none;
  fetch_site = none;
  session = ann_session;
}

ann_passes : require_login web office list_users ≡ admitted "ann" admin none
unfolding require_login cross_site_request contains resolve_identity
    nexus_controller.Access.Identity.resolve_token nexus_controller.Access.Identity.parse_bearer
    Text.strip resolve_session Dict.get nexus_controller.Access.Gate.authorize
    nexus_controller.Access.Scope.user_scope
ann_passes = refl

require_login-admitted_example :
    (cross_site_request web list_users ≡ false)
    × (contains public_endpoints "users_list" ≡ false)
    × (resolve_identity web office "" ann_session ≡ some ("ann", admin))
    × (contains admin_only "users_list" && not (is_admin admin) ≡ false)
    × (is_write list_users && not (contains rbac_exempt "users_list") && is_viewer admin ≡ false)
    × (list_users.endpoint == "node_ws" && is_viewer admin ≡ false)
    × (none ≡ scope_of (Dict.get "ann" office.users) admin [])
require_login-admitted_example =
    require_login-admitted web office list_users "ann" admin none ann_passes

abbrev purge : List Change
purge = delete_user "ann" ∷ delete_user "bob" ∷ []

ann_leads : is_admin_login "ann" office ≡ true
unfolding Dict.get
ann_leads = refl

enact_all-admin_example : is_admin_login "ann" (enact_all web "ann" purge office) ≡ true
enact_all-admin_example = enact_all-admin web "ann" purge office ann_leads

abbrev without_bob : Config
without_bob = record office { users = ("ann", ann) ∷ [] }

bob_deleted : users_delete office "ann" "bob" ≡ done without_bob
unfolding users_delete Dict.get Dict.delete select
bob_deleted = refl

ann_resolves : resolve_identity web without_bob "" ann_session ≡ some ("ann", admin)
unfolding resolve_identity nexus_controller.Access.Identity.resolve_token
    nexus_controller.Access.Identity.parse_bearer Text.strip resolve_session Dict.get
ann_resolves = refl

users_delete-resolve_identity_example : (ann_session.user == "bob") ≡ false
users_delete-resolve_identity_example =
    users_delete-resolve_identity web office without_bob "ann" "bob" "" ann_session "ann" admin
      bob_deleted ann_resolves

abbrev new_office : Config
new_office = record office {
  users = ("ann", record ann { password = "battery staple"; session_gen = 4 }) ∷ ("bob", bob) ∷ [];
}

ann_changed :
    change_password web office "ann" "correct horse" "battery staple" ≡ done (new_office, 4)
unfolding change_password Dict.get Dict.set nexus_controller.Access.Users.new_password
ann_changed = refl

ann_was_in : resolve_session office ann_session ≡ some ("ann", admin)
unfolding resolve_session Dict.get
ann_was_in = refl

change_password-resolve_session_example :
    (resolve_session new_office ann_session ≡ none)
    × (resolve_session new_office (record { user = "ann"; gen = some 4 }) ≡ some ("ann", admin))
change_password-resolve_session_example =
    change_password-resolve_session web office new_office "ann" "correct horse" "battery staple" 4
      ann_session admin ann_changed ann_was_in

office-HasPresets : HasPresets office
unfolding Dict.get
office-HasPresets u = ground arith

enact_all-HasPresets_example :
    HasPresets (enact_all web "ann" purge office)
    × ((u : String)
        → Dict.get u (enact_all web "ann" purge office).users ≡ (
            if any (touches u) purge
            then Dict.get u (enact_all web "ann" purge office).users
            else Dict.get u office.users))
enact_all-HasPresets_example = enact_all-HasPresets web "ann" purge office office-HasPresets

abbrev script : Token
script = record { id = "a1"; user = "bob"; name = "cron" }

abbrev with_token : Config
with_token = record office { tokens = ("hash", script) ∷ [] }

script_gone : tokens_delete with_token "bob" viewer "a1" ≡ done office
unfolding tokens_delete find_token Dict.delete
script_gone = refl
