-- ===== src/Access/Gate.antt =====
-- app.py: the guard in front of every route: `cross_site_request` and `require_login`.
use nexus_controller.Prelude.{
  ℕ, String, Bool, true, false, not, ◌&&◌, Option, none, some, List, [], ◌∷◌, map, if◌then◌else◌,
  ◌==◌, nat_eq, string_eq, pair_eq, select, contains,
}
use nexus_controller.Prelude.Text
use nexus_controller.Prelude.Dict
use nexus_controller.Prelude.Dict.{Dict}
use nexus_controller.Access.{Role, viewer, User, Config, Session, Web}
use nexus_controller.Access.Scope.{user_scope, is_admin}
use nexus_controller.Access.Identity.{resolve_identity}

abbrev pub write_methods : List String
write_methods = "POST" ∷ "PUT" ∷ "DELETE" ∷ "PATCH" ∷ []

abbrev pub public_endpoints : List String
public_endpoints = "api_login" ∷ "api_me" ∷ "index" ∷ "static" ∷ "api_status" ∷ "sso_callback" ∷ []

abbrev pub rbac_exempt : List String
rbac_exempt = "api_logout" ∷ "change_password" ∷ "tokens_create" ∷ "tokens_delete" ∷ []

abbrev pub admin_only : List String
admin_only =
    "sso_status" ∷ "sso_enroll" ∷ "sso_disable" ∷ "nodes_add" ∷ "node_delete" ∷ "node_update"
    ∷ "node_cert" ∷ "node_repin" ∷ "checks_add" ∷ "checks_update" ∷ "checks_delete" ∷ "tuning_save"
    ∷ "tls_regenerate" ∷ "tls_upload_cert" ∷ "backup_download" ∷ "notifications_save"
    ∷ "notifications_test" ∷ "notifications_events" ∷ "users_list" ∷ "users_add" ∷ "users_update"
    ∷ "users_delete" ∷ "audit_list" ∷ "scope_presets_list" ∷ "scope_presets_save"
    ∷ "scope_presets_delete" ∷ []

-- What the guard reads of a request; `own_hosts` is what `_own_hosts` returns for it.
pub record Request : Type 0 where
  pub method : String
  pub endpoint : String
  pub authorization : String
  pub own_hosts : List String
  pub origin : Option String
  pub fetch_site : Option String
  pub session : Session

abbrev pub is_write : Request → Bool
is_write r = contains write_methods r.method

unfoldable pub own_names : Web → List String → List String
own_names w hosts = map (λ h. w.lower (Text.strip h)) (select (λ h. not (Text.is_empty h)) hosts)

unfoldable pub cross_site_request : Web → Request → Bool
unfolding own_names
cross_site_request w r =
    if not (is_write r) && not (r.endpoint == "node_ws") then false else elim r.origin [
      | some origin ↦
          let o = w.lower (Text.strip origin) in
          if o == "null" then true else not (contains (own_names w r.own_hosts) (w.netloc o))
      | none ↦ elim r.fetch_site [
        | some site ↦ not (contains ("same-origin" ∷ "none" ∷ []) (w.lower (Text.strip site)))
        | none ↦ false
      ]
    ]

-- What the guard decides: an error with its status, a public endpoint that it lets pass without an
-- identity, or a login with its role and scope.
pub data Verdict : Type 0 where
  refused : ℕ → String → Verdict
  open_to_all : Verdict
  admitted : String → Role → Option (List String) → Verdict

abbrev pub is_viewer : Role → Bool
is_viewer viewer = true
is_viewer _ = false

-- `user_scope(_users().get(name), …)`: a login that is not there has no record, and no scope.
abbrev pub scope_of : Option User → Role → Dict String (List String) → Option (List String)
scope_of none role presets = none
scope_of (some rec) role presets = user_scope rec role presets

unfoldable pub authorize : Config → Request → String → Role → Verdict
authorize cfg r name role =
    if Text.is_empty name
    then refused 401 "Authentication required"
    else (if contains admin_only r.endpoint && not (is_admin role)
        then refused 403 "Admin role required"
        else (if is_write r && not (contains rbac_exempt r.endpoint) && is_viewer role
            then refused 403 "Read-only account: action not permitted"
            else (if r.endpoint == "node_ws" && is_viewer role
                then refused 403 "Read-only account: console access not permitted"
                else admitted name role (scope_of (Dict.get name cfg.users) role cfg.presets))))

unfoldable pub require_login : Web → Config → Request → Verdict
require_login w cfg r =
    if cross_site_request w r
    then refused 403 "Cross-site request refused"
    else (if contains public_endpoints r.endpoint
        then open_to_all
        else elim (resolve_identity w cfg r.authorization r.session) [
          | none ↦ refused 401 "Authentication required"
          | some (name, role) ↦ authorize cfg r name role
        ])
