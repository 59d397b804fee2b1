-- ===== src/Access/GateLaws.antt =====
-- What the guard lets pass.
use nexus_controller.Prelude.{
  ℕ, String, ◌≡◌, refl, sym, ap, ◌∙◌, subst, inl, inr, Bool, false, not, ◌&&◌, Option, none, some,
  List, arith, if◌then◌else◌, Bool-cases, ◌==◌, nat_eq, string_eq, pair_eq, contains,
}
use nexus_controller.Prelude.Text
use nexus_controller.Prelude.Dict
use nexus_controller.Prelude.Dict.{Dict}
use nexus_controller.Access.{Role, Config, Web}
use nexus_controller.Access.Scope.{is_admin}
use nexus_controller.Access.Identity.{resolve_identity}
use nexus_controller.Access.Gate.{
  public_endpoints, rbac_exempt, admin_only, Request, is_write, cross_site_request, Verdict,
  refused, admitted, is_viewer, scope_of, authorize, require_login,
}

four_guards :
    (a b c d : Bool) (n1 n2 n3 n4 : ℕ) (t1 t2 t3 t4 : String) (v : Verdict) (name : String)
    (role : Role) (scope : Option (List String))
    → (if a
        then refused n1 t1
        else (if b
            then refused n2 t2
            else (if c then refused n3 t3 else (if d then refused n4 t4 else v))))
      ≡ admitted name role scope
    → (b ≡ false) × (c ≡ false) × (d ≡ false) × (v ≡ admitted name role scope)
four_guards a b c d n1 n2 n3 n4 t1 t2 t3 t4 v name role scope h = ground arith

authorize-admitted :
    (cfg : Config) (r : Request) (n name : String) (ro role : Role) (scope : Option (List String))
    → authorize cfg r n ro ≡ admitted name role scope
    → (contains admin_only r.endpoint && not (is_admin ro) ≡ false)
      × (is_write r && not (contains rbac_exempt r.endpoint) && is_viewer ro ≡ false)
      × (r.endpoint == "node_ws" && is_viewer ro ≡ false)
      × (admitted n ro (scope_of (Dict.get n cfg.users) ro cfg.presets) ≡ admitted name role scope)
unfolding authorize
authorize-admitted cfg r n name ro role scope h =
    four_guards (Text.is_empty n) (contains admin_only r.endpoint && not (is_admin ro))
      (is_write r && not (contains rbac_exempt r.endpoint) && is_viewer ro)
      (r.endpoint == "node_ws" && is_viewer ro) 401 403 403 403 "Authentication required"
      "Admin role required" "Read-only account: action not permitted"
      "Read-only account: console access not permitted"
      (admitted n ro (scope_of (Dict.get n cfg.users) ro cfg.presets)) name role scope h

-- The guard past its first two tests: what it makes of the identity.
by_identity : (cfg : Config) (r : Request) → Option (String × Role) → Verdict
by_identity cfg r none = refused 401 "Authentication required"
by_identity cfg r (some (name, role)) = authorize cfg r name role

admitted-injective :
    (n m : String) (role ro : Role) (s t : Option (List String))
    → admitted n role s ≡ admitted m ro t
    → (n ≡ m) × (role ≡ ro) × (s ≡ t)
admitted-injective n m role ro s t e = (cc, cc, cc)

identity-admitted :
    (cfg : Config) (r : Request) (who : Option (String × Role)) (name : String) (role : Role)
    (scope : Option (List String))
    → by_identity cfg r who ≡ admitted name role scope
    → (who ≡ some (name, role))
      × (contains admin_only r.endpoint && not (is_admin role) ≡ false)
      × (is_write r && not (contains rbac_exempt r.endpoint) && is_viewer role ≡ false)
      × (r.endpoint == "node_ws" && is_viewer role ≡ false)
      × (scope ≡ scope_of (Dict.get name cfg.users) role cfg.presets)
unfolding by_identity
identity-admitted cfg r none name role scope h = ground arith
identity-admitted cfg r (some (n, ro)) name role scope h =
    let (a, b, c, e) = authorize-admitted cfg r n name ro role scope h in
    let (names, ranks, scopes) =
      admitted-injective n name ro role (scope_of (Dict.get n cfg.users) ro cfg.presets) scope e in
    (
      ap some (cc),
      subst (λ x. contains admin_only r.endpoint && not (is_admin x) ≡ false) ranks a,
      subst (λ x. is_write r && not (contains rbac_exempt r.endpoint) && is_viewer x ≡ false) ranks
          b,
      subst (λ x. r.endpoint == "node_ws" && is_viewer x ≡ false) ranks c,
      sym scopes
          ∙ (ap (λ x. scope_of (Dict.get x cfg.users) ro cfg.presets) names
              ∙ ap (λ x. scope_of (Dict.get name cfg.users) x cfg.presets) ranks),
    )

require_login-past :
    (w : Web) (cfg : Config) (r : Request)
    → cross_site_request w r ≡ false
    → contains public_endpoints r.endpoint ≡ false
    → require_login w cfg r ≡ by_identity cfg r (resolve_identity w cfg r.authorization r.session)
unfolding require_login by_identity
require_login-past w cfg r own guarded = rw own (rw guarded refl)

-- A login that the guard admits: the request is not cross-site, its endpoint is not one of the
-- public ones, the identity is the one that its token or session resolves to; the role passes the
-- tests of admin-only routes, of writes and of the console; and the scope is that of the login's
-- own record.
pub require_login-admitted :
    (w : Web) (cfg : Config) (r : Request) (name : String) (role : Role)
    (scope : Option (List String))
    → require_login w cfg r ≡ admitted name role scope
    → (cross_site_request w r ≡ false)
      × (contains public_endpoints r.endpoint ≡ false)
      × (resolve_identity w cfg r.authorization r.session ≡ some (name, role))
      × (contains admin_only r.endpoint && not (is_admin role) ≡ false)
      × (is_write r && not (contains rbac_exempt r.endpoint) && is_viewer role ≡ false)
      × (r.endpoint == "node_ws" && is_viewer role ≡ false)
      × (scope ≡ scope_of (Dict.get name cfg.users) role cfg.presets)
unfolding require_login
require_login-admitted w cfg r name role scope h = elim (Bool-cases (cross_site_request w r)) [
  | inl cross ↦ ground (arith)
  | inr own ↦ elim (Bool-cases (contains public_endpoints r.endpoint)) [
    | inl public ↦ ground (arith)
    | inr guarded ↦
        let (who, a, b, c, d) =
          identity-admitted cfg r (resolve_identity w cfg r.authorization r.session) name role scope
            (sym (require_login-past w cfg r own guarded) ∙ h) in
        (own, guarded, who, a, b, c, d)
  ]
]
