-- ===== src/Settings/Webhooks.antt =====
-- app.py: `notify_config`, `_public_notify_config` and `notifications_save`.
use nexus_controller.Prelude.{
  ℕ, String, ◌≡◌, refl, ap, ◌∙◌, Bool, true, false, not, ◌||◌, Option, none, some, List, [], ◌∷◌,
  map, arith, if◌then◌else◌, ◌==◌, beq_refl, nat_eq, string_eq, pair_eq, length, any, any-map,
}
use nexus_controller.Prelude.Text
use nexus_controller.Prelude.Dict
use nexus_controller.Prelude.Dict.{Dict, get-set}
use text.Mathlib.Text.{starts_with}
use nexus_controller.Envelope.{Severity, critical, warning, info}
use nexus_controller.Access.Scope.{clean_scope_tags}
use nexus_controller.Monitoring.Hooks.{Hook, Payload, dispatch, posts_for}
use nexus_controller.Monitoring.Snapshot.{Event}

-- SEVERITY
abbrev pub severity_of : String → Option Severity
severity_of s =
    if s == "critical"
    then some critical
    else (if s == "warning" then some warning else (if s == "info" then some info else none))

abbrev pub severity_name : Severity → String
severity_name critical = "critical"
severity_name warning = "warning"
severity_name info = "info"

-- A webhook as the settings page posts it: the text of each field, empty where it is missing or null.
-- `min_severity` is `none` where the payload has no such field.
pub record Posted : Type 0 where
  pub id : String
  pub name : String
  pub url : String
  pub format : String
  pub min_severity : Option String
  pub tags : List String

-- A webhook as the settings hold it.
pub record Webhook : Type 0 where
  pub id : String
  pub name : String
  pub url : String
  pub format : String
  pub min_severity : Severity
  pub tags : List String

pub record NotifyConfig : Type 0 where
  pub enabled : Bool
  pub webhooks : List Webhook

-- {h['id']: h for h in webhooks}: the last one of an id stays.
unfoldable pub by_id : Dict String Webhook → List Webhook → Dict String Webhook
by_id d [] = d
by_id d (h ∷ hs) = by_id (Dict.set h.id h d) hs

abbrev pub or_text : String → String → String
or_text s other = if Text.is_empty s then other else s

abbrev pub or_warning : Option String → Severity
or_warning none = warning
or_warning (some s) = elim (severity_of s) [ none ↦ warning | some sev ↦ sev ]

-- The URL of a posted webhook: a blank one stands for the stored one of the same id.
unfoldable pub posted_url : Dict String Webhook → String → String → String
posted_url existing id url =
    if Text.is_empty url then elim (Dict.get id existing) [ none ↦ url | some h ↦ h.url ] else url

-- `lower` is str.lower.
module _ (lower : String → String) where
  -- url.lower().startswith(('http://', 'https://'))
  unfoldable pub is_http : String → Bool
  is_http url = starts_with (lower url) "http://" || starts_with (lower url) "https://"

  -- The loop. An entry that is no object is `none`; `fresh` gives the identifiers that
  -- secrets.token_hex draws, by the number of entries left.
  unfoldable pub clean_hooks :
      Dict String Webhook → (ℕ → String) → List (Option Posted) → List Webhook
  clean_hooks existing fresh [] = []
  clean_hooks existing fresh (none ∷ hs) = clean_hooks existing fresh hs
  clean_hooks existing fresh (some h ∷ hs) =
      let rest = clean_hooks existing fresh hs in
      let id = or_text (Text.strip h.id) (fresh (length hs)) in
      let url = posted_url existing id (Text.strip h.url) in
      if is_http url
      then record {
        id = id;
        name = or_text (Text.strip h.name) "webhook";
        url = url;
        format = or_text (Text.strip h.format) "gchat";
        min_severity = or_warning h.min_severity;
        tags = clean_scope_tags h.tags;
      }
        ∷ rest
      else rest

  -- POST /api/notifications: the settings after it.
  unfoldable pub notifications_save :
      (ℕ → String) → Bool → List (Option Posted) → NotifyConfig → NotifyConfig
  notifications_save fresh enabled incoming cfg = record {
    enabled = enabled;
    webhooks = clean_hooks (by_id [] cfg.webhooks) fresh incoming;
  }

-- GET /api/notifications, whose `url_display` is left out: the page posts each webhook back as it was
-- shown, with a blank URL unless the administrator types a new one.
unfoldable pub shown : Webhook → Posted
shown h = record {
  id = h.id;
  name = h.name;
  url = "";
  format = h.format;
  min_severity = some (severity_name h.min_severity);
  tags = h.tags;
}

-- What the notifier reads of a webhook.
abbrev pub hook_of : Webhook → Hook
hook_of h = record {
  url = h.url;
  format = h.format;
  min_severity = some h.min_severity;
  tags = h.tags;
}

http_only :
    (lower : String → String) (existing : Dict String Webhook) (fresh : ℕ → String)
    (hs : List (Option Posted))
    → any (λ h. not (is_http lower h.url)) (clean_hooks lower existing fresh hs) ≡ false
unfolding clean_hooks any
http_only lower existing fresh [] = refl
http_only lower existing fresh (none ∷ hs) = http_only lower existing fresh hs
http_only lower existing fresh (some h ∷ hs) = ground (arith, http_only lower existing fresh hs)

posts_for-urls :
    (lower : String → String) (p : String → Bool) (hooks : List Hook) (events : List Event)
    (tags : Dict String (List String))
    → any (λ h. not (p h.url)) hooks ≡ false
    → any (λ r. not (p r.0)) (posts_for lower hooks events tags) ≡ false
unfolding posts_for any
posts_for-urls lower p [] events tags h = refl
posts_for-urls lower p (hook ∷ hooks) events tags h =
    ground (arith, posts_for-urls lower p hooks events tags)

none_sent : (p : String × Payload → Bool) → any p [] ≡ false
unfolding any
none_sent p = refl

-- Whatever an administrator posts as notification settings, every request that the notifier then makes
-- for its events goes to a URL with the scheme http or https.
pub dispatch-http :
    (lower : String → String) (fresh : ℕ → String) (enabled : Bool)
    (incoming : List (Option Posted)) (cfg : NotifyConfig) (events : List Event)
    (tags : Dict String (List String))
    → let saved = notifications_save lower fresh enabled incoming cfg in
      any
        (λ r. not (is_http lower r.0))
        (dispatch lower saved.enabled (map hook_of saved.webhooks) events tags)
      ≡ false
unfolding notifications_save dispatch
dispatch-http lower fresh enabled incoming cfg events tags =
    let hooks = clean_hooks lower (by_id [] cfg.webhooks) fresh incoming in
    let sent = posts_for-urls lower (is_http lower) (map hook_of hooks) events tags (
      any-map (λ h. not (is_http lower h.url)) hook_of hooks
      ∙ http_only lower (by_id [] cfg.webhooks) fresh incoming) in
    ground (arith, sent, none_sent (λ r. not (is_http lower r.0)))

-- A stored webhook that its own form does not change.
pub record IsClean (lower : String → String) (h : Webhook) : Type 0 where
  pub id_stripped : Text.strip h.id ≡ h.id
  pub has_id : Text.is_empty h.id ≡ false
  pub name_stripped : Text.strip h.name ≡ h.name
  pub has_name : Text.is_empty h.name ≡ false
  pub format_stripped : Text.strip h.format ≡ h.format
  pub has_format : Text.is_empty h.format ≡ false
  pub tags_clean : clean_scope_tags h.tags ≡ h.tags
  pub http : is_http lower h.url ≡ true

-- All of a list of webhooks are that, and `existing` finds each by its identifier.
pub data AreClean (lower : String → String) : List Webhook → Type 0 where
  all_of_none : AreClean lower []
  all_of :
      {h : Webhook} {hs : List Webhook}
      → IsClean lower h
      → AreClean lower hs
      → AreClean lower (h ∷ hs)

abbrev ids : List Webhook → Dict String Webhook
ids = map (λ h. (h.id, h))

by_id-other :
    (d : Dict String Webhook) (hs : List Webhook) (id : String)
    → Dict.has id (ids hs) ≡ false
    → Dict.get id (by_id d hs) ≡ Dict.get id d
unfolding by_id Dict.has
by_id-other d [] id h = refl
by_id-other d (k ∷ hs) id h =
    ground (arith, by_id-other (Dict.set k.id k d) hs id, get-set k.id id k d)

found :
    (d : Dict String Webhook) (h : Webhook) (hs : List Webhook)
    → Dict.unique (ids (h ∷ hs)) ≡ true
    → Dict.get h.id (by_id d (h ∷ hs)) ≡ some h
unfolding by_id Dict.unique
found d h hs u =
    ground (arith, by_id-other (Dict.set h.id h d) hs h.id, get-set h.id h.id h d, beq_refl h.id)

or_warning-name : (s : Severity) → or_warning (some (severity_name s)) ≡ s
or_warning-name critical = refl
or_warning-name warning = refl
or_warning-name info = refl

strip-blank : Text.strip "" ≡ ""
unfolding Text.strip
strip-blank = refl

posted_url-blank :
    (existing : Dict String Webhook) (id : String) (h : Webhook)
    → Dict.get id existing ≡ some h
    → posted_url existing id (Text.strip "") ≡ h.url
unfolding posted_url
posted_url-blank existing id h is = rw (strip-blank, is) refl

-- A webhook as it was shown is cleaned to itself.
shown-one :
    (lower : String → String) (existing : Dict String Webhook) (h : Webhook) (fresh : String)
    → IsClean lower h
    → Dict.get h.id existing ≡ some h
    → (or_text (Text.strip h.id) fresh ≡ h.id)
      × (posted_url existing h.id (Text.strip "") ≡ h.url)
      × (or_text (Text.strip h.name) "webhook" ≡ h.name)
      × (or_text (Text.strip h.format) "gchat" ≡ h.format)
shown-one lower existing h fresh c is = (
  ground (arith, c.id_stripped, c.has_id),
  posted_url-blank existing h.id h is,
  ground (arith, c.name_stripped, c.has_name),
  ground (arith, c.format_stripped, c.has_format),
)

shown-back :
    (lower : String → String) (fresh : ℕ → String) (d existing : Dict String Webhook)
    (hs : List Webhook)
    → AreClean lower hs
    → Dict.unique (ids hs) ≡ true
    → existing ≡ by_id d hs
    → clean_hooks lower existing fresh (map (λ h. some (shown h)) hs) ≡ hs
unfolding clean_hooks by_id Dict.unique shown
shown-back lower fresh d existing [] c u e = refl
shown-back lower fresh d existing (h ∷ hs) (all_of c cs) u e =
    let (same_id, same_url, same_name, same_format) =
      shown-one lower existing h (fresh (length (map (λ h. some (shown h)) hs))) c
        (ap (Dict.get h.id) e ∙ found d h hs u) in
    let rest = shown-back lower fresh (Dict.set h.id h d) existing hs cs (ground arith) e in
    rw
      (
        same_id,
        same_url,
        same_name,
        same_format,
        c.http,
        c.tags_clean,
        or_warning-name h.min_severity,
        rest,
      )
      refl

-- Posting the settings back as the page shows them, every URL masked and blank, changes nothing: each
-- webhook keeps its stored URL with the token in it. The stored webhooks have different identifiers and
-- fields that are stripped, not empty and within the limits.
pub notifications_save-shown :
    (lower : String → String) (fresh : ℕ → String) (cfg : NotifyConfig)
    → AreClean lower cfg.webhooks
    → Dict.unique (map (λ h. (h.id, h)) cfg.webhooks) ≡ true
    → notifications_save lower fresh cfg.enabled (map (λ h. some (shown h)) cfg.webhooks) cfg ≡ cfg
unfolding notifications_save
notifications_save-shown lower fresh cfg c u =
    rw (shown-back lower fresh [] (by_id [] cfg.webhooks) cfg.webhooks c u refl) refl
