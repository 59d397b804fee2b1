-- ===== src/Monitoring/Hooks.antt =====
-- monitoring.py: the text of a notification, the body for each webhook flavour and the routing by
-- severity and host tag; app.py: `_dispatch`, as the list of the requests that it posts.
use nexus_controller.Prelude.{
  ℕ, String, ◌≡◌, ap, Bool, true, false, not, ◌&&◌, ◌||◌, Option, none, some, List, [], ◌∷◌, map,
  arith, ltb, nat_beq, if◌then◌else◌, ◌==◌, nat_eq, string_eq, pair_eq, length, select, any,
  contains,
}
use nexus_controller.Prelude.Text
use nexus_controller.Prelude.Dict
use nexus_controller.Prelude.Dict.{Dict}
use nexus_controller.Envelope.{Severity, critical, warning, info}
use nexus_controller.Monitoring.Snapshot.{Kind, firing, changed, recovered, Event, severity_rank}

-- A webhook of the notification settings. `min_severity` is `none` where the settings hold no level
-- or one that SEVERITY does not know: both read as a floor of 1.
pub record Hook : Type 0 where
  pub url : String
  pub format : String
  pub min_severity : Option Severity
  pub tags : List String

abbrev pub icon : Kind → Severity → String
icon recovered s = "🟢"
icon _ critical = "🔴"
icon _ warning = "🟠"
icon _ info = "🟡"

unfoldable pub format_event : Event → String
format_event ev = elim ev.kind [
  | firing ↦ Text.concat (icon firing ev.severity ∷ " *" ∷ ev.host ∷ "*: " ∷ ev.detail ∷ [])
  | changed ↦
      Text.concat (icon changed ev.severity ∷ " *" ∷ ev.host ∷ "* changed: " ∷ ev.detail ∷ [])
  | recovered ↦
      Text.concat (icon recovered ev.severity ∷ " *" ∷ ev.host ∷ "* recovered: " ∷ ev.detail ∷ [])
]

unfoldable pub format_digest : List Event → String × String
unfolding format_event
format_digest events = ("Nexus Controller", Text.join "\n" (map format_event events))

-- The keyword arguments for `requests.post`.
pub data Payload : Type 0 where
  json : Dict String String → Payload
  text_body : String → Dict String String → Payload

-- `full[:1900]`
abbrev pub discord_max : ℕ
discord_max = 1900

unfoldable pub webhook_payload : (String → String) → String → String → String → Payload
webhook_payload lower format title text =
    let fmt = lower (if Text.is_empty format then "gchat" else format) in
    let full =
      if Text.is_empty title then text else Text.concat ("*" ∷ title ∷ "*\n" ∷ text ∷ []) in
    if fmt == "gchat" || fmt == "google" || fmt == "slack" || fmt == "text"
    then json (("text", full) ∷ [])
    else (if fmt == "ntfy"
        then text_body text (("Title", title) ∷ ("Markdown", "yes") ∷ [])
        else (if fmt == "gotify"
            then json (("title", title) ∷ ("message", text) ∷ [])
            else (if fmt == "discord"
                then json (("content", Text.take discord_max full) ∷ [])
                else json (("title", title) ∷ ("text", text) ∷ []))))

abbrev pub floor_rank : Option Severity → ℕ
floor_rank none = 1
floor_rank (some s) = severity_rank s

abbrev pub is_recovered : Kind → Bool
is_recovered recovered = true
is_recovered _ = false

abbrev pub or_nil : Option (List String) → List String
or_nil none = []
or_nil (some tags) = tags

-- A webhook without tags takes every host's events, one with tags those of hosts that bear one.
unfoldable pub routes : Hook → String → Dict String (List String) → Bool
routes hook host_id tags_by_host =
    let want = select (λ t. not (Text.is_empty t)) hook.tags in
    let have = or_nil (Dict.get host_id tags_by_host) in
    nat_beq (length want) 0 || any (λ t. contains have t) want

unfoldable pub hook_wants : Hook → Event → Dict String (List String) → Bool
hook_wants hook ev tags_by_host =
    if not (is_recovered ev.kind) && ltb (floor_rank hook.min_severity) (severity_rank ev.severity)
    then false
    else routes hook ev.host_id tags_by_host

-- One request for each webhook that wants an event; `enabled` is the master switch.
unfoldable pub posts_for :
    (String → String) → List Hook → List Event → Dict String (List String) → List (String × Payload)
posts_for lower [] events tags = []
posts_for lower (hook ∷ hooks) events tags =
    let rest = posts_for lower hooks events tags in
    let want = select (λ ev. hook_wants hook ev tags) events in
    let (title, text) = format_digest want in
    if nat_beq (length want) 0
    then rest
    else (hook.url, webhook_payload lower hook.format title text) ∷ rest

unfoldable pub dispatch :
    (String → String)
    → Bool
    → List Hook
    → List Event
    → Dict String (List String)
    → List (String × Payload)
dispatch lower enabled hooks events tags =
    if not enabled || nat_beq (length events) 0 then [] else posts_for lower hooks events tags

-- A webhook that wanted to hear that a condition fired or changed wants to hear that it recovered,
-- whatever the severity of the recovery, as long as the tags of the host stay what they were.
pub recovery_follows :
    (hook : Hook) (ev back : Event) (tags : Dict String (List String))
    → back.host_id ≡ ev.host_id
    → back.kind ≡ recovered
    → hook_wants hook ev tags ≡ true
    → hook_wants hook back tags ≡ true
unfolding hook_wants
recovery_follows hook ev back tags same kind wanted =
    ground (arith, ap (λ h. routes hook h tags) same)
