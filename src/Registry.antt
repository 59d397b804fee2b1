-- ===== src/Registry.antt =====
-- app.py: `clean_type` and `node_update`, on the registry of the hosts.
pub mod Repin
use nexus_controller.Prelude.{
  String, Bool, true, false, not, ◌&&◌, ◌||◌, Option, none, some, List, [], ◌∷◌, ltb, nat_beq,
  if◌then◌else◌, Checked, ok, err, ◌==◌, nat_eq, string_eq, pair_eq,
}
use Prim.Native.Char.{code}
use Prim.Native.String
use nexus_controller.Prelude.Text
use nexus_controller.Access.Scope.{clean_scope_tags}

-- A record of the registry. A field that is None is "", and `type_auto` is `none` if the record has no
-- such key.
pub record Node : Type 0 where
  pub id : String
  pub name : String
  pub host_type : String
  pub base_url : String
  pub tags : List String
  pub category : String
  pub type_auto : Option String
  pub type_pinned : Bool
  pub disabled : Bool
  pub disabled_until : String
  pub token_enc : String
  pub username : String
  pub password_enc : String
  pub verify_ssl : Bool
  pub cert_fp : String
  pub role : String
  pub version : String
  pub capabilities : List String
  pub last_seen : String

-- The `type` of a payload: missing, no text, or a text.
pub data TypeField : Type 0 where
  no_type : TypeField
  other_type : TypeField
  type_text : String → TypeField

-- A payload: `none` for a field that it does not have; a text that is missing or null is "".
pub record Payload : Type 0 where
  pub name : Option String
  pub tags : Option (List String)
  pub disabled : Option Bool
  pub disabled_until : String
  pub category : TypeField
  pub base_url : String
  pub token : String
  pub username : String
  pub password : String
  pub verify_ssl : Option Bool

pub record Creds : Type 0 where
  pub token : String
  pub username : String
  pub password : String
  pub verify_ssl : Bool

-- What a probe of a host tells.
pub record Info : Type 0 where
  pub cert_fp : String
  pub role : String
  pub version : String
  pub capabilities : List String

pub data Auth : Type 0 where
  by_token by_password : Auth

-- The adapters' table and probe over the network, the vault of the secrets, str.lower, and `clean_until`
-- at the time of the request.
pub record Services : Type 0 where
  pub auth_of : String → Auth
  pub probe : String → String → Creds → Checked Info
  pub encrypt : String → String
  pub decrypt : String → String
  pub lower : String → String
  pub clean_until : String → Checked String

-- s.rstrip('/')
unfoldable pub rstrip_slash : String → String
rstrip_slash String.[] = ""
rstrip_slash (String.◌∷◌ c s) =
    let rest = rstrip_slash s in
    if Text.is_empty rest && nat_beq (code c) b'/' then "" else String.◌∷◌ c rest

unfoldable pub clean_type : (String → String) → String → Option String
clean_type lower v =
    let label = Text.join " " (Text.split v) in
    if Text.is_empty label
      || ltb 24 (Text.length label)
      || lower label == "auto"
      || lower label == "paused"
    then none
    else some label

abbrev pub or_text : String → String → String
or_text s other = if Text.is_empty s then other else s

abbrev pub given_or {ℓ} : {A : Type ℓ} → Option A → A → A
given_or none old = old
given_or (some new) old = new

-- The edits are kept as the record that they make of a record: `n.update(edits)`.
abbrev pub Edits : Type 0
Edits = Node → Node

unfoldable pub edit_name : Node → Option String → Edits
edit_name cur none n = n
edit_name cur (some name) n = record n { name = or_text (Text.strip name) cur.name }

unfoldable pub edit_tags : Option (List String) → Edits
edit_tags none n = n
edit_tags (some tags) n = record n { tags = clean_scope_tags tags }

-- A plain pause or resumption clears a window.
unfoldable pub edit_disabled : Option Bool → Edits
edit_disabled none n = n
edit_disabled (some b) n = record n { disabled = b; disabled_until = "" }

-- The end of a window, where the payload pauses the host and gives one.
abbrev pub until_edits : Bool → Checked String → Checked Edits
until_edits false until = ok (λ n. n)
until_edits true (err why) = err why
until_edits true (ok until) = ok (λ n. record n { disabled_until = until })

-- if edits.get('disabled') and data.get('disabled_until')
unfoldable pub edit_until : Services → Payload → Checked Edits
edit_until sv d =
    until_edits (given_or d.disabled false && not (Text.is_empty d.disabled_until))
      (sv.clean_until d.disabled_until)

abbrev pub type_edits : Node → Bool → Option String → Checked Edits
type_edits cur true label =
    ok (λ n. record n { type_pinned = false; category = given_or cur.type_auto "Unknown" })
type_edits cur false none = err "invalid type"
type_edits cur false (some label) = ok (λ n. record n { category = label; type_pinned = true })

unfoldable pub edit_type : Services → Node → TypeField → Checked Edits
edit_type sv cur no_type = ok (λ n. n)
edit_type sv cur other_type = err "invalid type"
edit_type sv cur (type_text s) = type_edits cur (s == "auto") (clean_type sv.lower s)

-- What `except NodeError` answers.
abbrev pub probed : Checked Info → (Info → Edits) → Checked Edits
probed (err why) edits = err (Text.concat ("connection test failed: " ∷ why ∷ []))
probed (ok info) edits = ok (edits info)

unfoldable pub url_changed : Node → Payload → Bool
url_changed cur d =
    let new_url = Text.strip d.base_url in
    not (Text.is_empty new_url) && not (rstrip_slash new_url == cur.base_url)

unfoldable pub target_url : Node → Payload → String
target_url cur d = rstrip_slash (or_text (Text.strip d.base_url) cur.base_url)

-- The credentials of the probe: those of the payload, else the stored ones.
unfoldable pub token_creds : Services → Node → Payload → Creds
token_creds sv cur d = record {
  token =
      or_text (Text.strip d.token)
        (if Text.is_empty cur.token_enc then "" else sv.decrypt cur.token_enc);
  username = "";
  password = "";
  verify_ssl = given_or d.verify_ssl cur.verify_ssl;
}

unfoldable pub password_creds : Services → Node → Payload → Creds
password_creds sv cur d = record {
  token = "";
  username = or_text (Text.strip d.username) cur.username;
  password = or_text d.password (sv.decrypt cur.password_enc);
  verify_ssl = given_or d.verify_ssl cur.verify_ssl;
}

unfoldable pub token_edits : Services → Node → Payload → Info → Edits
token_edits sv cur d info n = record n {
  base_url = target_url cur d;
  cert_fp = info.cert_fp;
  role = info.role;
  version = info.version;
  capabilities = info.capabilities;
  token_enc =
      if Text.is_empty (Text.strip d.token) then n.token_enc else sv.encrypt (Text.strip d.token);
  verify_ssl =
      if cur.host_type == "nexus" then n.verify_ssl else given_or d.verify_ssl cur.verify_ssl;
}

unfoldable pub password_edits : Services → Node → Payload → Info → Edits
password_edits sv cur d info n = record n {
  base_url = target_url cur d;
  cert_fp = info.cert_fp;
  username = or_text (Text.strip d.username) cur.username;
  verify_ssl = given_or d.verify_ssl cur.verify_ssl;
  password_enc = if Text.is_empty d.password then n.password_enc else sv.encrypt d.password;
}

abbrev pub is_given {ℓ} : {A : Type ℓ} → Option A → Bool
is_given none = false
is_given (some a) = true

-- Whether the payload asks for a new probe, by the host's credential model.
unfoldable pub needs_probe : Auth → Node → Payload → Bool
needs_probe by_token cur d =
    url_changed cur d
    || not (Text.is_empty (Text.strip d.token))
    || not (cur.host_type == "nexus") && is_given d.verify_ssl
needs_probe by_password cur d =
    url_changed cur d
    || not (Text.is_empty d.password)
    || not (Text.is_empty (Text.strip d.username)) && not (Text.strip d.username == cur.username)
    || is_given d.verify_ssl

unfoldable pub probe_edits : Services → Auth → Node → Payload → Checked Edits
probe_edits sv by_token cur d =
    probed (sv.probe cur.host_type (target_url cur d) (token_creds sv cur d)) (token_edits sv cur d)
probe_edits sv by_password cur d =
    probed (sv.probe cur.host_type (target_url cur d) (password_creds sv cur d))
      (password_edits sv cur d)

abbrev pub endpoint_edits : Bool → Checked Edits → Checked Edits
endpoint_edits false probing = ok (λ n. n)
endpoint_edits true probing = probing

unfoldable pub edit_endpoint : Services → Node → Payload → Checked Edits
edit_endpoint sv cur d =
    endpoint_edits (needs_probe (sv.auth_of cur.host_type) cur d)
      (probe_edits sv (sv.auth_of cur.host_type) cur d)

abbrev pub checked_then {ℓ κ} : {A : Type ℓ} {B : Type κ} → Checked A → (A → Checked B) → Checked B
checked_then (err why) f = err why
checked_then (ok a) f = f a

-- The first phase, on a snapshot of the record: all the edits, or the first refusal.
unfoldable pub plan_edits : Services → Node → Payload → Checked Edits
plan_edits sv cur d = checked_then (edit_until sv d) (λ until.
    checked_then (edit_type sv cur d.category) (λ kind.
      checked_then (edit_endpoint sv cur d) (λ endpoint. ok (λ n.
        endpoint
          (kind (until (edit_disabled d.disabled (edit_tags d.tags (edit_name cur d.name n)))))))))

unfoldable pub find_node : String → List Node → Option Node
find_node id [] = none
find_node id (n ∷ nodes) = if n.id == id then some n else find_node id nodes

-- `n.update(edits)` at the first record with the identifier.
unfoldable pub edit_node : String → Edits → List Node → List Node
edit_node id edits [] = []
edit_node id edits (n ∷ nodes) =
    let rest = edit_node id edits nodes in if n.id == id then edits n ∷ nodes else n ∷ rest

-- The second phase, on the registry as it is by then.
unfoldable pub commit_edits : String → Checked Edits → List Node → Checked Node × List Node
commit_edits id (err why) reg = (err why, reg)
commit_edits id (ok edits) reg = elim (find_node id reg) [
  | none ↦ (err "node not found", reg)
  | some n ↦ (ok (edits n), edit_node id edits reg)
]

abbrev pub plan_for : Services → Option Node → Payload → Checked Edits
plan_for sv none d = err "node not found"
plan_for sv (some cur) d = plan_edits sv cur d

-- PUT /api/nodes/<node_id>: `before` is the registry of the first phase, `reg` that of the second, which
-- other requests and the monitor may have written in between.
unfoldable pub node_update :
    Services → String → Payload → List Node → List Node → Checked Node × List Node
node_update sv id d before reg = commit_edits id (plan_for sv (find_node id before) d) reg
