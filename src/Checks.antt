-- ===== src/Checks.antt =====
-- checks.py: the catalogue of services and the validation of a check.
pub mod Probes
pub mod Cadence
pub mod Schedule
pub mod Routes
use nexus_controller.Prelude.{
  ℕ, ◌/◌, String, Bool, false, not, ◌&&◌, ◌||◌, Option, none, some, List, [], ◌∷◌, leb, nat_beq,
  if◌then◌else◌, Checked, ok, err, ◌==◌, nat_eq, string_eq, pair_eq,
}
use nexus_controller.Prelude.Text
use nexus_controller.Prelude.Int.{ℤ, pos, negsuc}

pub data Kind : Type 0 where
  tcp tls http https dns ntp : Kind

-- `send` and `expect` are "" where the entry has none.
pub record Service : Type 0 where
  pub id : String
  pub label : String
  pub port : Option ℕ
  pub kind : Kind
  pub send : String
  pub expect : String

abbrev service : String → String → Option ℕ → Kind → String → String → Service
service id label port kind send expect = record {
  id = id;
  label = label;
  port = port;
  kind = kind;
  send = send;
  expect = expect;
}

-- SERVICES
unfoldable pub services : List Service
services =
    service "http" "HTTP" (some 80) http "" ""
    ∷ service "https" "HTTPS" (some 443) https "" ""
    ∷ service "ssh" "SSH" (some 22) tcp "" "SSH-"
    ∷ service "dns" "DNS" (some 53) dns "" ""
    ∷ service "dot" "DNS over TLS" (some 853) tls "" ""
    ∷ service "ntp" "NTP" (some 123) ntp "" ""
    ∷ service "smtp" "SMTP" (some 25) tcp "" "220"
    ∷ service "smtp-sub" "SMTP submission" (some 587) tcp "" "220"
    ∷ service "smtps" "SMTPS" (some 465) tls "" ""
    ∷ service "imap" "IMAP" (some 143) tcp "" "* OK"
    ∷ service "imaps" "IMAPS" (some 993) tls "" ""
    ∷ service "pop3" "POP3" (some 110) tcp "" "+OK"
    ∷ service "pop3s" "POP3S" (some 995) tls "" ""
    ∷ service "ftp" "FTP" (some 21) tcp "" "220"
    ∷ service "smb" "SMB / CIFS" (some 445) tcp "" ""
    ∷ service "nfs" "NFS" (some 2049) tcp "" ""
    ∷ service "dlna" "DLNA / miniDLNA" (some 8200) http "" ""
    ∷ service "iscsi" "iSCSI" (some 3260) tcp "" ""
    ∷ service "rdp" "RDP" (some 3389) tcp "" ""
    ∷ service "vnc" "VNC" (some 5900) tcp "" "RFB"
    ∷ service "telnet" "Telnet" (some 23) tcp "" ""
    ∷ service "mysql" "MySQL / MariaDB" (some 3306) tcp "" ""
    ∷ service "postgres" "PostgreSQL" (some 5432) tcp "" ""
    ∷ service "mssql" "SQL Server" (some 1433) tcp "" ""
    ∷ service "mongodb" "MongoDB" (some 27017) tcp "" ""
    ∷ service "redis" "Redis" (some 6379) tcp "PING\r\n" "+PONG"
    ∷ service "memcached" "Memcached" (some 11211) tcp "version\r\n" "VERSION"
    ∷ service "ldap" "LDAP" (some 389) tcp "" ""
    ∷ service "ldaps" "LDAPS" (some 636) tls "" ""
    ∷ service "mqtt" "MQTT" (some 1883) tcp "" ""
    ∷ service "amqp" "AMQP / RabbitMQ" (some 5672) tcp "" ""
    ∷ service "elastic" "Elasticsearch" (some 9200) http "" ""
    ∷ service "kafka" "Kafka" (some 9092) tcp "" ""
    ∷ service "git" "Git daemon" (some 9418) tcp "" ""
    ∷ service "tcp" "Custom TCP port" none tcp "" ""
    ∷ []

-- SERVICE_MAP.get(id)
unfoldable pub find_service : String → List Service → Option Service
find_service id [] = none
find_service id (s ∷ ss) = if s.id == id then some s else find_service id ss

-- [A-Za-z0-9._:-]
unfoldable pub is_target_code : ℕ → Bool
is_target_code c =
    leb b'A' c && leb c b'Z'
    || leb b'a' c && leb c b'z'
    || leb b'0' c && leb c b'9'
    || nat_beq c b'.'
    || nat_beq c b'_'
    || nat_beq c b':'
    || nat_beq c b'-'

-- The whole text matches _TARGET.
unfoldable pub is_target : String → Bool
is_target s =
    leb 1 (Text.length s)
    && leb (Text.length s) 253
    && not (Text.any_code (λ c. not (is_target_code c)) s)

-- The `port` of a payload: missing, null, zero or empty; refused by int(); or a number.
pub data Port : Type 0 where
  no_port : Port
  junk : Port
  number : ℤ → Port

-- A payload, with the text that str() gives of each field, "" for a field that is missing or null.
pub record Payload : Type 0 where
  pub service : String
  pub target : String
  pub port : Port
  pub name : String
  pub node_id : String

-- A check; `node_id` is "" for None. A record that `clean_check` has just made has no `id` and no
-- `added_at`, which are "" then.
pub record Check : Type 0 where
  pub id : String
  pub service : String
  pub target : String
  pub port : ℕ
  pub name : String
  pub node_id : String
  pub added_at : String

abbrev pub or_zero : Option ℕ → ℕ
or_zero none = 0
or_zero (some n) = n

-- int(data.get('port') or svc['port'] or 0)
abbrev pub port_number : Port → Service → Option ℤ
port_number no_port svc = some (pos (or_zero svc.port))
port_number junk svc = none
port_number (number z) svc = some z

-- 1 <= port <= 65535
abbrev pub in_range : ℤ → Bool
in_range (pos n) = leb 1 n && leb n 65535
in_range (negsuc n) = false

abbrev pub to_nat : ℤ → ℕ
to_nat (pos n) = n
to_nat (negsuc n) = 0

-- name or '%s @ %s' % (svc['label'], target)
unfoldable pub name_or : String → Service → String → String
name_or name svc target =
    if Text.is_empty name then Text.concat (svc.label ∷ " @ " ∷ target ∷ []) else name

unfoldable pub clean_check : Payload → Checked Check
clean_check given = elim (find_service (Text.strip given.service) services) [
  | none ↦ err "unknown service"
  | some svc ↦
      let target = Text.strip given.target in
      if not (is_target target)
      then err "target must be an IP address or hostname"
      else elim (port_number given.port svc) [
        | none ↦ err "invalid port"
        | some port ↦
            if not (in_range port)
            then err "port must be 1-65535"
            else ok (record {
              id = "";
              service = svc.id;
              target = target;
              port = to_nat port;
              name = name_or (Text.take 48 (Text.strip given.name)) svc target;
              node_id = Text.strip given.node_id;
              added_at = "";
            })
      ]
]
