-- ===== src/Checks/Probes.antt =====
-- checks.py: `run_check` and its probes, over what the network does.
use nexus_controller.Prelude.{
  ℕ, zero, suc, ◌/◌, ◌%◌, String, Bool, true, false, not, ◌&&◌, Option, none, some, List, [], ◌∷◌,
  ◌++◌, ltb, leb, nat_beq, if◌then◌else◌, nat_eq, string_eq, pair_eq, length,
}
use Prim.Native.Char.{code}
use nexus_controller.Prelude.Text
use text.Mathlib.Text.{starts_with}
use nexus_controller.Adapters.Errors.{friendly_error}
use nexus_controller.Checks.{
  tcp, tls, http, https, dns, ntp, Service, services, find_service, Check,
}

abbrev pub Bytes : Type 0
Bytes = List ℕ

-- What an operation on the network may do: answer, run into the timeout, or raise another exception
-- with the text that str() gives of it, or with its class name where that text is empty.
pub data Io (A : Type 0) : Type 0 where
  answer : A → Io A
  timed_out : Io A
  raised : String → Io A

abbrev pub io_bind : {A B : Type 0} → Io A → (A → Io B) → Io B
io_bind (answer a) f = f a
io_bind timed_out f = timed_out
io_bind (raised why) f = raised why

-- The libraries: sockets, TLS, requests and the clock; `lower` is str.lower and `repr` the
-- representation that `%r` writes.
pub record Network (Conn : Type 0) : Type 0 where
  pub connect : String → ℕ → ℕ → Io Conn
  pub sendall : Conn → String → Io ℕ
  pub recv : Conn → ℕ → Io String
  pub tls_version : Conn → String → Io String
  pub get_status : String → ℕ → Io ℕ
  pub exchange : String → ℕ → ℕ → Bytes → ℕ → Io Bytes
  pub elapsed_ms : String → ℕ → ℕ
  pub lower : String → String
  pub repr : String → String

-- s.split(pat)[0]
unfoldable pub before : String → String → String
before pat String.[] = ""
before pat (String.◌∷◌ c s) =
    let rest = before pat s in if starts_with (String.◌∷◌ c s) pat then "" else String.◌∷◌ c rest

unfoldable pub first_line : String → String
first_line text = Text.strip (before "\n" (before "\r\n" text))

-- What the reply to a probe says, given the prefix that is expected.
unfoldable pub judge_reply : (String → String) → String → String → Bool × String
judge_reply repr expect text =
    let line = first_line text in
    if Text.is_empty text
    then (false, "connected but no reply")
    else (if not (starts_with (Text.lstrip text) expect)
        then (false, Text.concat ("unexpected reply: " ∷ repr (Text.take 40 line) ∷ []))
        else (true, if Text.is_empty line then "reply ok" else Text.take 80 line))

-- if send: s.sendall(send.encode())
unfoldable pub send_if : {Conn : Type 0} → Network Conn → Conn → String → Io ℕ
send_if net s send = elim (Text.is_empty send) [ true ↦ answer 0 | false ↦ net.sendall s send ]

unfoldable pub probe_tcp :
    {Conn : Type 0} → Network Conn → String → ℕ → ℕ → String → String → Io (Bool × String)
probe_tcp net target port timeout send expect = io_bind (net.connect target port timeout) (λ s.
    io_bind (send_if net s send) (λ sent. elim (Text.is_empty expect) [
      | true ↦ answer (true, "port open")
      | false ↦ io_bind (net.recv s 256) (λ text. answer (judge_reply net.repr expect text))
    ]))

unfoldable pub probe_tls : {Conn : Type 0} → Network Conn → String → ℕ → ℕ → Io (Bool × String)
probe_tls net target port timeout = io_bind (net.connect target port timeout) (λ raw.
    io_bind (net.tls_version raw target) (λ version. answer (
      true,
      Text.concat ((if Text.is_empty version then "TLS" else version) ∷ " handshake ok" ∷ []),
    )))

unfoldable pub probe_url : String → String → ℕ → String
probe_url scheme target port =
    let host =
      if Text.any_code (λ c. nat_beq c b':') target
      then Text.concat ("[" ∷ target ∷ "]" ∷ [])
      else target in
    Text.concat (scheme ∷ "://" ∷ host ∷ ":" ∷ Text.decimal port ∷ "/" ∷ [])

unfoldable pub probe_http :
    {Conn : Type 0} → Network Conn → String → String → ℕ → ℕ → Io (Bool × String)
probe_http net scheme target port timeout =
    io_bind (net.get_status (probe_url scheme target port) timeout)
      (λ status. answer (ltb status 500, Text.concat ("HTTP " ∷ Text.decimal status ∷ [])))

-- struct.pack('>H', n) for n < 2^16
abbrev pub be16 : ℕ → Bytes
be16 n = n / 256 ∷ n % 256 ∷ []

-- s.encode() of an ASCII text
unfoldable pub ascii : String → Bytes
ascii String.[] = []
ascii (String.◌∷◌ c s) = code c ∷ ascii s

-- The loop over the parts of the name.
unfoldable pub labels : List String → Bytes
labels [] = []
labels (part ∷ parts) = Text.length part ∷ (ascii part ++ labels parts)

unfoldable pub dns_query : Bytes
dns_query =
    (be16 0x4e43 ++ be16 0x0100 ++ be16 1 ++ be16 0 ++ be16 0 ++ be16 0)
    ++ labels ("example" ∷ "com" ∷ [])
    ++ (0 ∷ [])
    ++ (be16 1 ++ be16 1)

unfoldable pub byte_at : ℕ → Bytes → ℕ
byte_at n [] = 0
byte_at zero (b ∷ bs) = b
byte_at (suc n) (b ∷ bs) = byte_at n bs

-- A response of at least a header's length that has the query's identifier and the bit QR.
unfoldable pub is_response : Bytes → Bool
is_response bytes =
    leb 12 (length bytes)
    && nat_beq (byte_at 0 bytes) (byte_at 0 dns_query)
    && nat_beq (byte_at 1 bytes) (byte_at 1 dns_query)
    && nat_beq (byte_at 2 bytes / 128 % 2) 1

unfoldable pub judge_dns : Bytes → Bool × String
judge_dns bytes =
    let rcode = byte_at 3 bytes % 16 in
    if is_response bytes
    then (
      true,
      Text.concat (
          "DNS answering"
          ∷ (if nat_beq rcode 0
              then ""
              else Text.concat (" (rcode " ∷ Text.decimal rcode ∷ ")" ∷ []))
          ∷ []),
    )
    else (false, "malformed DNS response")

unfoldable pub probe_dns : {Conn : Type 0} → Network Conn → String → ℕ → ℕ → Io (Bool × String)
probe_dns net target port timeout =
    io_bind (net.exchange target port timeout dns_query 512) (λ bytes. answer (judge_dns bytes))

unfoldable pub zeros : ℕ → Bytes
zeros zero = []
zeros (suc n) = 0 ∷ zeros n

unfoldable pub judge_ntp : Bytes → Bool × String
judge_ntp bytes =
    if leb 48 (length bytes)
    then (true, Text.concat ("NTP stratum " ∷ Text.decimal (byte_at 1 bytes) ∷ []))
    else (false, "malformed NTP response")

unfoldable pub probe_ntp : {Conn : Type 0} → Network Conn → String → ℕ → ℕ → Io (Bool × String)
probe_ntp net target port timeout =
    io_bind (net.exchange target port timeout (0x1b ∷ zeros 47) 256)
      (λ bytes. answer (judge_ntp bytes))

-- The probe of a service; a service that the catalogue does not have is a plain connect.
unfoldable pub probe :
    {Conn : Type 0} → Network Conn → Option Service → Check → ℕ → Io (Bool × String)
probe net none c timeout = probe_tcp net c.target c.port timeout "" ""
probe net (some svc) c timeout = elim svc.kind [
  | http ↦ probe_http net "http" c.target c.port timeout
  | https ↦ probe_http net "https" c.target c.port timeout
  | tls ↦ probe_tls net c.target c.port timeout
  | dns ↦ probe_dns net c.target c.port timeout
  | ntp ↦ probe_ntp net c.target c.port timeout
  | tcp ↦ probe_tcp net c.target c.port timeout svc.send svc.expect
]

-- A probe's outcome, with the milliseconds that it took.
pub record Outcome : Type 0 where
  pub ok : Bool
  pub latency_ms : ℕ
  pub detail : String

abbrev pub or_failed : (String → String) → Io (Bool × String) → Bool × String
or_failed lower (answer found) = found
or_failed lower timed_out = (false, "timed out")
or_failed lower (raised why) = (false, friendly_error lower why)

unfoldable pub run_check : {Conn : Type 0} → Network Conn → Check → ℕ → Outcome
run_check net c timeout =
    let (up, detail) =
      or_failed net.lower (probe net (find_service c.service services) c timeout) in
    record { ok = up; latency_ms = net.elapsed_ms c.target c.port; detail = detail }
