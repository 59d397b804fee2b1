-- ===== src/Backup.antt =====
-- backup.py: the encrypted bundle of the configuration files, and its restoration.
pub mod Laws
pub mod Recovery
use nexus_controller.Prelude.{
  ℕ, String, Bool, false, not, ◌&&◌, Option, none, some, List, [], ◌∷◌, ltb, if◌then◌else◌, Checked,
  ok, err, ◌==◌, nat_eq, string_eq, pair_eq, any,
}
use nexus_controller.Prelude.Text
use nexus_controller.Prelude.Dict
use nexus_controller.Prelude.Dict.{Dict}

abbrev pub bundle_format : String
bundle_format = "nexus-controller-backup/1"

abbrev pub min_passphrase : ℕ
min_passphrase = 12

-- The JSON envelope. A field is `none` where the envelope has none that can be read: `salt` where
-- base64 refuses it, `iterations` where int() does.
pub record Bundle (Token : Type 0) : Type 0 where
  pub format : Option String
  pub created : Option String
  pub iterations : Option ℕ
  pub salt : Option String
  pub members : List String
  pub sealed : Option Token

-- The libraries: PBKDF2 (`derive_key`), Fernet, whose `encrypt` draws an initialisation vector and
-- whose `decrypt` may raise InvalidToken, and the JSON texts of the envelope and of the files, where
-- `none` stands for a text that does not parse or holds another value. The bytes of the files'
-- JSON, of a token and of the envelope are types of their own.
pub record Codec (Plain Token Blob : Type 0) : Type 0 where
  pub derive_key : String → String → ℕ → String
  pub encrypt : String → String → Plain → Token
  pub decrypt : String → Token → Option Plain
  pub dump_files : Dict String String → Plain
  pub load_files : Plain → Option (Dict String String)
  pub dump_bundle : Bundle Token → Blob
  pub load_bundle : Blob → Option (Bundle Token)
  pub sorted : List String → List String

-- `salt` and `iv` are what os.urandom draws, `created` the clock's text.
unfoldable pub make_bundle :
    {Plain Token Blob : Type 0}
    → Codec Plain Token Blob
    → (files : Dict String String) → (passphrase : String) → (iterations : ℕ)
    → (created salt iv : String) → Checked Blob
make_bundle c files passphrase iterations created salt iv =
    if ltb (Text.length passphrase) min_passphrase
    then err "passphrase must be at least 12 characters"
    else ok (
        c.dump_bundle (record {
          format = some bundle_format;
          created = some created;
          iterations = some iterations;
          salt = some salt;
          members = c.sorted (Dict.keys files);
          sealed =
              some (c.encrypt (c.derive_key passphrase salt iterations) iv (c.dump_files files));
        }))

abbrev pub is_format : Option String → Bool
is_format none = false
is_format (some s) = s == bundle_format

-- What `inspect_bundle` answers; `format` is always the one that it asks for.
pub record Header : Type 0 where
  pub created : Option String
  pub members : List String

unfoldable pub inspect_bundle :
    {Plain Token Blob : Type 0} → Codec Plain Token Blob → Blob → Checked Header
inspect_bundle c blob = elim (c.load_bundle blob) [
  | none ↦ err "not a controller backup"
  | some env ↦
      if is_format env.format
      then ok (record { created = env.created; members = env.members })
      else err "not a controller backup"
]

abbrev pub or_corrupt : Option (Dict String String) → Checked (Dict String String)
or_corrupt none = err "wrong passphrase or corrupt bundle"
or_corrupt (some files) = ok files

abbrev pub and_then {ℓ κ} : {A : Type ℓ} {B : Type κ} → Option A → (A → Option B) → Option B
and_then none f = none
and_then (some a) f = f a

-- The part under the `try`: salt, iterations, decryption and the JSON of the files.
unfoldable pub unseal :
    {Plain Token Blob : Type 0}
    → Codec Plain Token Blob
    → Bundle Token
    → String
    → Option (Dict String String)
unseal c env passphrase = and_then env.salt (λ salt. and_then env.iterations (λ n.
    and_then env.sealed
      (λ token. and_then (c.decrypt (c.derive_key passphrase salt n) token) c.load_files)))

unfoldable pub open_bundle :
    {Plain Token Blob : Type 0}
    → Codec Plain Token Blob
    → Blob
    → String
    → Checked (Dict String String)
open_bundle c blob passphrase = elim (inspect_bundle c blob) [
  | err why ↦ err why
  | ok header ↦ or_corrupt (and_then (c.load_bundle blob) (λ env. unseal c env passphrase))
]

-- The texts of the files by their paths.
abbrev pub Files : Type 0
Files = Dict String String

-- {name: path} → {name: text} for the files that exist
unfoldable pub collect : Dict String String → Files → Dict String String
collect [] fs = []
collect ((name, path) ∷ paths) fs =
    let rest = collect paths fs in
    elim (Dict.get path fs) [ none ↦ rest | some body ↦ (name, body) ∷ rest ]

-- The paths to write, each with its text: the members of the bundle that the application knows.
unfoldable pub targets : Dict String String → Dict String String → List (String × String)
targets [] paths = []
targets ((name, body) ∷ files) paths =
    let rest = targets files paths in
    elim (Dict.get name paths) [ none ↦ rest | some path ↦ (path, body) ∷ rest ]

-- The loop: each file replaces the old one whole or not at all; `fails` says which paths the
-- operating system refuses, and the first refusal is raised.
unfoldable pub write_all :
    (String → Bool) → List (String × String) → Files → Checked (List String) × Files
write_all fails [] fs = (ok [], fs)
write_all fails ((path, body) ∷ rest) fs =
    let (written, after) = write_all fails rest (Dict.set path body fs) in
    if fails path
    then (err "write failed", fs)
    else (elim written [ ok ps ↦ ok (path ∷ ps) | err why ↦ err why ], after)

unfoldable pub restore :
    (String → Bool)
    → (files paths : Dict String String) → (force : Bool) → Files
    → Checked (List String) × Files
restore fails files paths force fs =
    let found = targets files paths in
    if not force && any (λ t. Dict.has t.0 fs) found
    then (err "refusing to overwrite", fs)
    else write_all fails found fs
