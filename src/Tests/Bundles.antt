-- ===== src/Tests/Bundles.antt =====
-- Witnesses for the laws on backups, with a codec whose tokens carry their key.
use nexus_controller.Prelude.{
  String, ◌≡◌, refl, true, false, none, some, [], ◌∷◌, arith, eq_iff, if◌then◌else◌, ok, ◌==◌,
  beq_refl, nat_eq, string_eq, pair_eq,
}
use nexus_controller.Prelude.Text
use nexus_controller.Prelude.Dict
use nexus_controller.Prelude.Dict.{Dict}
use nexus_controller.Backup.{
  Codec, Bundle, bundle_format, make_bundle, open_bundle, inspect_bundle, restore, collect, Files,
}
use nexus_controller.Backup.Laws.{IsFaithful, open_bundle-make_bundle, restore-kept}
use nexus_controller.Backup.Recovery.{IsInjective, restore-open_bundle}

abbrev Plain : Type 0
Plain = Dict String String

abbrev Token : Type 0
Token = String × Plain

abbrev codec : Codec Plain Token (Bundle Token)
codec = record {
  derive_key = λ passphrase salt n. Text.concat (passphrase ∷ salt ∷ []);
  encrypt = λ key iv text. (key, text);
  decrypt = λ key t. if t.0 == key then some t.1 else none;
  dump_files = λ files. files;
  load_files = some;
  dump_bundle = λ b. b;
  load_bundle = some;
  sorted = λ names. names;
}

codec-IsFaithful : IsFaithful codec
codec-IsFaithful = record {
  decrypts = λ key iv text. ground (arith, beq_refl key);
  loads = λ b. refl;
  loads_files = λ files u. (files, refl, u, λ name. refl);
}

abbrev paths : Dict String String
paths = ("nodes.json", "/old/nodes.json") ∷ ("sso.json", "/old/sso.json") ∷ []

abbrev old : Files
old = ("/old/nodes.json", "[]") ∷ []

abbrev passphrase : String
passphrase = "correct horse battery"

abbrev blob : Bundle Token
blob = record {
  format = some bundle_format;
  created = some "2026-01-01";
  iterations = some 600000;
  salt = some "salt";
  members = "nodes.json" ∷ [];
  sealed = some ("correct horse batterysalt", ("nodes.json", "[]") ∷ []);
}

made : make_bundle codec (collect paths old) passphrase 600000 "2026-01-01" "salt" "iv" ≡ ok blob
unfolding make_bundle collect Dict.get Text.concat
made = refl

paths_once : Dict.unique paths ≡ true
unfolding Dict.unique Dict.has
paths_once = refl

two-IsInjective :
    (n1 p1 n2 p2 : String) → (p1 == p2) ≡ false → IsInjective ((n1, p1) ∷ (n2, p2) ∷ [])
unfolding Dict.get
two-IsInjective n1 p1 n2 p2 d n m p a b =
    ground (arith, eq_iff n1 n, eq_iff n2 n, eq_iff n1 m, eq_iff n2 m, eq_iff p1 p2)

paths-IsInjective : IsInjective paths
paths-IsInjective = two-IsInjective "nodes.json" "/old/nodes.json" "sso.json" "/old/sso.json" refl

once : Dict.unique (collect paths old) ≡ true
unfolding Dict.unique collect Dict.get Dict.has
once = refl

there : Dict.get "/old/nodes.json" old ≡ some "[]"
unfolding Dict.get
there = refl

path_of : Dict.get "nodes.json" paths ≡ some "/old/nodes.json"
unfolding Dict.get
path_of = refl

opened : open_bundle codec blob passphrase ≡ ok (("nodes.json", "[]") ∷ [])
unfolding open_bundle inspect_bundle nexus_controller.Backup.unseal Text.concat
opened = refl

restored :
    (restore
      (λ p. false)
      (("nodes.json", "[]") ∷ [])
      paths
      true
      (("/old/nodes.json", "[1]") ∷ [])).0
    ≡ ok ("/old/nodes.json" ∷ [])
unfolding restore nexus_controller.Backup.write_all nexus_controller.Backup.targets Dict.get
restored = refl

open_bundle-make_bundle_example :
    (back : Dict String String) × (open_bundle codec blob passphrase ≡ ok back)
    × (Dict.unique back ≡ true)
    × ((name : String) → Dict.get name back ≡ Dict.get name (collect paths old))
    × (inspect_bundle codec blob
        ≡ ok (record {
          created = some "2026-01-01";
          members = codec.sorted (Dict.keys (collect paths old));
        }))
open_bundle-make_bundle_example =
    open_bundle-make_bundle codec (collect paths old) passphrase 600000 "2026-01-01" "salt" "iv"
      blob codec-IsFaithful once made

restore-kept_example :
    Dict.get "/old/nodes.json" (restore (λ p. false) (("sso.json", "{}") ∷ []) paths false old).1
    ≡ some "[]"
restore-kept_example =
    restore-kept (λ p. false) (("sso.json", "{}") ∷ []) paths old "/old/nodes.json" "[]" there

restore-open_bundle_example :
    Dict.get "/old/nodes.json"
      (restore
        (λ p. false)
        (("nodes.json", "[]") ∷ [])
        paths
        true
        (("/old/nodes.json", "[1]") ∷ [])).1
    ≡ some "[]"
restore-open_bundle_example =
    restore-open_bundle codec paths old (("/old/nodes.json", "[1]") ∷ []) passphrase 600000
      "2026-01-01" "salt" "iv" blob (("nodes.json", "[]") ∷ []) (λ p. false) true
      ("/old/nodes.json" ∷ []) "nodes.json" "/old/nodes.json" "[]" codec-IsFaithful paths_once
      paths-IsInjective made opened restored path_of there
