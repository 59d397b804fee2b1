-- ===== src/Backup/Laws.antt =====
-- backup.py: what a bundle gives back, and what a restoration leaves alone.
use nexus_controller.Prelude.{
  ℕ, String, ◌≡◌, refl, ap, ◌∙◌, inl, inr, Bool, true, false, some, List, [], ◌∷◌, arith, eq_iff,
  if◌then◌else◌, Bool-cases, ok, err, ◌==◌, nat_eq, string_eq, pair_eq, any,
}
use nexus_controller.Prelude.Dict
use nexus_controller.Prelude.Dict.{Dict, get-set, has-get}
use nexus_controller.Backup.{
  bundle_format, Bundle, Codec, make_bundle, is_format, inspect_bundle, or_corrupt, unseal,
  open_bundle, Files, targets, write_all, restore,
}

-- What the libraries promise: what one of them writes, its counterpart reads. The JSON text of the
-- files has its keys sorted, so what is read back has the same entries in some order.
pub record IsFaithful {Plain Token Blob : Type 0} (c : Codec Plain Token Blob) : Type 0 where
  pub decrypts :
      (key iv : String) (text : Plain) → c.decrypt key (c.encrypt key iv text) ≡ some text
  pub loads : (b : Bundle Token) → c.load_bundle (c.dump_bundle b) ≡ some b
  pub loads_files :
      (files : Dict String String)
      → Dict.unique files ≡ true
      → (back : Dict String String) × (c.load_files (c.dump_files files) ≡ some back)
        × (Dict.unique back ≡ true)
        × ((name : String) → Dict.get name back ≡ Dict.get name files)

module _ {Plain Token Blob : Type 0} (c : Codec Plain Token Blob) (f : IsFaithful c) where
  inspect_bundle-dump :
      (b : Bundle Token)
      → inspect_bundle c (c.dump_bundle b) ≡ (
          if is_format b.format
          then ok (record { created = b.created; members = b.members })
          else err "not a controller backup")
  unfolding inspect_bundle
  inspect_bundle-dump b = ground (arith, f.loads b)

  open_bundle-dump :
      (b : Bundle Token) (passphrase : String)
      → is_format b.format ≡ true
      → open_bundle c (c.dump_bundle b) passphrase ≡ or_corrupt (unseal c b passphrase)
  unfolding open_bundle
  open_bundle-dump b passphrase h = ground (arith, inspect_bundle-dump b, f.loads b)

  made :
      (files : Dict String String) (passphrase : String) (iterations : ℕ) (created salt iv : String)
      (blob : Blob)
      → make_bundle c files passphrase iterations created salt iv ≡ ok blob
      → blob
        ≡ c.dump_bundle (record {
          format = some bundle_format;
          created = some created;
          iterations = some iterations;
          salt = some salt;
          members = c.sorted (Dict.keys files);
          sealed =
              some (c.encrypt (c.derive_key passphrase salt iterations) iv (c.dump_files files));
        })
  unfolding make_bundle
  made files passphrase iterations created salt iv blob h = ground arith

-- A bundle that was made opens under the passphrase that it was made with, to the same files, each
-- name with the text it had; and its header can be read without the passphrase.
pub open_bundle-make_bundle :
    {Plain Token Blob : Type 0} (c : Codec Plain Token Blob) (files : Dict String String)
    (passphrase : String) (iterations : ℕ) (created salt iv : String) (blob : Blob)
    → IsFaithful c
    → Dict.unique files ≡ true
    → make_bundle c files passphrase iterations created salt iv ≡ ok blob
    → (back : Dict String String) × (open_bundle c blob passphrase ≡ ok back)
      × (Dict.unique back ≡ true)
      × ((name : String) → Dict.get name back ≡ Dict.get name files)
      × (inspect_bundle c blob
          ≡ ok (record { created = some created; members = c.sorted (Dict.keys files) }))
unfolding unseal
open_bundle-make_bundle c files passphrase iterations created salt iv blob f u h =
    let (back, loaded, once, names) = f.loads_files files u in
    let is = made c f files passphrase iterations created salt iv blob h in
    let key = c.derive_key passphrase salt iterations in
    (
      back,
      rw is (
          open_bundle-dump c f _ passphrase refl
          ∙ ground (arith, f.decrypts key iv (c.dump_files files))),
      once,
      names,
      rw is (inspect_bundle-dump c f _),
    )

-- If no target is there already, whatever is there stays.
pub write_all-kept :
    (fails : String → Bool) (ts : List (String × String)) (fs : Files) (path : String)
    → any (λ t. t.0 == path) ts ≡ false
    → Dict.get path (write_all fails ts fs).1 ≡ Dict.get path fs
unfolding any write_all
write_all-kept fails [] fs path h = refl
write_all-kept fails ((q, body) ∷ ts) fs path h =
    ground (arith, write_all-kept fails ts (Dict.set q body fs) path, get-set q path body fs)

absent_target :
    (ts : List (String × String)) (fs : Files) (path text : String)
    → any (λ t. Dict.has t.0 fs) ts ≡ false
    → Dict.get path fs ≡ some text
    → any (λ t. t.0 == path) ts ≡ false
unfolding any
absent_target [] fs path text h is = refl
absent_target ((q, body) ∷ ts) fs path text h is = elim (Bool-cases (q == path)) [
  | inl same ↦ ground (arith, has-get path fs, ap (λ x. Dict.has x fs) ((eq_iff q path).0 same))
  | inr other ↦ ground (arith, absent_target ts fs path text)
]

-- A restoration that is not forced never changes or removes a file that is there, also when it is
-- refused and when it is broken off by a write that fails.
pub restore-kept :
    (fails : String → Bool) (files paths : Dict String String) (fs : Files) (path text : String)
    → Dict.get path fs ≡ some text
    → Dict.get path (restore fails files paths false fs).1 ≡ some text
unfolding restore
restore-kept fails files paths fs path text is =
    let ts = targets files paths in
    elim (Bool-cases (any (λ t. Dict.has t.0 fs) ts)) [
      | inl clash ↦ ground arith
      | inr clear ↦
          ground (arith, write_all-kept fails ts fs path (absent_target ts fs path text clear is))
    ]
