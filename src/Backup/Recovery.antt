-- ===== src/Backup/Recovery.antt =====
-- backup.py: from the files of one installation through a bundle to those of another.
use nexus_controller.Prelude.{
  ℕ, String, ◌≡◌, refl, sym, ap, ◌∙◌, subst, ◌≢◌, inl, inr, Bool, true, false, not, ◌&&◌, none,
  some, List, [], ◌∷◌, arith, eq_iff, if◌then◌else◌, Bool-cases, Option-cases, Checked,
  ok-injective, ok, err, ◌==◌, beq_refl, nat_eq, string_eq, pair_eq, any,
}
use nexus_controller.Prelude.Dict
use nexus_controller.Prelude.Dict.{Dict, get-set, has-get, any-at, at, unique-head, unique-tail}
use nexus_controller.Backup.{
  Codec, make_bundle, open_bundle, Files, collect, targets, write_all, restore,
}
use nexus_controller.Backup.Laws.{IsFaithful, open_bundle-make_bundle}

-- No two names share a path.
abbrev pub IsInjective : Dict String String → Type 0
IsInjective paths = (n m p : String) → Dict.get n paths ≡ some p → Dict.get m paths ≡ some p → n ≡ m

-- No pair of the list gives the path another text.
abbrev clashes : String → String → String × String → Bool
clashes path text t = t.0 == path && not (t.1 == text)

Checked-ok :
    (r : Checked (List String))
    → elim r [ ok ps ↦ true | err why ↦ false ] ≡ true
    → (ps : List String) × (r ≡ ok ps)
Checked-ok (ok ps) h = (ps, refl)
Checked-ok (err why) h = ground arith

get-write_all :
    (fails : String → Bool) (ts : List (String × String)) (fs : Files) (path text : String)
    (ps : List String)
    → (write_all fails ts fs).0 ≡ ok ps
    → any (clashes path text) ts ≡ false
    → Dict.get path (write_all fails ts fs).1
      ≡ (if any (λ t. t.0 == path) ts then some text else Dict.get path fs)
unfolding any write_all
get-write_all fails [] fs path text ps done h = refl
get-write_all fails ((q, body) ∷ ts) fs path text ps done h =
    let (qs, went) = Checked-ok (write_all fails ts (Dict.set q body fs)).0 (ground arith) in
    let rec = get-write_all fails ts (Dict.set q body fs) path text qs went (ground arith) in
    elim (Bool-cases (body == text)) [
      | inl same ↦ ground (arith, rec, (eq_iff body text).0 same, get-set q path body fs)
      | inr other ↦ ground (arith, rec, get-set q path body fs)
    ]

any-targets :
    (files paths : Dict String String) (name path text : String)
    → Dict.get name files ≡ some text
    → Dict.get name paths ≡ some path
    → any (λ t. t.0 == path) (targets files paths) ≡ true
unfolding targets any Dict.get
any-targets [] paths name path text f p = ground arith
any-targets ((m, body) ∷ files) paths name path text f p = elim (Bool-cases (m == name)) [
  | inl same ↦ ground (arith, ap (λ x. Dict.get x paths) ((eq_iff m name).0 same), beq_refl path)
  | inr other ↦ ground (arith, any-targets files paths name path text)
]

clashes-targets :
    (files paths : Dict String String) (name path text : String)
    → IsInjective paths
    → Dict.get name paths ≡ some path
    → any (λ x. x.0 == name && not (x.1 == text)) files ≡ false
    → any (clashes path text) (targets files paths) ≡ false
unfolding targets any
clashes-targets [] paths name path text inj p h = refl
clashes-targets ((m, body) ∷ files) paths name path text inj p h =
    let rec = clashes-targets files paths name path text inj p (ground arith) in
    elim (Option-cases (Dict.get m paths)) [
      | inl absent ↦ ground (arith, rec)
      | inr (q, is) ↦ elim (Bool-cases (q == path)) [
        | inl same ↦
            ground
              (arith, rec, inj m name path (is ∙ ap some ((eq_iff q path).0 same)) p, beq_refl name)
        | inr other ↦ ground (arith, rec)
      ]
    ]

get-collect :
    (paths : Dict String String) (fs : Files) (name path : String)
    → Dict.get name paths ≡ some path
    → Dict.get path fs ≢ none
    → Dict.get name (collect paths fs) ≡ Dict.get path fs
unfolding Dict.get collect
get-collect [] fs name path is there = ground arith
get-collect ((m, p) ∷ paths) fs name path is there = elim (Option-cases (Dict.get p fs)) [
  | inl absent ↦ ground (arith, get-collect paths fs name path)
  | inr (body, found) ↦ ground (arith, get-collect paths fs name path)
]

has-collect :
    (paths : Dict String String) (fs : Files) (name : String)
    → Dict.has name paths ≡ false
    → Dict.has name (collect paths fs) ≡ false
unfolding Dict.has collect
has-collect [] fs name h = refl
has-collect ((m, p) ∷ paths) fs name h = elim (Option-cases (Dict.get p fs)) [
  | inl absent ↦ ground (arith, has-collect paths fs name)
  | inr (body, found) ↦ ground (arith, has-collect paths fs name)
]

-- A collection has no name twice, since the table of the files has none.
unique-collect :
    (paths : Dict String String) (fs : Files)
    → Dict.unique paths ≡ true
    → Dict.unique (collect paths fs) ≡ true
unfolding Dict.unique collect
unique-collect [] fs h = refl
unique-collect ((m, p) ∷ paths) fs h = elim (Option-cases (Dict.get p fs)) [
  | inl absent ↦ ground (arith, unique-collect paths fs)
  | inr (body, found) ↦ ground (arith, unique-collect paths fs, has-collect paths fs m)
]

get-restore :
    (fails : String → Bool) (back paths : Dict String String) (force : Bool) (fs : Files)
    (name path text : String) (ps : List String)
    → Dict.unique back ≡ true
    → IsInjective paths
    → (restore fails back paths force fs).0 ≡ ok ps
    → Dict.get name paths ≡ some path
    → Dict.get name back ≡ some text
    → Dict.get path (restore fails back paths force fs).1 ≡ some text
unfolding restore
get-restore fails back paths force fs name path text ps u inj done is found =
    let ts = targets back paths in
    let only =
      clashes-targets back paths name path text inj is
        (any-at (λ t. not (t == text)) name back u ∙ ground (arith, beq_refl text)) in
    let met = any-targets back paths name path text found is in
    elim (Bool-cases (not force && any (λ t. Dict.has t.0 fs) ts)) [
      | inl clash ↦ ground arith
      | inr clear ↦ ground (arith, get-write_all fails ts fs path text ps)
    ]

-- Disaster recovery: what one installation has put in a bundle under a passphrase, opened under the
-- same passphrase on another and restored there without an error, leaves each file that the first
-- installation had at its path with its old text, whatever stood there before.
pub restore-open_bundle :
    {Plain Token Blob : Type 0} (c : Codec Plain Token Blob) (paths : Dict String String)
    (old new : Files) (passphrase : String) (iterations : ℕ) (created salt iv : String)
    (blob : Blob) (back : Dict String String) (fails : String → Bool) (force : Bool)
    (ps : List String) (name path text : String)
    → IsFaithful c
    → Dict.unique paths ≡ true
    → IsInjective paths
    → make_bundle c (collect paths old) passphrase iterations created salt iv ≡ ok blob
    → open_bundle c blob passphrase ≡ ok back
    → (restore fails back paths force new).0 ≡ ok ps
    → Dict.get name paths ≡ some path
    → Dict.get path old ≡ some text
    → Dict.get path (restore fails back paths force new).1 ≡ some text
restore-open_bundle c paths old new passphrase iterations created salt iv blob back fails force ps
      name path text f u inj made opened done is was =
    let (read, same_open, once, names, rest) =
      open_bundle-make_bundle c (collect paths old) passphrase iterations created salt iv blob f
        (unique-collect paths old u) made in
    let same = ok-injective (sym same_open ∙ opened) in
    get-restore fails back paths force new name path text ps
      (subst (λ b. Dict.unique b ≡ true) same once) inj done is
      (ap (Dict.get name) (sym same)
        ∙ names name
        ∙ get-collect paths old name path is (λ none_there. ground arith)
        ∙ was)
