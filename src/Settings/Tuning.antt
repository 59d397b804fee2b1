-- ===== src/Settings/Tuning.antt =====
-- app.py: `clean_tuning`, `tuning_defaults`, `tuning` and `tuning_save`.
use nexus_controller.Prelude.{
  ℕ, ◌≤◌, max, min, String, ◌≡◌, refl, ap, ◌∙◌, ◌⊎◌, inl, inr, Bool, true, false, ◌&&◌, Option,
  none, some, List, [], ◌∷◌, arith, eq_iff, leb, if◌then◌else◌, leb→le, Bool-cases, Option-cases,
  Checked, Checked-cases, ok, err, ◌==◌, nat_eq, string_eq, pair_eq, any,
}
use nexus_controller.Prelude.Text
use nexus_controller.Prelude.Dict
use nexus_controller.Prelude.Dict.{Dict, get-set}
use nexus_controller.Prelude.Int.{ℤ, pos, negsuc}

pub data Tunable : Type 0 where
  monitor_interval check_timeout flap_cycles : Tunable

abbrev pub key : Tunable → String
key monitor_interval = "monitor_interval"
key check_timeout = "check_timeout"
key flap_cycles = "flap_cycles"

abbrev pub tunables : List Tunable
tunables = monitor_interval ∷ check_timeout ∷ flap_cycles ∷ []

-- TUNING_BOUNDS
abbrev pub bounds : Tunable → ℕ × ℕ
bounds monitor_interval = (10, 3600)
bounds check_timeout = (1, 60)
bounds flap_cycles = (1, 20)

-- The environment's numbers, any at all.
pub record Defaults : Type 0 where
  pub monitor_interval_default : ℤ
  pub check_timeout_default : ℤ
  pub flap_cycles_default : ℤ

abbrev pub tuning_defaults : Defaults → Tunable → ℤ
tuning_defaults env monitor_interval = env.monitor_interval_default
tuning_defaults env check_timeout = env.check_timeout_default
tuning_defaults env flap_cycles = env.flap_cycles_default

-- lo <= v <= hi
abbrev pub within : ℕ × ℕ → ℤ → Bool
within b (pos n) = leb b.0 n && leb n b.1
within b (negsuc n) = false

-- max(lo, min(hi, v)), where lo is not negative
abbrev pub clamp : ℕ × ℕ → ℤ → ℕ
clamp b (pos n) = max b.0 (min b.1 n)
clamp b (negsuc n) = b.0

-- `cfg['tuning'] = rec`, as the JSON file holds it.
unfoldable pub to_json : {Json : Type 0} → (ℤ → Json) → Dict String ℤ → Dict String Json
to_json write [] = []
to_json write ((k, v) ∷ d) = (k, write v) ∷ to_json write d

-- The values of JSON, of which the code asks `int(x)` only: `none` where that raises.
module _ {Json : Type 0} (int : Json → Option ℤ) where
  -- The loop; `out` is what it has collected.
  unfoldable pub clean_from :
      List Tunable → Dict String Json → Dict String ℤ → Checked (Dict String ℤ)
  clean_from [] given out = ok out
  clean_from (t ∷ ts) given out = elim (Dict.get (key t) given) [
    | none ↦ clean_from ts given out
    | some x ↦ elim (int x) [
      | none ↦ err (Text.concat ("invalid " ∷ key t ∷ []))
      | some v ↦ elim (within (bounds t) v) [
        | false ↦ err (
            Text.concat (
              key t
              ∷ " must be "
              ∷ Text.decimal (bounds t).0
              ∷ "-"
              ∷ Text.decimal (bounds t).1
              ∷ []))
        | true ↦ clean_from ts given (Dict.set (key t) v out)
      ]
    ]
  ]

  unfoldable pub clean_tuning : Dict String Json → Checked (Dict String ℤ)
  clean_tuning given = clean_from tunables given []

  -- One value of `tuning`: the stored one, else the default, clamped.
  unfoldable pub tuning : Defaults → Dict String Json → Tunable → ℕ
  tuning env stored t = elim (Dict.get (key t) stored) [
    | none ↦ clamp (bounds t) (tuning_defaults env t)
    | some x ↦ elim (int x) [
      | none ↦ clamp (bounds t) (tuning_defaults env t)
      | some v ↦ clamp (bounds t) v
    ]
  ]

  -- The answer, and the stored tunables after it.
  unfoldable pub tuning_save :
      (ℤ → Json) → Dict String Json → Dict String Json → Checked (Dict String ℤ) × Dict String Json
  tuning_save write given stored = elim (clean_tuning given) [
    | err why ↦ (err why, stored)
    | ok rec ↦ (ok rec, to_json write rec)
  ]

clamp-bounds :
    (t : Tunable) (v : ℤ)
    → ((bounds t).0 ≤ clamp (bounds t) v) × (clamp (bounds t) v ≤ (bounds t).1)
clamp-bounds monitor_interval (pos n) = (omega arith, omega arith)
clamp-bounds monitor_interval (negsuc n) = (omega arith, omega arith)
clamp-bounds check_timeout (pos n) = (omega arith, omega arith)
clamp-bounds check_timeout (negsuc n) = (omega arith, omega arith)
clamp-bounds flap_cycles (pos n) = (omega arith, omega arith)
clamp-bounds flap_cycles (negsuc n) = (omega arith, omega arith)

within-clamp : (b : ℕ × ℕ) (v : ℤ) → within b v ≡ true → pos (clamp b v) ≡ v
within-clamp b (pos n) h = ap pos (ground (arith, leb→le b.0 n, leb→le n b.1))
within-clamp b (negsuc n) h = ground arith

-- Whatever the environment and the stored settings hold, the tunables that the monitor goes by are
-- within their bounds.
pub tuning-bounds :
    {Json : Type 0} (int : Json → Option ℤ) (env : Defaults) (stored : Dict String Json)
    (t : Tunable)
    → ((bounds t).0 ≤ tuning int env stored t) × (tuning int env stored t ≤ (bounds t).1)
unfolding tuning
tuning-bounds int env stored t = elim (Option-cases (Dict.get (key t) stored)) [
  | inl unset ↦ rw (tuning, unset) (clamp-bounds t (tuning_defaults env t))
  | inr (x, is) ↦ elim (Option-cases (int x)) [
    | inl junk ↦ rw (tuning, is, junk) (clamp-bounds t (tuning_defaults env t))
    | inr (v, reads) ↦ rw (tuning, is, reads) (clamp-bounds t v)
  ]
]

key_eq : (t u : Tunable) → (key t == key u) ≡ true → t ≡ u
key_eq monitor_interval monitor_interval h = refl
key_eq monitor_interval check_timeout h = ground arith
key_eq monitor_interval flap_cycles h = ground arith
key_eq check_timeout monitor_interval h = ground arith
key_eq check_timeout check_timeout h = refl
key_eq check_timeout flap_cycles h = ground arith
key_eq flap_cycles monitor_interval h = ground arith
key_eq flap_cycles check_timeout h = ground arith
key_eq flap_cycles flap_cycles h = refl

-- What the payload asks for under a key; without one, what was there.
abbrev asked : {Json : Type 0} → (Json → Option ℤ) → Dict String Json → String → Option ℤ → Option ℤ
asked int given k before = elim (Dict.get k given) [ none ↦ before | some x ↦ int x ]

module _ {Json : Type 0} (int : Json → Option ℤ) (given : Dict String Json) where
  -- A round of the loop that raises nothing passes a key by or takes a value.
  record Taken (t : Tunable) (ts : List Tunable) (out rec : Dict String ℤ) : Type 0 where
    x : Json
    v : ℤ
    is : Dict.get (key t) given ≡ some x
    reads : int x ≡ some v
    inside : within (bounds t) v ≡ true
    rest : clean_from int ts given (Dict.set (key t) v out) ≡ ok rec

  round :
      (t : Tunable) (ts : List Tunable) (out rec : Dict String ℤ)
      → clean_from int (t ∷ ts) given out ≡ ok rec
      → (Dict.get (key t) given ≡ none) × (clean_from int ts given out ≡ ok rec)
        ⊎ Taken t ts out rec
  unfolding clean_from
  round t ts out rec h = elim (Option-cases (Dict.get (key t) given)) [
    | inl unset ↦ inl (unset, ground arith)
    | inr (x, is) ↦ elim (Option-cases (int x)) [
      | inl junk ↦ ground arith
      | inr (v, reads) ↦ elim (Bool-cases (within (bounds t) v)) [
        | inl inside ↦
            inr (record {
              x = x;
              v = v;
              is = is;
              reads = reads;
              inside = inside;
              rest = ground arith;
            })
        | inr outside ↦ ground arith
      ]
    ]
  ]

  ended : (out rec : Dict String ℤ) → clean_from int [] given out ≡ ok rec → out ≡ rec
  unfolding clean_from
  ended out rec h = ground arith

  get-clean_from :
      (ts : List Tunable) (out rec : Dict String ℤ) (k : String)
      → clean_from int ts given out ≡ ok rec
      → Dict.get k rec
        ≡ (if any (λ t. key t == k) ts then asked int given k (Dict.get k out) else Dict.get k out)
  unfolding any
  get-clean_from [] out rec k h = ground (arith, ended out rec h)
  get-clean_from (t ∷ ts) out rec k h = elim (round t ts out rec h) [
    | inl (unset, rest) ↦ elim (Bool-cases (key t == k)) [
      | inl same ↦ ground (
        arith,
        get-clean_from ts out rec k,
        ap (λ x. Dict.get x given) ((eq_iff (key t) k).0 same),
      )
      | inr other ↦ ground (arith, get-clean_from ts out rec k)
    ]
    | inr r ↦ elim (Bool-cases (key t == k)) [
      | inl same ↦ ground (
        arith,
        get-clean_from ts (Dict.set (key t) r.v out) rec k,
        r.rest,
        r.is,
        r.reads,
        ap (λ x. Dict.get x given) ((eq_iff (key t) k).0 same),
        get-set (key t) k r.v out,
      )
      | inr other ↦ ground (
        arith,
        get-clean_from ts (Dict.set (key t) r.v out) rec k,
        r.rest,
        get-set (key t) k r.v out,
      )
    ]
  ]

  Taken-at :
      (u t : Tunable) (ts : List Tunable) (out rec : Dict String ℤ)
      → Taken u ts out rec
      → u ≡ t
      → (v : ℤ) × (asked int given (key t) none ≡ some v) × (within (bounds t) v ≡ true)
  Taken-at u t ts out rec r same = (
    r.v,
    ground (arith, r.is, r.reads, ap (λ w. Dict.get (key w) given) same),
    ground (arith, r.inside, ap (λ w. within (bounds w) r.v) same),
  )

  -- A value that the loop takes is a number within its bounds.
  within-clean_from :
      (ts : List Tunable) (out rec : Dict String ℤ) (t : Tunable)
      → clean_from int ts given out ≡ ok rec
      → any (λ u. key u == key t) ts ≡ true
      → (Dict.get (key t) given ≡ none)
        ⊎ ((v : ℤ) × (asked int given (key t) none ≡ some v) × (within (bounds t) v ≡ true))
  unfolding any
  within-clean_from [] out rec t h there = ground arith
  within-clean_from (u ∷ ts) out rec t h there = elim (round u ts out rec h) [
    | inl (unset, rest) ↦ elim (Bool-cases (key u == key t)) [
      | inl same ↦ inl (ground (arith, ap (λ w. Dict.get (key w) given) (key_eq u t same)))
      | inr other ↦ within-clean_from ts out rec t rest (ground arith)
    ]
    | inr r ↦ elim (Bool-cases (key u == key t)) [
      | inl same ↦ inr (Taken-at u t ts out rec r (key_eq u t same))
      | inr other ↦ within-clean_from ts (Dict.set (key u) r.v out) rec t r.rest (ground arith)
    ]
  ]

get-to_json :
    {Json : Type 0} (write : ℤ → Json) (d : Dict String ℤ) (k : String)
    → Dict.get k (to_json write d) ≡ elim (Dict.get k d) [ none ↦ none | some v ↦ some (write v) ]
unfolding to_json Dict.get
get-to_json write [] k = refl
get-to_json write ((j, v) ∷ d) k = ground (arith, get-to_json write d k)

listed : (t : Tunable) → any (λ u. key u == key t) tunables ≡ true
unfolding any
listed monitor_interval = refl
listed check_timeout = refl
listed flap_cycles = refl

empty : (k : String) → Dict.get {V = ℤ} k [] ≡ none
unfolding Dict.get
empty k = refl

module _ {Json : Type 0} (int : Json → Option ℤ) (write : ℤ → Json)
    (given stored : Dict String Json) where
  stored_after :
      (rec : Dict String ℤ)
      → (tuning_save int write given stored).0 ≡ ok rec
      → (clean_from int tunables given [] ≡ ok rec)
        × ((tuning_save int write given stored).1 ≡ to_json write rec)
  unfolding tuning_save clean_tuning
  stored_after rec h = elim (Checked-cases (clean_from int tunables given [])) [
    | inl (got, went) ↦ (ground arith, ground arith)
    | inr (why, failed) ↦ ground arith
  ]

  get-stored_after :
      (rec : Dict String ℤ) (t : Tunable)
      → (tuning_save int write given stored).0 ≡ ok rec
      → Dict.get (key t) (tuning_save int write given stored).1
        ≡ elim (asked int given (key t) none) [ none ↦ none | some v ↦ some (write v) ]
  get-stored_after rec t h =
      let (went, is) = stored_after rec h in
      ap (Dict.get (key t)) is
      ∙ get-to_json write rec (key t)
      ∙ ground
          (arith, get-clean_from int given tunables [] rec (key t) went, listed t, empty (key t))

-- A payload that is accepted is what the monitor goes by from then on: each tunable that the payload
-- names has exactly the number given there, unclamped, and each that it leaves out its default, whatever
-- was stored before. `int` and `write` are the JSON numbers, which come back as they were written.
pub tuning-saved :
    {Json : Type 0} (int : Json → Option ℤ) (write : ℤ → Json) (env : Defaults)
    (given stored : Dict String Json) (rec : Dict String ℤ) (t : Tunable)
    → ((v : ℤ) → int (write v) ≡ some v)
    → (tuning_save int write given stored).0 ≡ ok rec
    → some (pos (tuning int env (tuning_save int write given stored).1 t))
      ≡ elim (Dict.get (key t) given) [
        | none ↦ some (pos (clamp (bounds t) (tuning_defaults env t)))
        | some x ↦ int x
      ]
unfolding tuning
tuning-saved int write env given stored rec t back h =
    let (went, is) = stored_after int write given stored rec h in
    elim (within-clean_from int given tunables [] rec t went (listed t)) [
      | inl unset ↦ ground (arith, get-stored_after int write given stored rec t h)
      | inr (v, asks, inside) ↦ ground (
        arith,
        get-stored_after int write given stored rec t h,
        back v,
        within-clamp (bounds t) v inside,
      )
    ]
