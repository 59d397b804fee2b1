-- ===== src/Fleet/Versions.antt =====
-- app.py: `_version_tuple` and `flag_version_skew`.
use nexus_controller.Prelude.{
  ℕ, String, ◌≡◌, refl, sym, ap, ◌∙◌, inl, inr, Bool, true, false, not, ◌&&◌, ◌||◌, List, [], ◌∷◌,
  map, arith, ltb, nat_beq, if◌then◌else◌, ltb→lt, lt→ltb, nat_beq_iff, Bool-cases, ◌==◌, beq_refl,
  nat_eq, string_eq, pair_eq, take, select, any, any-select,
}
use nexus_controller.Prelude.Text
use nexus_controller.Envelope.{Envelope}

-- [int(p) for p in re.findall(r'\d+', v)] is an argument, `numbers`.
unfoldable pub version_tuple : (String → List ℕ) → String → List ℕ
version_tuple numbers v = elim (take 3 (numbers v)) [ [] ↦ 0 ∷ [] | n ∷ ns ↦ n ∷ ns ]

-- The order of tuples: by the first place that differs, and a tuple before those that go on.
unfoldable pub tuple_lt : List ℕ → List ℕ → Bool
tuple_lt [] [] = false
tuple_lt [] (b ∷ bs) = true
tuple_lt (a ∷ as_) [] = false
tuple_lt (a ∷ as_) (b ∷ bs) = let rest = tuple_lt as_ bs in if nat_beq a b then rest else ltb a b

-- A nexus host that answered and has a version.
unfoldable pub has_version : Envelope → Bool
has_version r =
    r.ok && (Text.is_empty r.host_type || r.host_type == "nexus") && not (Text.is_empty r.version)

-- max(nexus, key=…): the first one of the newest.
unfoldable pub newer_of : (String → List ℕ) → Envelope → Envelope → Envelope
newer_of numbers best r =
    if tuple_lt (version_tuple numbers best.version) (version_tuple numbers r.version)
    then r
    else best

unfoldable pub newest : (String → List ℕ) → Envelope → List Envelope → Envelope
newest numbers best [] = best
newest numbers best (r ∷ rs) = newest numbers (newer_of numbers best r) rs

unfoldable pub flag_behind : (String → List ℕ) → Envelope → Envelope → Envelope
flag_behind numbers top r =
    if has_version r
      && tuple_lt (version_tuple numbers r.version) (version_tuple numbers top.version)
    then record r { version_lag = top.version }
    else r

-- The hosts with a version, where there are at least two, and the whole fleet.
unfoldable pub flag_among : (String → List ℕ) → List Envelope → List Envelope → List Envelope
flag_among numbers [] results = results
flag_among numbers (first ∷ []) results = results
flag_among numbers (first ∷ second ∷ others) results =
    map (flag_behind numbers (newest numbers first (second ∷ others))) results

unfoldable pub flag_version_skew : (String → List ℕ) → List Envelope → List Envelope
flag_version_skew numbers results = flag_among numbers (select has_version results) results

lt_irrefl : (a : List ℕ) → tuple_lt a a ≡ false
unfolding tuple_lt
lt_irrefl [] = refl
lt_irrefl (a ∷ as_) = ground (arith, lt_irrefl as_, nat_beq_iff a a)

-- Below something that is not above b is below b.
lt_not_lt : (a b c : List ℕ) → tuple_lt a c ≡ true → tuple_lt b c ≡ false → tuple_lt a b ≡ true
unfolding tuple_lt
lt_not_lt [] [] [] h k = ground arith
lt_not_lt [] [] (c ∷ cs) h k = ground arith
lt_not_lt [] (b ∷ bs) c h k = refl
lt_not_lt (a ∷ as_) b [] h k = ground arith
lt_not_lt (a ∷ as_) [] (c ∷ cs) h k = ground arith
lt_not_lt (a ∷ as_) (b ∷ bs) (c ∷ cs) h k = ground (
  arith,
  lt_not_lt as_ bs cs,
  nat_beq_iff a b,
  nat_beq_iff a c,
  nat_beq_iff b c,
  ltb→lt a c,
  ltb→lt b c,
  lt→ltb a b,
  lt→ltb b c,
)

lt_trans : (a b c : List ℕ) → tuple_lt a b ≡ true → tuple_lt b c ≡ true → tuple_lt a c ≡ true
unfolding tuple_lt
lt_trans [] [] c h k = ground arith
lt_trans [] (b ∷ bs) [] h k = ground arith
lt_trans [] (b ∷ bs) (c ∷ cs) h k = refl
lt_trans (a ∷ as_) [] c h k = ground arith
lt_trans (a ∷ as_) (b ∷ bs) [] h k = ground arith
lt_trans (a ∷ as_) (b ∷ bs) (c ∷ cs) h k = ground (
  arith,
  lt_trans as_ bs cs,
  nat_beq_iff a b,
  nat_beq_iff a c,
  nat_beq_iff b c,
  ltb→lt a b,
  ltb→lt b c,
  lt→ltb a c,
)

any_nothing : {A : Type 0} (p : A → Bool) → any p [] ≡ false
unfolding any
any_nothing p = refl

module _ (numbers : String → List ℕ) where
  newer_of-any :
      (a : List ℕ) (best r : Envelope)
      → tuple_lt a (version_tuple numbers (newer_of numbers best r).version) ≡ (
          tuple_lt a (version_tuple numbers best.version)
          || tuple_lt a (version_tuple numbers r.version))
  unfolding newer_of
  newer_of-any a best r =
      let v = version_tuple numbers best.version in
      let w = version_tuple numbers r.version in
      elim (Bool-cases (tuple_lt v w)) [
        | inl newer ↦ rw newer (ground (arith, lt_trans a v w))
        | inr older ↦ rw older (ground (arith, lt_not_lt a v w))
      ]

  -- Older than the newest of some hosts is older than one of them, and the other way round.
  newest-any :
      (a : List ℕ) (best : Envelope) (rs : List Envelope)
      → tuple_lt a (version_tuple numbers (newest numbers best rs).version)
        ≡ any (λ q. tuple_lt a (version_tuple numbers q.version)) (best ∷ rs)
  unfolding newest any
  newest-any a best [] = ground arith
  newest-any a best (r ∷ rs) =
      newest-any a (newer_of numbers best r) rs ∙ ground (arith, newer_of-any a best r)

  abbrev pub is_older : Envelope → Envelope → Bool
  is_older r q = tuple_lt (version_tuple numbers r.version) (version_tuple numbers q.version)

  -- A nexus host that answered with a version older than that of another such host.
  abbrev pub is_behind : List Envelope → Envelope → Bool
  is_behind results r = has_version r && any (λ q. has_version q && is_older r q) results

  abbrev pub mark : String → List Envelope → Envelope → Envelope
  mark top results r = if is_behind results r then record r { version_lag = top } else r

  behind-select :
      (results : List Envelope) (r : Envelope)
      → is_behind results r ≡ (has_version r && any (is_older r) (select has_version results))
  behind-select results r =
      ap (λ b. has_version r && b) (sym (any-select (is_older r) has_version results))

  none_marked :
      (results rs : List Envelope) (top : String)
      → select has_version rs ≡ []
      → rs ≡ map (mark top results) rs
  unfolding select
  none_marked results [] top h = refl
  none_marked results (r ∷ rs) top h = ground (arith, none_marked results rs top)

  -- A single host with a version is behind nobody.
  one_marked :
      (results rs : List Envelope) (x : Envelope) (top : String)
      → select has_version results ≡ x ∷ []
      → select has_version rs ≡ x ∷ []
      → rs ≡ map (mark top results) rs
  unfolding select any
  one_marked results [] x top all h = refl
  one_marked results (r ∷ rs) x top all h = elim (Bool-cases (has_version r)) [
    | inl versioned ↦
        let here = behind-select results r ∙ ap (λ xs. has_version r && any (is_older r) xs) all in
        ground
          (arith, here, none_marked results rs top, lt_irrefl (version_tuple numbers x.version))
    | inr other ↦ ground (arith, one_marked results rs x top all)
  ]

  many_marked :
      (results rs : List Envelope) (first : Envelope) (others : List Envelope)
      → select has_version results ≡ first ∷ others
      → map (flag_behind numbers (newest numbers first others)) rs
        ≡ map (mark (newest numbers first others).version results) rs
  unfolding flag_behind
  many_marked results [] first others all = refl
  many_marked results (r ∷ rs) first others all =
      let here =
        behind-select results r
        ∙ ap (λ xs. has_version r && any (is_older r) xs) all
        ∙ ap (λ b. has_version r && b)
            (sym (newest-any (version_tuple numbers r.version) first others)) in
      ground (arith, many_marked results rs first others all, here)

-- A newest version of the fleet: that of a host with a version which no other host surpasses.
abbrev pub is_newest : (String → List ℕ) → List Envelope → String → Envelope → Bool
is_newest numbers results top q =
    has_version q
    && (not (any (λ o. has_version o && is_older numbers q o) results) && q.version == top)

module _ (numbers : String → List ℕ) where
  newer_of-one :
      (q : Envelope → Bool) (best r : Envelope) (rs : List Envelope)
      → any q (newer_of numbers best r ∷ rs) ≡ true
      → any q (best ∷ r ∷ rs) ≡ true
  unfolding newer_of any
  newer_of-one q best r rs h =
      elim (Bool-cases
        (tuple_lt (version_tuple numbers best.version) (version_tuple numbers r.version))) [
          | inl newer ↦ let there = (rw newer at h) in ground arith
          | inr older ↦ let there = (rw older at h) in ground arith
        ]

  -- The newest of some hosts is one of them.
  newest-one :
      (q : Envelope → Bool) (best : Envelope) (rs : List Envelope)
      → q (newest numbers best rs) ≡ true
      → any q (best ∷ rs) ≡ true
  unfolding newest
  newest-one q best [] h = unfold any in ground arith
  newest-one q best (r ∷ rs) h =
      newer_of-one q best r rs (newest-one q (newer_of numbers best r) rs h)

  -- None of them surpasses it.
  newest-top :
      (best : Envelope) (rs : List Envelope)
      → any (is_older numbers (newest numbers best rs)) (best ∷ rs) ≡ false
  newest-top best rs =
      sym (newest-any numbers (version_tuple numbers (newest numbers best rs).version) best rs)
      ∙ lt_irrefl (version_tuple numbers (newest numbers best rs).version)

  newest-is_newest :
      (results : List Envelope) (first : Envelope) (others : List Envelope)
      → select has_version results ≡ first ∷ others
      → any (is_newest numbers results (newest numbers first others).version) results ≡ true
  newest-is_newest results first others all =
      let top = newest numbers first others in
      let unbeaten : Envelope → Bool = λ q.
        not (any (λ o. has_version o && is_older numbers q o) results)
        && q.version == top.version in
      sym (any-select unbeaten has_version results)
      ∙ ap (any unbeaten) all
      ∙ newest-one unbeaten first others (
          ground (
            arith,
            any-select (is_older numbers top) has_version results,
            ap (any (is_older numbers top)) all,
            newest-top first others,
            beq_refl top.version,
          ))

none_newest :
    (numbers : String → List ℕ) (results rs : List Envelope) (top : String)
    → select has_version rs ≡ []
    → any (is_newest numbers results top) rs ≡ any has_version rs
unfolding select any
none_newest numbers results [] top h = refl
none_newest numbers results (r ∷ rs) top h = ground (arith, none_newest numbers results rs top)

some_version :
    (rs : List Envelope) (first : Envelope) (others : List Envelope)
    → select has_version rs ≡ first ∷ others
    → any has_version rs ≡ true
unfolding select any
some_version [] first others h = ground arith
some_version (r ∷ rs) first others h = ground (arith, some_version rs first others)

skewed :
    (numbers : String → List ℕ) (results versioned : List Envelope)
    → select has_version results ≡ versioned
    → (top : String) × (flag_among numbers versioned results
        ≡ map (mark numbers top results) results)
      × (any (is_newest numbers results top) results ≡ any has_version results)
unfolding flag_among
skewed numbers results [] h =
    ("", none_marked numbers results results "" h, none_newest numbers results results "" h)
skewed numbers results (first ∷ []) h = (
  first.version,
  one_marked numbers results results first first.version h h,
  unfold newest in
      newest-is_newest numbers results first [] h ∙ sym (some_version results first [] h),
)
skewed numbers results (first ∷ second ∷ others) h = (
  (newest numbers first (second ∷ others)).version,
  many_marked numbers results results first (second ∷ others) h,
  newest-is_newest numbers results first (second ∷ others) h
      ∙ sym (some_version results first (second ∷ others) h),
)

-- Exactly the hosts are marked that answered as a nexus node with a version older than that of another
-- such host of the fleet. The mark is the version of such a host that none surpasses, one and the same for
-- all of them; nothing else of any envelope changes, and the order of the hosts stays.
pub flag_version_skew-behind :
    (numbers : String → List ℕ) (results : List Envelope)
    → (top : String) × (flag_version_skew numbers results ≡ map (mark numbers top results) results)
      × (any (is_newest numbers results top) results ≡ any has_version results)
unfolding flag_version_skew
flag_version_skew-behind numbers results = skewed numbers results (select has_version results) refl
