-- ===== src/Fleet/Window.antt =====
-- app.py: `clean_until`, the end of a maintenance window, against `expire_pauses`, which ends it.
use nexus_controller.Prelude.{
  ℕ, ◌+◌, ◌-◌, ◌*◌, ◌/◌, ◌≤◌, ◌<◌, String, ◌≡◌, refl, ap, ◌∙◌, inl, inr, true, false, Option, none,
  some, List, [], ◌∷◌, ◌++◌, arith, ltb, leb, if◌then◌else◌, lt→ltb, leb-false→lt, Bool-cases,
  Checked, ok, err, nat_eq, string_eq, pair_eq,
}
use nexus_controller.Prelude.Text
use nexus_controller.Platform.{Platform, Datetime, aware, in_utc}
use nexus_controller.Fleet.{Node, is_expired, resume, expire_pauses}

abbrev pub pause_max_days : ℕ
pause_max_days = 90

-- timedelta(days=1) in microseconds
abbrev pub day : ℕ
day = 86400000000

abbrev pub second : ℕ
second = 1000000

abbrev pub bad_until : String
bad_until = "disabled_until must be an ISO-8601 timestamp"

-- `write` is `t.astimezone(timezone.utc).isoformat(timespec='seconds')`; `none` is a value that is no
-- text.
abbrev pub parsed_until : (ℕ → String) → ℕ → Option Datetime → Checked String
parsed_until write now none = err bad_until
parsed_until write now (some t) =
    if leb (in_utc t) now
    then err "disabled_until must be in the future"
    else (if ltb pause_max_days ((in_utc t - now) / day)
        then err "disabled_until must be within 90 days"
        else ok (write (in_utc t)))

unfoldable pub clean_until : Platform → (ℕ → String) → Option String → ℕ → Checked String
clean_until p write none now = err bad_until
clean_until p write (some v) now =
    let s = Text.strip v in
    if Text.is_empty s
    then err bad_until
    else parsed_until write now (p.from_iso (Text.replace_char b'Z' "+00:00" s))

-- What the platform promises: a text that it writes is not empty and reads back as the same instant, cut
-- to the second.
pub record IsIso (p : Platform) (write : ℕ → String) : Type 0 where
  pub written : (t : ℕ) → Text.is_empty (write t) ≡ false
  pub reads :
      (t : ℕ)
      → p.from_iso (Text.replace_char b'Z' "+00:00" (write t)) ≡ some (aware (t / second * second))

parsed :
    (write : ℕ → String) (now : ℕ) (t : Option Datetime) (u : String)
    → parsed_until write now t ≡ ok u
    → (end : ℕ) × (u ≡ write end) × (now < end) × ((end - now) / day ≤ pause_max_days)
parsed write now none u h = ground arith
parsed write now (some t) u h = (
  in_utc t,
  ground arith,
  ground (arith, leb-false→lt (in_utc t) now),
  ground (arith, lt→ltb pause_max_days ((in_utc t - now) / day)),
)

accepted :
    (p : Platform) (write : ℕ → String) (given : Option String) (now : ℕ) (u : String)
    → clean_until p write given now ≡ ok u
    → (end : ℕ) × (u ≡ write end) × (now < end) × ((end - now) / day ≤ pause_max_days)
unfolding clean_until
accepted p write none now u h = ground arith
accepted p write (some v) now u h = elim (Bool-cases (Text.is_empty (Text.strip v))) [
  | inl empty ↦ ground arith
  | inr given ↦
      parsed write now (p.from_iso (Text.replace_char b'Z' "+00:00" (Text.strip v))) u
        (ground arith)
]

cut_after : (end now : ℕ) → now < end → now < end / second * second + second
cut_after end now h = omega arith

cut_before :
    (end now : ℕ)
    → now < end
    → (end - now) / day ≤ pause_max_days
    → end / second * second < now + 91 * day
cut_before end now h k = omega arith

-- A run treats each record for itself.
nodes-append :
    (p : Platform) (now : ℕ) (before : List Node) (n : Node) (after : List Node)
    → (expire_pauses p now (before ++ n ∷ after)).0
      ≡ (expire_pauses p now before).0
        ++ (if is_expired p now n then resume n else n) ∷ (expire_pauses p now after).0
unfolding expire_pauses
nodes-append p now [] n after = ground arith
nodes-append p now (m ∷ before) n after = ground (arith, nodes-append p now before n after)

-- A host with a window that was accepted is due from the second of its end on.
due :
    (p : Platform) (write : ℕ → String) (u : String) (n : Node) (end later : ℕ)
    → IsIso p write
    → u ≡ write end
    → is_expired p later (record n { disabled = true; disabled_until = u })
      ≡ leb (end / second * second) later
unfolding is_expired
due p write u n end later iso is = ground (
  arith,
  iso.written end,
  iso.reads end,
  ap (λ t. p.from_iso (Text.replace_char b'Z' "+00:00" t)) is,
  ap Text.is_empty is,
)

-- A maintenance window that is accepted ends, on a platform that reads back to the second what it
-- writes: there is one second, in the future or the current one and less than 91 days ahead, such that
-- a host that is paused until then stays paused in each run of `expire_pauses` before it, and is
-- resumed, with the end of its pause cleared, by each run from it on, wherever it stands in the
-- registry and whatever the runs do to the other records.
pub clean_until-ends :
    (p : Platform) (write : ℕ → String) (given : Option String) (now : ℕ) (u : String) (n : Node)
    → IsIso p write
    → clean_until p write given now ≡ ok u
    → (end : ℕ) × (now < end + second)
      × (end < now + 91 * day)
      × ((later : ℕ) (before after : List Node)
          → (expire_pauses p later
              (before ++ record n { disabled = true; disabled_until = u } ∷ after)).0
            ≡ (expire_pauses p later before).0
              ++ (if leb end later
                  then record n { disabled = false; disabled_until = "" }
                  else record n { disabled = true; disabled_until = u })
                ∷ (expire_pauses p later after).0)
clean_until-ends p write given now u n iso h =
    let (end, is, after, near) = accepted p write given now u h in
    (
      end / second * second,
      cut_after end now after,
      cut_before end now after near,
      λ later before rest.
          nodes-append p later before (record n { disabled = true; disabled_until = u }) rest
          ∙ rw (due p write u n end later iso is) refl,
    )
