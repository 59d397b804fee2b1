-- ===== src/Monitoring/Acks.antt =====
-- monitoring.py: acknowledgements of known conditions. Clock readings (`time.time()`) are
-- microseconds, `ts` and `until` whole seconds.
use nexus_controller.Prelude.{
  ℕ, ◌+◌, ◌*◌, ◌/◌, String, Bool, true, false, not, ◌&&◌, ◌||◌, Option, none, some, List, [], ◌∷◌,
  ltb, leb, nat_beq, if◌then◌else◌, Checked, ok, err, nat_eq, string_eq, pair_eq, contains,
}
use Prim.Native.Char.{code}
use nexus_controller.Prelude.Text
use nexus_controller.Prelude.Dict
use nexus_controller.Prelude.Dict.{Dict}
use nexus_controller.Envelope.{Ack, Entry}
use nexus_controller.Monitoring.Alerts.{one_line}

abbrev pub ack_max_hours : ℕ
ack_max_hours = 720

abbrev pub second : ℕ
second = 1000000

-- acks.json: the key is `<host_id>|<key>`.
abbrev pub Acks : Type 0
Acks = Dict String Ack

unfoldable pub ack_key : String → String → String
ack_key host_id key = Text.concat (host_id ∷ "|" ∷ key ∷ [])

-- `hid, _, key = k.partition('|')`, as `acks_list` reads the keys back
unfoldable pub partition_bar : String → String × String
partition_bar Prim.Native.String.String.[] = ("", "")
partition_bar (Prim.Native.String.String.◌∷◌ c s) =
    let (front, back) = partition_bar s in
    if nat_beq (code c) b'|' then ("", s) else (Prim.Native.String.String.◌∷◌ c front, back)

-- The `hours` of a request: None, '' or 0; a value that float() refuses; a number that is zero,
-- negative or not a number at all; or a positive number, as the microseconds that it comes to.
pub data Hours : Type 0 where
  missing junk not_positive : Hours
  micros : ℕ → Hours

unfoldable pub make_ack : String → String → ℕ → Option ℕ → Ack
make_ack author note now until = record {
  author = author;
  note = one_line note 200;
  ts = now / second;
  until = until;
}

unfoldable pub clean_ack : Hours → String → String → ℕ → Checked Ack
unfolding make_ack
clean_ack missing note author now = ok (make_ack author note now none)
clean_ack junk note author now = err "hours must be a number"
clean_ack not_positive note author now = err "hours must be between 0 and 720"
clean_ack (micros n) note author now =
    if ltb 0 n && leb n (ack_max_hours * 3600 * second)
    then ok (make_ack author note now (some ((now + n) / second)))
    else err "hours must be between 0 and 720"

-- `a.get('until') is None or a['until'] > now`
unfoldable pub is_current : ℕ → Ack → Bool
is_current now a = elim a.until [ none ↦ true | some until ↦ ltb now (until * second) ]

-- The ack that covers an entry, if one is there and current.
unfoldable pub current_ack : Acks → String → ℕ → Entry → Option Ack
unfolding ack_key is_current
current_ack acks host_id now e = elim (Dict.get (ack_key host_id e.key) acks) [
  | none ↦ none
  | some a ↦ if is_current now a then some a else none
]

unfoldable pub split_acked : List Entry → Acks → String → ℕ → List Entry × List (Entry × Ack)
split_acked [] acks host_id now = ([], [])
split_acked (e ∷ entries) acks host_id now =
    let (live, acked) = split_acked entries acks host_id now in
    elim (current_ack acks host_id now e) [
      | none ↦ (e ∷ live, acked)
      | some a ↦ (live, (e, a) ∷ acked)
    ]

-- `k not in present or (a.get('until') is not None and a['until'] <= now)`
unfoldable pub is_spent : List String → ℕ → String → Ack → Bool
is_spent present now k a =
    not (contains present k)
    || elim a.until [ none ↦ false | some until ↦ leb (until * second) now ]

-- The keys to remove, then `for k in gone: del acks[k]`.
unfoldable pub spent_keys : List String → ℕ → Acks → List String
spent_keys present now [] = []
spent_keys present now ((k, a) ∷ acks) =
    let rest = spent_keys present now acks in if is_spent present now k a then k ∷ rest else rest

unfoldable pub delete_all : List String → Acks → Acks
delete_all [] acks = acks
delete_all (k ∷ gone) acks = delete_all gone (Dict.delete k acks)

unfoldable pub prune_acks : Acks → List String → ℕ → List String × Acks
unfolding spent_keys delete_all
prune_acks acks present now = let gone = spent_keys present now acks in (gone, delete_all gone acks)
