-- ===== src/Settings/Recent.antt =====
-- app.py: `_notify_events` and `_record_events`, the events that the Notify page lists.
use nexus_controller.Prelude.{
  ℕ, zero, suc, ◌+◌, ◌-◌, ◌≤◌, String, ◌≡◌, refl, sym, ap, ◌∙◌, List, [], ◌∷◌, ◌++◌, map, arith,
  nat_eq, string_eq, pair_eq, length, length-append,
}
use mathlib.Core.List.{append-nil, append_assoc, reverse}
use nexus_controller.Monitoring.Snapshot.{Event}

-- deque(maxlen=100)
abbrev pub max_events : ℕ
max_events = 100

abbrev pub drop {ℓ} : {A : Type ℓ} → ℕ → List A → List A
drop zero xs = xs
drop (suc n) [] = []
drop (suc n) (x ∷ xs) = drop n xs

module _ {ℓ} {E : Type ℓ} where
  -- `append` of a deque of bounded length: the oldest item gives way.
  unfoldable pub append : ℕ → List E → E → List E
  append n ring e = drop (length (ring ++ e ∷ []) - n) (ring ++ e ∷ [])

  -- The loop of `_record_events`; each event already carries its time stamp.
  unfoldable pub extend : ℕ → List E → List E → List E
  extend n ring [] = ring
  extend n ring (e ∷ es) = extend n (append n ring e) es

-- xs[-n:]
abbrev pub last {ℓ} : {A : Type ℓ} → ℕ → List A → List A
last n xs = drop (length xs - n) xs

length-drop : {A : Type 0} (n : ℕ) (xs : List A) → length (drop n xs) ≡ length xs - n
length-drop zero xs = omega arith
length-drop (suc n) [] = omega arith
length-drop (suc n) (x ∷ xs) = omega (arith, length-drop n xs)

drop-append :
    {A : Type 0} (n : ℕ) (xs ys : List A) → n ≤ length xs → drop n (xs ++ ys) ≡ drop n xs ++ ys
drop-append zero xs ys h = refl
drop-append (suc n) [] ys h = ground (arith, h)
drop-append (suc n) (x ∷ xs) ys h = drop-append n xs ys (omega arith)

suc_add : (m n : ℕ) → suc (m + n) ≡ suc m + n
suc_add m n = omega arith

drop-nil : {A : Type 0} (n : ℕ) → drop {A = A} n [] ≡ []
drop-nil zero = refl
drop-nil (suc n) = refl

drop-drop : {A : Type 0} (n m : ℕ) (xs : List A) → drop n (drop m xs) ≡ drop (m + n) xs
drop-drop n zero xs = ap (λ k. drop k xs) (omega arith)
drop-drop n (suc m) [] = drop-nil n ∙ sym (drop-nil (suc m + n))
drop-drop n (suc m) (x ∷ xs) = drop-drop n m xs ∙ ap (λ k. drop k (x ∷ xs)) (suc_add m n)

-- Appending to the last n items and taking the last n of that is taking the last n of everything.
append-last :
    {A : Type 0} (n : ℕ) (xs : List A) (e : A) → append n (last n xs) e ≡ last n (xs ++ e ∷ [])
unfolding append
append-last n xs e =
    let whole = xs ++ e ∷ [] in
    let cut = length xs - n in
    let same = drop-append cut xs (e ∷ []) (omega arith) in
    ap (λ ys. drop (length ys - n) ys) (sym same)
    ∙ drop-drop (length (drop cut whole) - n) cut whole
    ∙ ap (λ k. drop k whole) (omega (arith, length-drop cut whole, length-append xs (e ∷ [])))

extend-last : {A : Type 0} (n : ℕ) (xs es : List A) → extend n (last n xs) es ≡ last n (xs ++ es)
unfolding extend
extend-last n xs [] = ap (last n) (sym (append-nil xs))
extend-last n xs (e ∷ es) =
    rw (append-last n xs e)
      (extend-last n (xs ++ e ∷ []) es ∙ ap (last n) (append_assoc xs (e ∷ []) es))

-- An event of a cycle with the cycle's time stamp.
abbrev pub Stamped : Type 0
Stamped = Event × String

abbrev pub stamp : String → List Event → List Stamped
stamp ts = map (λ e. (e, ts))

unfoldable pub record_events : String → List Event → List Stamped → List Stamped
record_events ts events ring = extend max_events ring (stamp ts events)

-- What /api/notifications/events lists.
unfoldable pub notifications_events : List Stamped → List Stamped
notifications_events ring = reverse ring

-- The cycles since the start, each with its time and its events.
unfoldable pub record_all : List (String × List Event) → List Stamped → List Stamped
record_all [] ring = ring
record_all ((ts, events) ∷ rounds) ring = record_all rounds (record_events ts events ring)

abbrev pub told : List (String × List Event) → List Stamped
told [] = []
told ((ts, events) ∷ rounds) = stamp ts events ++ told rounds

record_all-from :
    (xs : List Stamped) (rounds : List (String × List Event))
    → record_all rounds (last max_events xs) ≡ last max_events (xs ++ told rounds)
unfolding record_all record_events
record_all-from xs [] = ap (last max_events) (sym (append-nil xs))
record_all-from xs ((ts, events) ∷ rounds) =
    let es = stamp ts events in
    ap (record_all rounds) (extend-last max_events xs es)
    ∙ record_all-from (xs ++ es) rounds
    ∙ ap (last max_events) (append_assoc xs es (told rounds))

-- Whatever events the cycles since the start record, the Notify page lists exactly the last hundred of
-- all of them, the newest first; so never more than a hundred.
pub record_all-last :
    (rounds : List (String × List Event))
    → (notifications_events (record_all rounds []) ≡ reverse (last max_events (told rounds)))
      × (length (record_all rounds []) ≤ max_events)
unfolding notifications_events
record_all-last rounds =
    let is = record_all-from [] rounds in
    (
      ap reverse is,
      ground (arith, ap length is, length-drop (length (told rounds) - max_events) (told rounds)),
    )
