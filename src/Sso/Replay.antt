-- ===== src/Sso/Replay.antt =====
-- sso.py: the replay cache of `verify` over a sequence of tokens.
use nexus_controller.Prelude.{
  ℕ, ◌≤◌, String, ◌≡◌, refl, ap, ◌∙◌, inl, inr, true, false, Option, none, some, List, [], ◌∷◌,
  arith, eq_iff, Bool-cases, ◌==◌, beq_refl, nat_eq, string_eq, pair_eq, select,
}
use nexus_controller.Prelude.Dict
use nexus_controller.Prelude.Dict.{Dict, get-set, has-get}
use nexus_controller.Prelude.Int.{ℤ, pos, negsuc}
use nexus_controller.Sso.{
  Codec, Issuer, Assertion, assertion, is_over, Seen, unexpired, remember, spend, verify,
}

get-unexpired :
    (jti : String) (exp : ℤ) (now : ℕ) (seen : Seen)
    → Dict.get jti seen ≡ some exp
    → is_over now exp ≡ false
    → Dict.get jti (unexpired now seen) ≡ some exp
unfolding Dict.get select
get-unexpired jti exp now [] h k = h
get-unexpired jti exp now ((j, e) ∷ seen) h k = elim (Bool-cases (j == jti)) [
  | inl same ↦ ground (arith, ap (is_over now) (head_exp same))
  | inr not_it ↦ ground (arith, get-unexpired jti exp now seen)
]
  where
    head_exp : j == jti ≡ true → e ≡ exp
    head_exp same = ground arith

get-remember :
    (jti other : String) (exp e : ℤ) (now : ℕ) (seen : Seen)
    → Dict.get jti seen ≡ some exp
    → is_over now exp ≡ false
    → Dict.get jti (remember other e now seen).1 ≡ some exp
unfolding remember
get-remember jti other exp e now seen h k = elim (Bool-cases (other == jti)) [
  | inl same ↦ ground (
    arith,
    get-unexpired jti exp now seen h k,
    has-get jti (unexpired now seen),
    ap (λ x. Dict.has x (unexpired now seen)) ((eq_iff other jti).0 same),
  )
  | inr fresh ↦
      ground (arith, get-unexpired jti exp now seen h k, get-set other jti e (unexpired now seen))
]

get-spend :
    (jti : String) (exp : ℤ) (a : Option Assertion) (now : ℕ) (seen : Seen)
    → Dict.get jti seen ≡ some exp
    → is_over now exp ≡ false
    → Dict.get jti (spend a now seen).1 ≡ some exp
unfolding spend
get-spend jti exp none now seen h k = h
get-spend jti exp (some a) now seen h k =
    ground (arith, get-remember jti a.jti exp a.exp now seen h k)

-- Tokens that arrive one after the other, each with the clock at its arrival.
unfoldable pub arrivals : Codec → Option Issuer → List (ℕ × String) → Seen → Seen
arrivals k cfg [] seen = seen
arrivals k cfg ((now, token) ∷ rest) seen = arrivals k cfg rest (verify k cfg token now seen).1

-- None of them arrives after a time.
abbrev pub Until : ℕ → List (ℕ × String) → Type 0
Until later [] = Unit {0}
Until later ((now, token) ∷ rest) = (now ≤ later) × Until later rest

is_over-le :
    (now later : ℕ) (exp : ℤ) → now ≤ later → is_over later exp ≡ false → is_over now exp ≡ false
is_over-le now later (pos n) h k = ground arith
is_over-le now later (negsuc n) h k = ground arith

get-arrivals :
    (k : Codec) (cfg : Option Issuer) (jti : String) (exp : ℤ) (later : ℕ)
    (rest : List (ℕ × String)) (seen : Seen)
    → Until later rest
    → is_over later exp ≡ false
    → Dict.get jti seen ≡ some exp
    → Dict.get jti (arrivals k cfg rest seen) ≡ some exp
unfolding arrivals verify
get-arrivals k cfg jti exp later [] seen u o h = h
get-arrivals k cfg jti exp later ((now, token) ∷ rest) seen u o h =
    get-arrivals k cfg jti exp later rest (verify k cfg token now seen).1 u.1 o
      (get-spend jti exp (assertion k cfg token) now seen h (is_over-le now later exp u.0 o))

-- An accepted assertion is in the cache afterwards.
spend-accepted :
    (a : Option Assertion) (now : ℕ) (seen : Seen) (sub : String)
    → (spend a now seen).0 ≡ some sub
    → (x : Assertion) × (a ≡ some x) × (Dict.get x.jti (spend a now seen).1 ≡ some x.exp)
unfolding spend remember
spend-accepted none now seen sub h = ground arith
spend-accepted (some a) now seen sub h =
    (a, refl, ground (arith, get-set a.jti a.jti a.exp (unexpired now seen), beq_refl a.jti))

spend-spent :
    (a : Assertion) (now : ℕ) (seen : Seen)
    → (is_over now a.exp ≡ false → Dict.get a.jti seen ≡ some a.exp)
    → (spend (some a) now seen).0 ≡ none
unfolding spend remember
spend-spent a now seen h = elim (Bool-cases (is_over now a.exp)) [
  | inl past ↦ ground arith
  | inr valid ↦ ground (
    arith,
    get-unexpired a.jti a.exp now seen (h valid) valid,
    has-get a.jti (unexpired now seen),
  )
]

-- An assertion is accepted once: after it has been accepted, and whatever tokens arrive after it up
-- to some time, the same token is refused at that time, by the cache or by its expiry.
pub verify-single_use :
    (k : Codec) (cfg : Option Issuer) (token sub : String) (now later : ℕ)
    (rest : List (ℕ × String)) (seen : Seen)
    → Until later rest
    → (verify k cfg token now seen).0 ≡ some sub
    → (verify k cfg token later (arrivals k cfg rest (verify k cfg token now seen).1)).0 ≡ none
unfolding verify
verify-single_use k cfg token sub now later rest seen u accepted =
    let (a, is, spent) = spend-accepted (assertion k cfg token) now seen sub accepted in
    let after = arrivals k cfg rest (spend (assertion k cfg token) now seen).1 in
    ap (λ x. (spend x later after).0) is
    ∙ spend-spent a later after (λ valid.
      get-arrivals k cfg a.jti a.exp later rest (spend (assertion k cfg token) now seen).1 u valid
        spent)
