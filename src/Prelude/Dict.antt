-- ===== src/Prelude/Dict.antt =====
-- Python's `dict`: the pairs in insertion order. Writing an old key keeps its place.
use mathlib.Core.Path.{◌≡◌, refl, ap}
use mathlib.Core.Bool.{Bool, true, false, not, ◌&&◌, ◌||◌}
use mathlib.Core.Option.{Option, none, some}
use mathlib.Core.Logic.{inl, inr}
use mathlib.Core.List.{List, [], ◌∷◌, map}
use native.Mathlib.Omega.{arith}
use nexus_controller.Prelude.Tests.{if◌then◌else◌, Bool-cases}
use nexus_controller.Prelude.Keys.{KeyEq, ◌==◌}
use nexus_controller.Prelude.Lists.{contains, any}

abbrev pub Dict {ℓ} : Type ℓ → Type ℓ → Type ℓ
Dict K V = List (K × V)

module _ {ℓ} {K V : Type ℓ} where
  abbrev pub keys : Dict K V → List K
  keys = map (λ p. p.0)

-- The test of the value that a lookup found, false if it found none.
abbrev pub at {ℓ} : {V : Type ℓ} → (V → Bool) → Option V → Bool
at q none = false
at q (some v) = q v

module _ {ℓ} {K V : Type ℓ} ⦃e : KeyEq K⦄ where
  -- d.get(k)
  unfoldable pub get : K → Dict K V → Option V
  get k [] = none
  get k ((j, v) ∷ d) = if j == k then some v else get k d

  -- d[k] = v
  unfoldable pub set : K → V → Dict K V → Dict K V
  set k v [] = (k, v) ∷ []
  set k v ((j, w) ∷ d) = if j == k then (j, v) ∷ d else (j, w) ∷ set k v d

  -- `for k in [k for k in d if not keep(k)]: del d[k]`
  unfoldable pub retain : (K → Bool) → Dict K V → Dict K V
  retain keep [] = []
  retain keep ((j, v) ∷ d) = let rest = retain keep d in if keep j then (j, v) ∷ rest else rest

  -- d.pop(k, None)
  unfoldable pub delete : K → Dict K V → Dict K V
  unfolding retain
  delete k d = retain (λ j. not (j == k)) d

  -- k in d
  unfoldable pub has : K → Dict K V → Bool
  has k [] = false
  has k ((j, v) ∷ d) = j == k || has k d

  pub get-set :
      (k j : K) (v : V) (d : Dict K V) → get j (set k v d) ≡ (if k == j then some v else get j d)
  unfolding get set
  get-set k j v [] = refl
  get-set k j v ((i, w) ∷ d) =
      ground (arith, e.beq_iff k j, e.beq_iff i k, e.beq_iff i j, get-set k j v d)

  pub get-retain :
      (keep : K → Bool) (j : K) (d : Dict K V)
      → get j (retain keep d) ≡ (if keep j then get j d else none)
  unfolding get retain
  get-retain keep j [] = ground arith
  get-retain keep j ((i, w) ∷ d) = elim (Bool-cases (i == j)) [
    | inl same ↦ ground (arith, ap keep ((e.beq_iff i j).0 same), get-retain keep j d)
    | inr other ↦ ground (arith, get-retain keep j d)
  ]

  pub get-delete :
      (k j : K) (d : Dict K V) → get j (delete k d) ≡ (if k == j then none else get j d)
  unfolding delete
  get-delete k j d =
      ground (arith, get-retain (λ i. not (i == k)) j d, e.beq_iff j k, e.beq_iff k j)

  pub has-get : (k : K) (d : Dict K V) → has k d ≡ elim (get k d) [ none ↦ false | some _ ↦ true ]
  unfolding has get
  has-get k [] = refl
  has-get k ((j, v) ∷ d) = ground (arith, has-get k d)

  pub contains-keys : (k : K) (d : Dict K V) → contains (keys d) k ≡ has k d
  unfolding contains has
  contains-keys k [] = refl
  contains-keys k ((j, v) ∷ d) = ground (arith, contains-keys k d)

  pub has-set : (k j : K) (v : V) (d : Dict K V) → has j (set k v d) ≡ (k == j || has j d)
  unfolding has set
  has-set k j v [] = refl
  has-set k j v ((i, w) ∷ d) =
      ground (arith, e.beq_iff k j, e.beq_iff i k, e.beq_iff i j, has-set k j v d)

  pub has-retain :
      (keep : K → Bool) (j : K) (d : Dict K V) → has j (retain keep d) ≡ (keep j && has j d)
  unfolding has retain
  has-retain keep j [] = ground arith
  has-retain keep j ((i, w) ∷ d) = elim (Bool-cases (i == j)) [
    | inl same ↦ ground (arith, ap keep ((e.beq_iff i j).0 same), has-retain keep j d)
    | inr other ↦ ground (arith, has-retain keep j d)
  ]

  pub has-delete : (k j : K) (d : Dict K V) → has j (delete k d) ≡ (not (j == k) && has j d)
  unfolding delete
  has-delete k j d = has-retain (λ i. not (i == k)) j d

  -- No key stands twice, which a Python dict gives for nothing.
  unfoldable pub unique : Dict K V → Bool
  unique [] = true
  unique ((j, v) ∷ d) = not (has j d) && unique d

  pub unique-set : (k : K) (v : V) (d : Dict K V) → unique d ≡ true → unique (set k v d) ≡ true
  unfolding unique set has
  unique-set k v [] h = refl
  unique-set k v ((i, w) ∷ d) h =
      ground (arith, e.beq_iff k i, e.beq_iff i k, has-set k i v d, unique-set k v d)

  pub unique-retain :
      (keep : K → Bool) (d : Dict K V) → unique d ≡ true → unique (retain keep d) ≡ true
  unfolding unique retain
  unique-retain keep [] h = refl
  unique-retain keep ((i, w) ∷ d) h = ground (arith, has-retain keep i d, unique-retain keep d)

  absent-any :
      (q : V → Bool) (k : K) (d : Dict K V)
      → has k d ≡ false
      → any (λ p. p.0 == k && q p.1) d ≡ false
  unfolding has any
  absent-any q k [] h = refl
  absent-any q k ((i, w) ∷ d) h = ground (arith, absent-any q k d)

  -- A search through the items finds a key exactly if the lookup does.
  pub any-at :
      (q : V → Bool) (k : K) (d : Dict K V)
      → unique d ≡ true
      → any (λ p. p.0 == k && q p.1) d ≡ at q (get k d)
  unfolding get unique any
  any-at q k [] h = refl
  any-at q k ((i, w) ∷ d) h = elim (Bool-cases (i == k)) [
    | inl same ↦ ground (arith, absent-any q k d, ap (λ j. has j d) ((e.beq_iff i k).0 same))
    | inr other ↦ ground (arith, any-at q k d)
  ]

  -- A key that is missing is at no item.
  pub unique-head : (k : K) (v : V) (d : Dict K V) → unique ((k, v) ∷ d) ≡ true → get k d ≡ none
  unfolding unique
  unique-head k v d h = ground (arith, has-get k d)

  pub unique-tail : (k : K) (v : V) (d : Dict K V) → unique ((k, v) ∷ d) ≡ true → unique d ≡ true
  unfolding unique
  unique-tail k v d h = ground arith
