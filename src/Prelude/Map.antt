-- ===== src/Prelude/Map.antt =====
-- `std::map` as a list of entries in the order of its iterators.
pub mod Once
use mathlib.Core.Path.{◌≡◌, refl}
use mathlib.Core.Bool.{Bool, true}
use mathlib.Core.List.{List, [], ◌∷◌}
use mathlib.Core.Option.{Option, none, some}
use native.Mathlib.Omega.{arith}
use frrpc.Prelude.Tests.{Key, if◌then◌else◌, is_some}

abbrev pub Map {ℓ κ} : Type ℓ → Type κ → Type (ℓ ⊔ κ)
Map K V = List (K × V)

abbrev pub keep_old {ℓ} : {V : Type ℓ} → Option V → V → V
keep_old none v = v
keep_old (some w) v = w

module _ {ℓ κ} {K : Type ℓ} {V : Type κ} ⦃e : Key K⦄ where
  unfoldable pub lookup : K → Map K V → Option V
  lookup k [] = none
  lookup k ((j, v) ∷ m) = if e.beq j k then some v else lookup k m

  unfoldable pub contains : K → Map K V → Bool
  unfolding lookup
  contains k m = is_some (lookup k m)

  -- The entry goes in front of the first key that is not before it.
  unfoldable pub place : K → V → Map K V → Map K V
  place k v [] = (k, v) ∷ []
  place k v ((j, w) ∷ m) = if e.before j k then (j, w) ∷ place k v m else (k, v) ∷ (j, w) ∷ m

  -- `insert(make_pair(k, v))`: an entry that is there stays.
  unfoldable pub insert : K → V → Map K V → Map K V
  unfolding place lookup
  insert k v m = elim (lookup k m) [ none ↦ place k v m | some w ↦ m ]

  -- `erase(k)`
  unfoldable pub erase : K → Map K V → Map K V
  erase k [] = []
  erase k ((j, v) ∷ m) = let rest = erase k m in if e.beq j k then rest else (j, v) ∷ rest

  -- A write through an iterator at `k`.
  unfoldable pub update : K → V → Map K V → Map K V
  update k v [] = []
  update k v ((j, w) ∷ m) = if e.beq j k then (j, v) ∷ m else (j, w) ∷ update k v m

  pub lookup-place :
      (k j : K) (v : V) (m : Map K V)
      → lookup k m ≡ none
      → lookup j (place k v m) ≡ (if e.beq k j then some v else lookup j m)
  unfolding lookup place
  lookup-place k j v [] h = refl
  lookup-place k j v ((i, w) ∷ m) h =
      ground (arith, e.beq_iff i k, e.beq_iff i j, e.beq_iff k j, lookup-place k j v m)

  pub lookup-insert :
      (k j : K) (v : V) (m : Map K V)
      → lookup j (insert k v m) ≡ (if e.beq k j then some (keep_old (lookup k m) v) else lookup j m)
  unfolding insert
  lookup-insert k j v m = ground (arith, e.beq_iff k j, lookup-place k j v m)

  pub lookup-erase :
      (k j : K) (m : Map K V) → lookup j (erase k m) ≡ (if e.beq k j then none else lookup j m)
  unfolding lookup erase
  lookup-erase k j [] = ground arith
  lookup-erase k j ((i, w) ∷ m) =
      ground (arith, e.beq_iff i k, e.beq_iff i j, e.beq_iff k j, lookup-erase k j m)

  pub lookup-update :
      (k j : K) (v : V) (m : Map K V)
      → lookup j (update k v m)
        ≡ (if e.beq k j then (elim (lookup k m) [ none ↦ none | some _ ↦ some v ]) else lookup j m)
  unfolding lookup update
  lookup-update k j v [] = ground arith
  lookup-update k j v ((i, w) ∷ m) =
      ground (arith, e.beq_iff i k, e.beq_iff i j, e.beq_iff k j, lookup-update k j v m)

module _ {ℓ κ} {K : Type ℓ} {V : Type κ} ⦃e : Key K⦄ where
  -- A write to an entry that is made if need be.
  pub lookup-update-insert :
      (k j : K) (v d : V) (m : Map K V)
      → lookup j (update k v (insert k d m)) ≡ (if e.beq k j then some v else lookup j m)
  lookup-update-insert k j v d m = ground (
    arith,
    e.beq_iff k k,
    lookup-update k j v (insert k d m),
    lookup-insert k k d m,
    lookup-insert k j d m,
  )

pub beq_self {ℓ} : {K : Type ℓ} ⦃e : Key K⦄ (k : K) → e.beq k k ≡ true
beq_self ⦃e⦄ k = (e.beq_iff k k).1 refl

pub lookup-nil {ℓ κ} : {K : Type ℓ} (V : Type κ) ⦃e : Key K⦄ (k : K) → lookup {V = V} k [] ≡ none
unfolding lookup
lookup-nil V k = refl
