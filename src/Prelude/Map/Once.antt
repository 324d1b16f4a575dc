-- ===== src/Prelude/Map/Once.antt =====
-- A key stands in a map once.
use mathlib.Core.Path.{◌≡◌, refl, sym, subst}
use mathlib.Core.List.{[], ◌∷◌}
use mathlib.Core.Option.{none}
use native.Mathlib.Omega.{arith}
use frrpc.Prelude.Tests.{Key, Option-cases}
use frrpc.Prelude.Map.{Map, lookup, place, insert, lookup-place, some}
use mathlib.Core.Logic.{inl, inr}

module _ {ℓ κ} {K : Type ℓ} {V : Type κ} ⦃e : Key K⦄ where
  abbrev pub Once : Map K V → Type κ
  Once [] = Unit
  Once ((k, v) ∷ m) = (lookup k m ≡ none) × Once m

  place-Once : (k : K) (v : V) (m : Map K V) → lookup k m ≡ none → Once m → Once (place k v m)
  unfolding place lookup
  place-Once k v [] h w = (refl, tt)
  place-Once k v ((j, x) ∷ m) h w =
      ground (arith, lookup-place k j v m, e.beq_iff j k, e.beq_iff k j, place-Once k v m)

  insert-new : (k : K) (v : V) (m : Map K V) → lookup k m ≡ none → insert k v m ≡ place k v m
  unfolding insert
  insert-new k v m new = ground arith

  insert-old : (k : K) (v x : V) (m : Map K V) → lookup k m ≡ some x → insert k v m ≡ m
  unfolding insert
  insert-old k v x m old = ground arith

  pub insert-Once : (k : K) (v : V) (m : Map K V) → Once m → Once (insert k v m)
  insert-Once k v m w = elim (Option-cases (lookup k m)) [
    | inl new ↦ subst Once (sym (insert-new k v m new)) (place-Once k v m new w)
    | inr (x, old) ↦ subst Once (sym (insert-old k v x m old)) w
  ]
