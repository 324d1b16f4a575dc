-- ===== src/Json/Names.antt =====
-- The names of a message's fields, and the members of an object that have other names.
use frrpc.Prelude.{List, [], ◌∷◌, ◌++◌, ◌≢◌}
use frrpc.Wire.Bytes.{Bytes}
use frrpc.Json.Library.{Missing}
use frrpc.Json.{Message, end, field}

-- No field of the message has the name.
abbrev pub Unnamed : Bytes → Message → Type 0
Unnamed name end = Unit
Unnamed name (field other_name content rest) = (name ≢ other_name) × Unnamed name rest

-- The names of the fields differ, as a descriptor has them.
abbrev pub Distinct : Message → Type 0
Distinct end = Unit
Distinct (field name content rest) = Unnamed name rest × Distinct rest

abbrev pub AllMissing {ℓ} : {V : Type ℓ} → Message → List (Bytes × V) → Type 0
AllMissing end members = Unit
AllMissing (field name content rest) members = Missing name members × AllMissing rest members

Missing-snoc {ℓ} :
    {V : Type ℓ} (name other_name : Bytes) (value : V) (members : List (Bytes × V))
    → Missing name members
    → other_name ≢ name
    → Missing name (members ++ (other_name, value) ∷ [])
Missing-snoc name other_name value [] h ne = (ne, tt)
Missing-snoc name other_name value (m ∷ members) h ne =
    (h.0, Missing-snoc name other_name value members h.1 ne)

pub AllMissing-snoc {ℓ} :
    {V : Type ℓ} (message : Message) (name : Bytes) (value : V) (members : List (Bytes × V))
    → AllMissing message members
    → Unnamed name message
    → AllMissing message (members ++ (name, value) ∷ [])
AllMissing-snoc end name value members h u = tt
AllMissing-snoc (field n content rest) name value members h u =
    (Missing-snoc n name value members h.0 u.0, AllMissing-snoc rest name value members h.1 u.1)

pub AllMissing-nil {ℓ} : (V : Type ℓ) (message : Message) → AllMissing {V = V} message []
AllMissing-nil V end = tt
AllMissing-nil V (field n content rest) = (tt, AllMissing-nil V rest)
