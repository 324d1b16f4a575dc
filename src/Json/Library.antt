-- ===== src/Json/Library.antt =====
-- rapidjson, as src/public/rpc_pb2js.cpp calls it. `object members` and `array elements` are the values
-- of these kinds with what they hold; `fault` is a failed RAPIDJSON_ASSERT. `member` is
-- `value[name]`: the value behind the reference, and the value that holds it after a change.
use frrpc.Prelude.{List, [], ◌∷◌, ◌++◌, ◌≡◌, ◌≢◌}
use frrpc.Prelude.Outcome.{Outcome, ok, fault}
use frrpc.Prelude.Int.{ℤ}
use frrpc.Wire.Bytes.{Bytes}

-- No member has the name.
abbrev pub Missing {ℓ} : {V : Type ℓ} → Bytes → List (Bytes × V) → Type 0
Missing name [] = Unit
Missing name ((other, _) ∷ members) = (other ≢ name) × Missing name members

pub record JsonLibrary : Type 1 where
  pub Value : Type 0
  pub null : Value
  pub number : ℤ → Value
  pub text : Bytes → Value
  pub object : List (Bytes × Value) → Value
  pub array : List Value → Value
  pub add_member : Value → Bytes → Value → Outcome Value
  pub push_back : Value → Value → Outcome Value
  pub member : Value → Bytes → Outcome (Value × (Value → Value))
  pub accept : Value → Bytes
  pub add_member-object :
      (members : List (Bytes × Value)) (name : Bytes) (value : Value)
      → add_member (object members) name value ≡ ok (object (members ++ (name, value) ∷ []))
  pub add_member-null : (name : Bytes) (value : Value) → add_member null name value ≡ fault
  pub push_back-array :
      (elements : List Value) (value : Value)
      → push_back (array elements) value ≡ ok (array (elements ++ value ∷ []))
  pub member-object :
      (members : List (Bytes × Value)) (name : Bytes)
      → Missing name members
      → member (object members) name ≡ fault
  pub member-null : (name : Bytes) → member null name ≡ fault
