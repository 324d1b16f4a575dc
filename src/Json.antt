-- ===== src/Json.antt =====
-- `pbToJson` of src/public/rpc_pb2js.{h,cpp}. A message is what protobuf's reflection shows of it: its
-- fields in the descriptor's order, each with its name, which holds no zero byte, and what is set.
pub mod Library
pub mod Names
pub mod Plain
use frrpc.Prelude.{ℕ, zero, suc, Bool, true, false, List, [], ◌∷◌, ltb, if◌then◌else◌, ◌==◌}
use frrpc.Prelude.Outcome.{Outcome, ok, ◌>>=◌}
use frrpc.Wire.Bytes.{Bytes}
use frrpc.Prelude.Int.{ℤ, pos}
use frrpc.Json.Library.{JsonLibrary}

-- `other` is a value of any type that the code's switches do not name.
mutual
  pub data Message : Type 0 where
    end : Message
    field : Bytes → Content → Message → Message

  pub data Content : Type 0 where
    unset : Content
    single : Item → Content
    repeated : Items → Content

  pub data Items : Type 0 where
    nil : Items
    cons : Item → Items → Items

  pub data Item : Type 0 where
    nested : Message → Item
    int32 : ℤ → Item
    uint32 : ℕ → Item
    int64 : ℤ → Item
    uint64 : ℕ → Item
    string : Bytes → Item
    bytes : Bytes → Item
    other : Item

-- What is read through `c_str()`: it ends at a zero byte.
unfoldable pub c_str : Bytes → Bytes
c_str [] = []
c_str (b ∷ bs) = let rest = b ∷ c_str bs in if b == 0 then [] else rest

unfoldable pub field_size : Items → ℕ
field_size nil = 0
field_size (cons item items) = suc (field_size items)

-- `byte_size` is protobuf's `ByteSize`.
module _ (json : JsonLibrary) (byte_size : Message → ℕ) where
  open json use {Value, null, number, text, object, array, add_member, push_back, member, accept}

  unfoldable mutual
    pub format_to_json : Value → Message → Outcome Value
    format_to_json value end = ok value
    format_to_json value (field name content rest) = do
      value' ← format_field value name content
      format_to_json value' rest

    pub format_field : Value → Bytes → Content → Outcome Value
    format_field value name unset = ok value
    format_field value name (single item) = format_single value name item
    format_field value name (repeated items) =
        if ltb 0 (field_size items)
        then (do
          value_array ← format_repeated_field (array []) items
          add_member value name value_array)
        else ok value

    pub format_single : Value → Bytes → Item → Outcome Value
    format_single value name (nested message) = if byte_size message == 0 then ok value else (do
      (inner, put_back) ← member value name
      inner' ← format_to_json inner message
      ok (put_back inner'))
    format_single value name (int32 n) = add_member value name (number n)
    format_single value name (uint32 n) = add_member value name (number (pos n))
    format_single value name (int64 n) = add_member value name (number n)
    format_single value name (uint64 n) = add_member value name (number (pos n))
    format_single value name (string s) = add_member value name (text (c_str s))
    format_single value name (bytes s) = add_member value name (text (c_str s))
    format_single value name other = ok value

    pub format_repeated_field : Value → Items → Outcome Value
    format_repeated_field value nil = ok value
    format_repeated_field value (cons item items) = do
      tmp_value ← format_element item
      value' ← push_back value tmp_value
      format_repeated_field value' items

    pub format_element : Item → Outcome Value
    format_element (nested message) =
        if byte_size message == 0 then ok null else format_to_json null message
    format_element (int32 n) = ok (number n)
    format_element (uint32 n) = ok (number (pos n))
    format_element (int64 n) = ok (number n)
    format_element (uint64 n) = ok (number (pos n))
    format_element (string s) = ok (text s)
    format_element (bytes s) = ok (text s)
    format_element other = ok null

  unfoldable pub pb_to_json : Message → Outcome Bytes
  unfolding format_to_json
  pb_to_json message = do value ← format_to_json (object []) message; ok (c_str (accept value))
