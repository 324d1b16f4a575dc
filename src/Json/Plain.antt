-- ===== src/Json/Plain.antt =====
-- What `pbToJson` writes, described without its loops, and for which messages it gets to its end.
use frrpc.Prelude.{
  ℕ, Bool, true, false, List, [], ◌∷◌, ◌++◌, ◌≡◌, refl, arith, ltb, if◌then◌else◌, ◌==◌, ◌&&◌, ◌||◌,
  not,
}
use mathlib.Core.List.{append_assoc, append-nil}
use frrpc.Prelude.Outcome.{ok, fault}
use frrpc.Wire.Bytes.{Bytes}
use frrpc.Json.Names.{Unnamed, Distinct, AllMissing, AllMissing-snoc, AllMissing-nil}
use frrpc.Prelude.Int.{pos}
use frrpc.Json.Library.{Missing, JsonLibrary}
use frrpc.Json.{
  Message, end, field, Content, unset, single, repeated, Items, nil, cons, Item, nested, int32,
  uint32, int64, uint64, string, bytes, other, c_str, field_size, format_to_json, format_field,
  format_single, format_repeated_field, format_element, pb_to_json,
}

module _ (json : JsonLibrary) (byte_size : Message → ℕ) where
  open json use {Value, null, number, text, object, array, accept}
  open json use {add_member-object, add_member-null, push_back-array, member-object, member-null}

  -- A field that is set, of a type that the switch names, and no empty message.
  abbrev is_shown : Item → Bool
  is_shown (nested message) = not (byte_size message == 0)
  is_shown other = false
  is_shown (int32 n) = true
  is_shown (uint32 n) = true
  is_shown (int64 n) = true
  is_shown (uint64 n) = true
  is_shown (string s) = true
  is_shown (bytes s) = true

  abbrev shows : Content → Bool
  shows unset = false
  shows (single item) = is_shown item
  shows (repeated items) = ltb 0 (field_size items)

  pub writes : Message → Bool
  writes end = false
  writes (field name content rest) = shows content || writes rest

  -- An element that is no message with something to write.
  abbrev fits : Item → Bool
  fits (nested message) = byte_size message == 0 || not (writes message)
  fits other = true
  fits (int32 n) = true
  fits (uint32 n) = true
  fits (int64 n) = true
  fits (uint64 n) = true
  fits (string s) = true
  fits (bytes s) = true

  all_fit : Items → Bool
  all_fit nil = true
  all_fit (cons item items) = fits item && all_fit items

  abbrev is_plain_field : Content → Bool
  is_plain_field unset = true
  is_plain_field (repeated items) = all_fit items
  is_plain_field (single (nested message)) = byte_size message == 0
  is_plain_field (single item) = true

  pub is_plain : Message → Bool
  is_plain end = true
  is_plain (field name content rest) = is_plain_field content && is_plain rest

  abbrev element_value : Item → Value
  element_value (nested message) = null
  element_value other = null
  element_value (int32 n) = number n
  element_value (uint32 n) = number (pos n)
  element_value (int64 n) = number n
  element_value (uint64 n) = number (pos n)
  element_value (string s) = text s
  element_value (bytes s) = text s

  element_values : Items → List Value
  element_values nil = []
  element_values (cons item items) = element_value item ∷ element_values items

  abbrev entry : Bytes → Content → List (Bytes × Value)
  entry name unset = []
  entry name (repeated nil) = []
  entry name (repeated (cons item items)) = (name, array (element_values (cons item items))) ∷ []
  entry name (single (nested message)) = []
  entry name (single other) = []
  entry name (single (int32 n)) = (name, number n) ∷ []
  entry name (single (uint32 n)) = (name, number (pos n)) ∷ []
  entry name (single (int64 n)) = (name, number n) ∷ []
  entry name (single (uint64 n)) = (name, number (pos n)) ∷ []
  entry name (single (string s)) = (name, text (c_str s)) ∷ []
  entry name (single (bytes s)) = (name, text (c_str s)) ∷ []

  pub members_of : Message → List (Bytes × Value)
  members_of end = []
  members_of (field name content rest) = entry name content ++ members_of rest

  mutual
    unfolding format_to_json format_field format_single format_repeated_field format_element writes
        all_fit element_values field_size

    -- A null value has no room for a member.
    format_null :
        (message : Message)
        → format_to_json json byte_size null message ≡ (if writes message then fault else ok null)
    format_null end = refl
    format_null (field name unset rest) = format_null rest
    format_null (field name (repeated nil) rest) = format_null rest
    format_null (field name (repeated (cons item items)) rest) = ground (
      arith,
      format_items [] (cons item items),
      add_member-null name (array (element_values (cons item items))),
    )
    format_null (field name (single (nested message)) rest) =
        ground (arith, member-null name, format_null rest)
    format_null (field name (single other) rest) = format_null rest
    format_null (field name (single (int32 n)) rest) = rw (add_member-null name (number n))
    format_null (field name (single (uint32 n)) rest) = rw (add_member-null name (number (pos n)))
    format_null (field name (single (int64 n)) rest) = rw (add_member-null name (number n))
    format_null (field name (single (uint64 n)) rest) = rw (add_member-null name (number (pos n)))
    format_null (field name (single (string s)) rest) = rw (add_member-null name (text (c_str s)))
    format_null (field name (single (bytes s)) rest) = rw (add_member-null name (text (c_str s)))

    format_items :
        (elements : List Value) (items : Items)
        → format_repeated_field json byte_size (array elements) items
          ≡ (if all_fit items then ok (array (elements ++ element_values items)) else fault)
    format_items elements nil = rw (append-nil elements)
    format_items elements (cons item items) = ground (
      arith,
      format_element_lem item,
      push_back-array elements (element_value item),
      format_items (elements ++ element_value item ∷ []) items,
      append_assoc elements (element_value item ∷ []) (element_values items),
    )

    format_element_lem :
        (item : Item)
        → format_element json byte_size item
          ≡ (if fits item then ok (element_value item) else fault)
    format_element_lem (nested message) = ground (arith, format_null message)
    format_element_lem other = refl
    format_element_lem item = refl

  -- One field of an object.
  format_field_lem :
      (members : List (Bytes × Value)) (name : Bytes) (content : Content)
      → Missing name members
      → format_field json byte_size (object members) name content
        ≡ (if is_plain_field content then ok (object (members ++ entry name content)) else fault)
  unfolding format_to_json field_size all_fit element_values
  format_field_lem members name unset h = rw (append-nil members)
  format_field_lem members name (repeated nil) h = rw (append-nil members)
  format_field_lem members name (repeated (cons item items)) h = ground (
    arith,
    format_items [] (cons item items),
    add_member-object members name (array (element_values (cons item items))),
  )
  format_field_lem members name (single (nested message)) h =
      ground (arith, member-object members name, append-nil members)
  format_field_lem members name (single other) h = rw (append-nil members)
  format_field_lem members name (single (int32 n)) h = add_member-object members name (number n)
  format_field_lem members name (single (uint32 n)) h =
      add_member-object members name (number (pos n))
  format_field_lem members name (single (int64 n)) h = add_member-object members name (number n)
  format_field_lem members name (single (uint64 n)) h =
      add_member-object members name (number (pos n))
  format_field_lem members name (single (string s)) h =
      add_member-object members name (text (c_str s))
  format_field_lem members name (single (bytes s)) h =
      add_member-object members name (text (c_str s))

  AllMissing-entry :
      (name : Bytes) (content : Content) (message : Message) (members : List (Bytes × Value))
      → AllMissing message members
      → Unnamed name message
      → AllMissing message (members ++ entry name content)
  AllMissing-entry name unset message members h u = rw (append-nil members) h
  AllMissing-entry name (repeated nil) message members h u = rw (append-nil members) h
  AllMissing-entry name (single (nested m)) message members h u = rw (append-nil members) h
  AllMissing-entry name (single other) message members h u = rw (append-nil members) h
  AllMissing-entry name (single item) message members h u =
      AllMissing-snoc message name _ members h u
  AllMissing-entry name (repeated (cons item items)) message members h u =
      AllMissing-snoc message name _ members h u

  format_object :
      (members : List (Bytes × Value)) (message : Message)
      → AllMissing message members
      → Distinct message
      → format_to_json json byte_size (object members) message
        ≡ (if is_plain message then ok (object (members ++ members_of message)) else fault)
  unfolding format_to_json is_plain members_of
  format_object members end h d = rw (append-nil members)
  format_object members (field name content rest) h d = ground (
    arith,
    format_field_lem members name content h.0,
    format_object (members ++ entry name content) rest
        (AllMissing-entry name content rest members h.1 d.0) d.1,
    append_assoc members (entry name content) (members_of rest),
  )

  -- Where the names of the fields differ, as a descriptor has them, `pbToJson` comes to its end
  -- exactly for the plain messages: no set field holds a message of a size other than 0, and no
  -- element of a repeated field is a message with anything to write. Then the text is that of one
  -- object with a member for each set field of the named types, in their order; strings end at a
  -- zero byte, but not within a repeated field. For every other message an assertion fails.
  pub pb_to_json_lem :
      (message : Message)
      → Distinct message
      → pb_to_json json byte_size message
        ≡ (if is_plain message then ok (c_str (accept (object (members_of message)))) else fault)
  unfolding pb_to_json
  pb_to_json_lem message d =
      ground (arith, format_object [] message (AllMissing-nil Value message) d)
