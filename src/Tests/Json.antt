-- ===== src/Tests/Json.antt =====
-- Messages as JSON, with values that are trees.
use frrpc.Prelude.{ℕ, false, List, [], ◌∷◌, ◌++◌, none, some, ◌≡◌, refl, arith, ap, if◌then◌else◌}
use frrpc.Prelude.Int.{ℤ, pos}
use frrpc.Prelude.Outcome.{Outcome, ok, fault}
use frrpc.Wire.Bytes.{Bytes}
use frrpc.Json.Library.{JsonLibrary}
use frrpc.Json.{
  Message, end, field, unset, single, repeated, nil, cons, nested, int32, string, c_str, pb_to_json,
}
use frrpc.Json.Names.{Distinct}
use frrpc.Json.Plain.{is_plain, members_of, pb_to_json_lem}
use frrpc.Log.{LogLevel, new_log, msg_debug}
use frrpc.Log.Messages.{LogCall, after_calls, last_opened, msg_debug_lem}

mutual
  data Tree : Type 0 where
    leaf : Tree
    digits : ℤ → Tree
    chars : Bytes → Tree
    listed : Trees → Tree
    named : Members → Tree

  data Trees : Type 0 where
    no_tree : Trees
    tree : Tree → Trees → Trees

  data Members : Type 0 where
    no_member : Members
    entry : Bytes → Tree → Members → Members

abbrev trees : List Tree → Trees
trees [] = no_tree
trees (t ∷ ts) = tree t (trees ts)

abbrev members : List (Bytes × Tree) → Members
members [] = no_member
members ((name, t) ∷ ms) = entry name t (members ms)

abbrev snoc_tree : Trees → Tree → Trees
snoc_tree no_tree t = tree t no_tree
snoc_tree (tree u us) t = tree u (snoc_tree us t)

abbrev snoc_member : Members → Bytes → Tree → Members
snoc_member no_member name t = entry name t no_member
snoc_member (entry other u ms) name t = entry other u (snoc_member ms name t)

trees-snoc : (ts : List Tree) (t : Tree) → snoc_tree (trees ts) t ≡ trees (ts ++ t ∷ [])
trees-snoc [] t = refl
trees-snoc (u ∷ ts) t = ap (tree u) (trees-snoc ts t)

members-snoc :
    (ms : List (Bytes × Tree)) (name : Bytes) (t : Tree)
    → snoc_member (members ms) name t ≡ members (ms ++ (name, t) ∷ [])
members-snoc [] name t = refl
members-snoc ((other, u) ∷ ms) name t = ap (entry other u) (members-snoc ms name t)

abbrev add_to : Tree → Bytes → Tree → Outcome Tree
add_to (named ms) name t = ok (named (snoc_member ms name t))
add_to leaf name t = fault
add_to (digits n) name t = fault
add_to (chars s) name t = fault
add_to (listed ts) name t = fault

abbrev push_to : Tree → Tree → Outcome Tree
push_to (listed ts) t = ok (listed (snoc_tree ts t))
push_to leaf t = fault
push_to (digits n) t = fault
push_to (chars s) t = fault
push_to (named ms) t = fault

-- The names of the members.
abbrev print : Tree → Bytes
print leaf = []
print (digits n) = []
print (chars s) = s
print (listed ts) = []
print (named no_member) = []
print (named (entry name t ms)) = name ++ print (named ms)

abbrev tree_library : JsonLibrary
tree_library = record {
  Value = Tree;
  null = leaf;
  number = digits;
  text = chars;
  object = λ ms. named (members ms);
  array = λ ts. listed (trees ts);
  add_member = add_to;
  push_back = push_to;
  member = λ t name. fault;
  accept = print;
  add_member-object = λ ms name t. ap (λ x. ok (named x)) (members-snoc ms name t);
  add_member-null = λ name t. refl;
  push_back-array = λ ts t. ap (λ x. ok (listed x)) (trees-snoc ts t);
  member-object = λ ms name h. refl;
  member-null = λ name. refl;
}

abbrev size : Message → ℕ
size end = 0
size (field name content rest) = 2

abbrev flat : Message
flat =
    field (97 ∷ []) (single (int32 (pos 5)))
      (field (98 ∷ []) (repeated (cons (string (65 ∷ 0 ∷ [])) nil)) (field (99 ∷ []) unset end))

abbrev deep : Message
deep = field (97 ∷ []) (single (nested flat)) end

a-ne-b : (◌≡◌ {A = Bytes} (97 ∷ []) (98 ∷ [])) → ⊥
a-ne-b e = absurd (ground arith)

a-ne-c : (◌≡◌ {A = Bytes} (97 ∷ []) (99 ∷ [])) → ⊥
a-ne-c e = absurd (ground arith)

b-ne-c : (◌≡◌ {A = Bytes} (98 ∷ []) (99 ∷ [])) → ⊥
b-ne-c e = absurd (ground arith)

flat-Distinct : Distinct flat
flat-Distinct = ((a-ne-b, (a-ne-c, tt)), ((b-ne-c, tt), (tt, tt)))

pb_to_json_lem_example : pb_to_json tree_library size flat ≡ (
    if is_plain tree_library size flat
    then ok (c_str (print (named (members (members_of tree_library size flat)))))
    else fault)
pb_to_json_lem_example = pb_to_json_lem tree_library size flat flat-Distinct

flat_names : pb_to_json tree_library size flat ≡ ok (97 ∷ 98 ∷ [])
unfolding pb_to_json frrpc.Json.field_size c_str
flat_names = refl

-- A message within a message fails an assertion.
deep_fails : pb_to_json tree_library size deep ≡ fault
unfolding pb_to_json
deep_fails = refl

abbrev switches : List LogCall
switches = LogCall.opens_log "./log" (LogLevel.level 3) 100 ∷ LogCall.closes_log ∷ []

msg_debug_lem_example : msg_debug tree_library size (some deep) (after_calls switches new_log) ≡ (
    if last_opened false switches
    then (if is_plain tree_library size deep
        then ok (some (c_str (print (named (members (members_of tree_library size deep))))))
        else fault)
    else ok none)
msg_debug_lem_example = msg_debug_lem tree_library size switches deep (tt, tt)
