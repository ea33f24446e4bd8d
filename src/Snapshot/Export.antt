-- ===== src/Snapshot/Export.antt =====
-- `snapshot_tree_to_json`: the JSON that the page draws, and what a reader gets out of it.
use qemu_snapshot_web_manage.Prelude.{
  ◌≡◌, ◌<◌, ◌∙◌, refl, Bool, true, false, Bool-cases, inl, inr, Option, none, some, [], All, Bytes,
  codes, arith, strcmp_eq, strcmp_eq_self, if◌then◌else◌,
}
use qemu_snapshot_web_manage.Json.{
  Json, Items, Fields, string, boolean, integer, array, object, end, field, lookup,
}
use qemu_snapshot_web_manage.Snapshot.{
  SnapType, internal, external, current_state, Info, Node, Nodes, node, nil, cons,
}

-- `s ? s : ""`
abbrev pub or_empty : Option Bytes → Bytes
or_empty none = []
or_empty (some s) = s

unfoldable pub type_str : SnapType → Bytes
type_str internal = codes "internal"
type_str external = codes "external"
type_str current_state = codes "current-state"

-- The field `isDirty` stands only on the node of the current state.
unfoldable pub dirty_field : SnapType → Bool → Fields → Fields
dirty_field current_state dirty rest = field (codes "isDirty") (boolean dirty) rest
dirty_field _ dirty rest = rest

-- `json_object_set_new(obj, key, json_string(s))`: where `json_string` gives NULL, as for a text that
-- is not UTF-8, the field is not set.
unfoldable pub text_field : (Bytes → Bool) → Bytes → Bytes → Fields → Fields
text_field is_utf8 key s rest = if is_utf8 s then field key (string s) rest else rest

unfoldable pub info_fields : (Bytes → Bool) → Info → Fields → Fields
info_fields is_utf8 i rest = text_field is_utf8 (codes "id") (or_empty i.id) (
    text_field is_utf8 (codes "name") (or_empty i.id) (
      text_field is_utf8 (codes "description") (or_empty i.description) (
        text_field is_utf8 (codes "date") (or_empty i.creation_time) (
          text_field is_utf8 (codes "type") (type_str i.type) (
            field (codes "isCurrent") (boolean i.is_current)
              (dirty_field i.type i.is_dirty rest))))))

unfoldable mutual
  pub node_to_json : (Bytes → Bool) → Node → Json
  node_to_json is_utf8 (node i cs) =
      object
        (info_fields is_utf8 i (field (codes "children") (array (children_to_json is_utf8 cs)) end))

  pub children_to_json : (Bytes → Bool) → Nodes → Items
  children_to_json is_utf8 nil = Items.nil
  children_to_json is_utf8 (cons c cs) =
      Items.cons (node_to_json is_utf8 c) (children_to_json is_utf8 cs)

-- `json_dumps` of jansson is the parameter `dumps`, and `is_utf8` says which texts `json_string` takes.
unfoldable pub snapshot_tree_to_json : (Json → Bytes) → (Bytes → Bool) → Option Node → Option Bytes
snapshot_tree_to_json dumps is_utf8 none = none
snapshot_tree_to_json dumps is_utf8 (some root) = some (dumps (node_to_json is_utf8 root))

abbrev dirty_value : SnapType → Bool → Option Json
dirty_value current_state dirty = some (boolean dirty)
dirty_value _ dirty = none

abbrev text_value : (Bytes → Bool) → Bytes → Option Json
text_value is_utf8 s = if is_utf8 s then some (string s) else none

-- How a reader of the page tells the types apart.
abbrev type_named : Json → Option SnapType
type_named (string t) =
    if strcmp_eq t (codes "current-state")
    then some current_state
    else if strcmp_eq t (codes "external")
    then some external
    else if strcmp_eq t (codes "internal")
    then some internal
    else none
type_named (boolean b) = none
type_named (integer n) = none
type_named (array items) = none
type_named (object fields) = none

abbrev ReadsType : Fields → SnapType → Type 0
ReadsType fs t = (j : Json) × (lookup (codes "type") fs ≡ some j) × (type_named j ≡ some t)

-- What a reader of the page gets by the keys of an object: each text of the node that is UTF-8 and no
-- other, its type and flags, and `isDirty` on the node of the current state only.
abbrev Reads : (Bytes → Bool) → Fields → Info → Type 0
Reads is_utf8 fs i =
    (lookup (codes "id") fs ≡ text_value is_utf8 (or_empty i.id))
    × (lookup (codes "name") fs ≡ text_value is_utf8 (or_empty i.id))
    × (lookup (codes "description") fs ≡ text_value is_utf8 (or_empty i.description))
    × (lookup (codes "date") fs ≡ text_value is_utf8 (or_empty i.creation_time))
    × ReadsType fs i.type
    × (lookup (codes "isCurrent") fs ≡ some (boolean i.is_current))
    × (lookup (codes "isDirty") fs ≡ dirty_value i.type i.is_dirty)

mutual
  pub data Draws (is_utf8 : Bytes → Bool) : Json → Node → Type 0 where
    draws :
        {i : Info} {cs : Nodes} {fs : Fields} {items : Items}
        → Reads is_utf8 fs i
        → lookup (codes "children") fs ≡ some (array items)
        → DrawsEach is_utf8 items cs
        → Draws is_utf8 (object fs) (node i cs)

  pub data DrawsEach (is_utf8 : Bytes → Bool) : Items → Nodes → Type 0 where
    none_left : DrawsEach is_utf8 Items.nil nil
    one_more :
        {j : Json} {items : Items} {c : Node} {cs : Nodes}
        → Draws is_utf8 j c
        → DrawsEach is_utf8 items cs
        → DrawsEach is_utf8 (Items.cons j items) (cons c cs)

module _ (is_utf8 : Bytes → Bool) where
  skip :
      (k key s : Bytes) (rest : Fields)
      → strcmp_eq key k ≡ false
      → lookup k (text_field is_utf8 key s rest) ≡ lookup k rest
  unfolding text_field
  skip k key s rest differs = elim (Bool-cases (is_utf8 s)) [
    | inl good ↦ rw (good, differs) refl
    | inr bad ↦ rw bad refl
  ]

  found :
      (key s : Bytes) (rest : Fields)
      → lookup key rest ≡ none
      → lookup key (text_field is_utf8 key s rest) ≡ text_value is_utf8 s
  unfolding text_field
  found key s rest absent = elim (Bool-cases (is_utf8 s)) [
    | inl good ↦ rw (good, strcmp_eq_self key) refl
    | inr bad ↦ rw bad absent
  ]

  -- The texts of a node in front of its other fields, for a key that is none of theirs.
  past_texts :
      (i : Info) (k : Bytes) (rest : Fields)
      → strcmp_eq (codes "id") k ≡ false
      → strcmp_eq (codes "name") k ≡ false
      → strcmp_eq (codes "description") k ≡ false
      → strcmp_eq (codes "date") k ≡ false
      → lookup k (info_fields is_utf8 i rest)
        ≡ lookup k (
            text_field is_utf8 (codes "type") (type_str i.type) (
              field
                (codes "isCurrent")
                (boolean i.is_current)
                (dirty_field i.type i.is_dirty rest)))
  unfolding info_fields
  past_texts i k rest a b c d =
      skip k _ _ _ a ∙ (skip k _ _ _ b ∙ (skip k _ _ _ c ∙ skip k _ _ _ d))

  flag_values :
      (t : SnapType) (current dirty : Bool) (items : Items)
      → (lookup (codes "isDirty") (
            field
              (codes "isCurrent")
              (boolean current)
              (dirty_field t dirty (field (codes "children") (array items) end)))
          ≡ dirty_value t dirty)
        × (lookup (codes "children") (
              field
                (codes "isCurrent")
                (boolean current)
                (dirty_field t dirty (field (codes "children") (array items) end)))
            ≡ some (array items))
  unfolding dirty_field strcmp_eq
  flag_values internal current dirty items = (refl, refl)
  flag_values external current dirty items = (refl, refl)
  flag_values current_state current dirty items = (refl, refl)

  no_text :
      (t : SnapType) (current dirty : Bool) (items : Items) (k : Bytes)
      → strcmp_eq (codes "isCurrent") k ≡ false
      → strcmp_eq (codes "isDirty") k ≡ false
      → strcmp_eq (codes "children") k ≡ false
      → lookup k (
          field
            (codes "isCurrent")
            (boolean current)
            (dirty_field t dirty (field (codes "children") (array items) end)))
        ≡ none
  unfolding dirty_field
  no_text internal current dirty items k a b c = rw (a, c) refl
  no_text external current dirty items k a b c = rw (a, c) refl
  no_text current_state current dirty items k a b c = rw (a, b, c) refl

  module _ (ascii : (s : Bytes) → All (λ c. c < 128) s → is_utf8 s ≡ true) where
    type_str-utf8 : (t : SnapType) → is_utf8 (type_str t) ≡ true
    unfolding type_str
    type_str-utf8 internal = ascii (codes "internal") (ground arith)
    type_str-utf8 external = ascii (codes "external") (ground arith)
    type_str-utf8 current_state = ascii (codes "current-state") (ground arith)

    type_named-type_str : (t : SnapType) → type_named (string (type_str t)) ≡ some t
    unfolding type_str strcmp_eq
    type_named-type_str internal = refl
    type_named-type_str external = refl
    type_named-type_str current_state = refl

    Reads-info_fields :
        (i : Info) (items : Items)
        → Reads is_utf8 (info_fields is_utf8 i (field (codes "children") (array items) end)) i
    unfolding info_fields strcmp_eq
    Reads-info_fields i items =
        let absent = no_text i.type i.is_current i.is_dirty items in
        let good = type_str-utf8 i.type in
        (
          found (codes "id") _ _ (
              skip _ _ _ _ refl
              ∙ (skip _ _ _ _ refl
                  ∙ (skip _ _ _ _ refl
                      ∙ (skip _ _ _ _ refl ∙ absent (codes "id") refl refl refl)))),
          skip _ _ _ _ refl
              ∙ found (codes "name") _ _ (
                  skip _ _ _ _ refl
                  ∙ (skip _ _ _ _ refl
                      ∙ (skip _ _ _ _ refl ∙ absent (codes "name") refl refl refl))),
          skip _ _ _ _ refl
              ∙ (skip _ _ _ _ refl
                  ∙ found (codes "description") _ _ (
                      skip _ _ _ _ refl
                      ∙ (skip _ _ _ _ refl ∙ absent (codes "description") refl refl refl))),
          skip _ _ _ _ refl
              ∙ (skip _ _ _ _ refl
                  ∙ (skip _ _ _ _ refl
                      ∙ found (codes "date") _ _
                          (skip _ _ _ _ refl ∙ absent (codes "date") refl refl refl))),
          (
            string (type_str i.type),
            past_texts i (codes "type") _ refl refl refl refl
                ∙ (found (codes "type") _ _ (absent (codes "type") refl refl refl) ∙ rw good refl),
            type_named-type_str i.type,
          ),
          past_texts i (codes "isCurrent") _ refl refl refl refl ∙ skip _ _ _ _ refl,
          past_texts i (codes "isDirty") _ refl refl refl refl
              ∙ (skip _ _ _ _ refl ∙ (flag_values i.type i.is_current i.is_dirty items).0),
        )

    lookup-children :
        (i : Info) (items : Items)
        → lookup
            (codes "children")
            (info_fields is_utf8 i (field (codes "children") (array items) end))
          ≡ some (array items)
    unfolding strcmp_eq
    lookup-children i items =
        past_texts i (codes "children") _ refl refl refl refl
        ∙ (skip _ _ _ _ refl ∙ (flag_values i.type i.is_current i.is_dirty items).1)

    mutual
      unfolding node_to_json

      node_to_json-Draws : (t : Node) → Draws is_utf8 (node_to_json is_utf8 t) t
      node_to_json-Draws (node i cs) =
          draws (Reads-info_fields i (children_to_json is_utf8 cs))
            (lookup-children i (children_to_json is_utf8 cs)) (children_to_json-DrawsEach cs)

      children_to_json-DrawsEach : (cs : Nodes) → DrawsEach is_utf8 (children_to_json is_utf8 cs) cs
      children_to_json-DrawsEach nil = none_left
      children_to_json-DrawsEach (cons c cs) =
          one_more (node_to_json-Draws c) (children_to_json-DrawsEach cs)

-- Where jansson takes every ASCII text: the text sent to the page is the dump of a JSON value from which
-- a reader gets every snapshot of the tree, with its children in order, its type and its flags, and with
-- each of its texts that jansson takes; one that it does not take, as it is not UTF-8, is missing.
pub snapshot_tree_to_json-Draws :
    (dumps : Json → Bytes) (is_utf8 : Bytes → Bool) (root : Node)
    → ((s : Bytes) → All (λ c. c < 128) s → is_utf8 s ≡ true)
    → (j : Json) × (snapshot_tree_to_json dumps is_utf8 (some root) ≡ some (dumps j))
      × Draws is_utf8 j root
unfolding snapshot_tree_to_json
snapshot_tree_to_json-Draws dumps is_utf8 root ascii =
    (node_to_json is_utf8 root, refl, node_to_json-Draws is_utf8 ascii root)
