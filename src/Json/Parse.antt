-- ===== src/Json/Parse.antt =====
-- src/json.cpp, class Parser: ParseValue, ParseArray, ParseObject and Run.
use obs_trigglow_dynamic_del.Prelude.{
  ℕ, zero, suc, ◌+◌, ◌*◌, true, false, not, ◌&&◌, Option, none, some, [], ◌∷◌, ltb, ◌==◌,
  if◌then◌else◌, length, is_empty,
}
use obs_trigglow_dynamic_del.Prelude.Double.{Double}
use obs_trigglow_dynamic_del.Json.{
  Bytes, Value, Items, Members, null, bool, number, string, array, object, no_items, no_members,
  set_member, push_item,
}
use obs_trigglow_dynamic_del.Json.Read.{
  Outcome, parsed, refused, starved, and_then, starts, drop_one, skip, consume, read_string,
  read_number,
}

abbrev pub true_text : Bytes
true_text = 116 ∷ 114 ∷ 117 ∷ 101 ∷ []

abbrev pub false_text : Bytes
false_text = 102 ∷ 97 ∷ 108 ∷ 115 ∷ 101 ∷ []

abbrev pub null_text : Bytes
null_text = 110 ∷ 117 ∷ 108 ∷ 108 ∷ []

-- What ParseValue switches on.
pub data Lead : Type 0 where
  opens_object opens_array opens_string says_true says_false says_null other : Lead

unfoldable pub lead : Bytes → Lead
lead [] = other
lead (c ∷ rest) =
    if c == 123
    then opens_object
    else if c == 91
    then opens_array
    else if c == 34
    then opens_string
    else if c == 116
    then says_true
    else if c == 102
    then says_false
    else if c == 110
    then says_null
    else other

-- What may follow an item or a member: the closing bracket, a comma, or anything else.
pub data Follow : Type 0 where
  closing comma : Bytes → Follow
  stray : Follow

unfoldable pub follow : ℕ → Bytes → Follow
follow close [] = stray
follow close (c ∷ rest) = if c == close then closing rest else if c == 44 then comma rest else stray

module _ {R : Type 0} where
  unfoldable pub literal : Bytes → Value R → Bytes → Outcome (Value R)
  literal word value text = elim (consume word text) [
    | none ↦ refused
    | some rest ↦ parsed value rest
  ]

-- A member's key, up to the start of its value.
unfoldable pub read_key : Bytes → Outcome Bytes
read_key text =
    if not (starts 34 text)
    then refused
    else and_then (read_string (drop_one text)) λ key rest.
      if starts 58 (skip rest) then parsed key (skip (drop_one (skip rest))) else refused

-- A UTF-8 byte order mark is passed over.
unfoldable pub without_mark : Bytes → Bytes
without_mark text =
    if starts 0xEF text && starts 0xBB (drop_one text) && starts 0xBF (drop_one (drop_one text))
    then drop_one (drop_one (drop_one text))
    else text

module _ (d : Double) (max_depth : ℕ) where
  open d use {Real}

  -- The recursion is on fuel: each call takes one. `depth` counts the brackets that are open.
  unfoldable mutual
    -- ParseValue.
    pub read_value : ℕ → ℕ → Bytes → Outcome (Value Real)
    read_value zero depth text = starved
    read_value (suc fuel) depth text = elim (lead text) [
      | opens_object ↦ read_object fuel (depth + 1) (drop_one text)
      | opens_array ↦ read_array fuel (depth + 1) (drop_one text)
      | opens_string ↦ and_then (read_string (drop_one text)) λ s rest. parsed (string s) rest
      | says_true ↦ literal true_text (bool true) text
      | says_false ↦ literal false_text (bool false) text
      | says_null ↦ literal null_text null text
      | other ↦ and_then (read_number d text) λ x rest. parsed (number x) rest
    ]

    -- ParseArray, after the bracket.
    pub read_array : ℕ → ℕ → Bytes → Outcome (Value Real)
    read_array zero depth text = starved
    read_array (suc fuel) depth text =
        let items = read_items fuel depth no_items (skip text) in
        if ltb max_depth depth
        then refused
        else if starts 93 (skip text)
        then parsed (array no_items) (drop_one (skip text))
        else items

    -- The loop of ParseArray, at the start of an item.
    pub read_items : ℕ → ℕ → Items Real → Bytes → Outcome (Value Real)
    read_items zero depth before text = starved
    read_items (suc fuel) depth before text = and_then (read_value fuel depth text) λ v rest.
        elim (follow 93 (skip rest)) [
          | closing after ↦ parsed (array (push_item before v)) after
          | comma after ↦ read_items fuel depth (push_item before v) (skip after)
          | stray ↦ refused
        ]

    -- ParseObject, after the bracket.
    pub read_object : ℕ → ℕ → Bytes → Outcome (Value Real)
    read_object zero depth text = starved
    read_object (suc fuel) depth text =
        let members = read_members fuel depth no_members (skip text) in
        if ltb max_depth depth
        then refused
        else if starts 125 (skip text)
        then parsed (object no_members) (drop_one (skip text))
        else members

    -- The loop of ParseObject, at the start of a member.
    pub read_members : ℕ → ℕ → Members Real → Bytes → Outcome (Value Real)
    read_members zero depth before text = starved
    read_members (suc fuel) depth before text = and_then (read_key text) λ key value_text.
        and_then (read_value fuel depth value_text) λ v rest. elim (follow 125 (skip rest)) [
          | closing after ↦ parsed (object (set_member key v before)) after
          | comma after ↦ read_members fuel depth (set_member key v before) (skip after)
          | stray ↦ refused
        ]

  -- Run, on the text after the mark and the first white space. Three calls at most go by a
  -- byte, so three times the length is fuel enough.
  unfoldable pub read_all : Bytes → Outcome (Value Real)
  read_all text =
      and_then (read_value (3 * length text + 3) 0 text)
        λ v rest. if is_empty (skip rest) then parsed v [] else refused

  -- Parse.
  unfoldable pub parse : Bytes → Option (Value Real)
  unfolding without_mark read_all
  parse text = elim (read_all (skip (without_mark text))) [
    | parsed v rest ↦ some v
    | refused ↦ none
    | starved ↦ none
  ]
