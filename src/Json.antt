-- ===== src/Json.antt =====
-- src/json.hpp and src/json.cpp: the values of the plugin's JSON reader and writer, and the members
-- of an object. A text is the list of its bytes.
pub mod Lookup
pub mod Read
pub mod Parse
pub mod Write
pub mod Strings
mod Steps
mod Texts
pub mod Total
pub mod Returns
pub mod RoundTrip
mod Tests
use obs_trigglow_dynamic_del.Prelude.{
  ℕ, zero, suc, Bool, true, false, ◌&&◌, Option, none, some, List, [], ◌∷◌, ◌==◌, if◌then◌else◌,
}

abbrev pub Bytes : Type 0
Bytes = List ℕ

abbrev pub same_bytes : Bytes → Bytes → Bool
same_bytes [] [] = true
same_bytes (c ∷ s) (e ∷ t) = (c == e) && same_bytes s t
same_bytes _ _ = false

-- Value, with the type of its numbers. keys_ and items_, which are parallel, are one list of members.
mutual
  pub data Value (R : Type 0) : Type 0 where
    null : Value R
    bool : Bool → Value R
    number : R → Value R
    string : Bytes → Value R
    array : Items R → Value R
    object : Members R → Value R

  pub data Items (R : Type 0) : Type 0 where
    no_items : Items R
    item : Value R → Items R → Items R

  pub data Members (R : Type 0) : Type 0 where
    no_members : Members R
    member : Bytes → Value R → Members R → Members R

module _ {R : Type 0} where
  -- The loop of Set: the first member of that name gets the value; a new one goes to the end.
  unfoldable pub set_member : Bytes → Value R → Members R → Members R
  set_member key value no_members = member key value no_members
  set_member key value (member k v rest) =
      if same_bytes k key then member k value rest else member k v (set_member key value rest)

  -- Set.
  unfoldable pub set : Value R → Bytes → Value R → Value R
  set (object members) key value = object (set_member key value members)
  set v key value = v

  unfoldable pub push_item : Items R → Value R → Items R
  push_item no_items value = item value no_items
  push_item (item v rest) value = item v (push_item rest value)

  -- Push.
  unfoldable pub push : Value R → Value R → Value R
  push (array items) value = array (push_item items value)
  push v value = v

  -- The loop of Find, from the last member on.
  unfoldable pub find_member : Bytes → Members R → Option (Value R)
  find_member key no_members = none
  find_member key (member k v rest) = elim (find_member key rest) [
    | some w ↦ some w
    | none ↦ if same_bytes k key then some v else none
  ]

  -- Find.
  unfoldable pub find : Value R → Bytes → Option (Value R)
  find (object members) key = find_member key members
  find v key = none

  -- GetString, GetNumber and GetBool.
  pub get_string : Value R → Bytes → Option Bytes
  get_string v key = elim (find v key) [ some (string s) ↦ some s | _ ↦ none ]

  pub get_number : Value R → Bytes → Option R
  get_number v key = elim (find v key) [ some (number x) ↦ some x | _ ↦ none ]

  pub get_bool : Value R → Bytes → Option Bool
  get_bool v key = elim (find v key) [ some (bool b) ↦ some b | _ ↦ none ]

  pub count_items : Items R → ℕ
  count_items no_items = 0
  count_items (item v rest) = suc (count_items rest)

  pub count_members : Members R → ℕ
  count_members no_members = 0
  count_members (member k v rest) = suc (count_members rest)

  -- Size.
  pub size : Value R → ℕ
  unfolding count_items count_members
  size (array items) = count_items items
  size (object members) = count_members members
  size v = 0

  pub item_at : Items R → ℕ → Value R
  item_at no_items index = null
  item_at (item v rest) zero = v
  item_at (item v rest) (suc index) = item_at rest index

  -- At.
  pub at : Value R → ℕ → Value R
  unfolding item_at
  at (array items) index = item_at items index
  at v index = null
