-- ===== src/Json/Returns.antt =====
-- The values that src/json.cpp's Serialize writes so that Parse can return them.
use obs_trigglow_dynamic_del.Prelude.{
  ℕ, suc, ◌+◌, ◌*◌, ◌≤◌, max, ◌≡◌, refl, ap, ◌∙◌, Bool, true, false, ◌++◌, length, length-append,
  arith,
}
use obs_trigglow_dynamic_del.Prelude.Double.{Double}
use obs_trigglow_dynamic_del.Json.{
  Bytes, same_bytes, Value, Items, Members, number, array, object, no_items, item, no_members,
  member, set_member, push_item,
}
use obs_trigglow_dynamic_del.Json.Lookup.{has_key}
use obs_trigglow_dynamic_del.Json.Read.{parsed, read_number}
use obs_trigglow_dynamic_del.Json.Write.{
  Printf, format_number, quoted, colon, between, ending, serialize, write_items, write_members,
}
use obs_trigglow_dynamic_del.Json.Parse.{lead, other}
use obs_trigglow_dynamic_del.Json.Steps.{opens, breaks}

module _ {R : Type 0} where
  -- Items and members put together; the reader collects them in this order.
  abbrev pub append_items : Items R → Items R → Items R
  append_items no_items ys = ys
  append_items (item v xs) ys = item v (append_items xs ys)

  abbrev pub append_members : Members R → Members R → Members R
  append_members no_members ns = ns
  append_members (member k v ms) ns = member k v (append_members ms ns)

  pub append_items-push :
      (before : Items R) (v : Value R) (xs : Items R)
      → append_items (push_item before v) xs ≡ append_items before (item v xs)
  unfolding push_item
  append_items-push no_items v xs = refl
  append_items-push (item w before) v xs = ap (item w) (append_items-push before v xs)

  pub append_items-end :
      (before : Items R) (v : Value R) → push_item before v ≡ append_items before (item v no_items)
  unfolding push_item
  append_items-end no_items v = refl
  append_items-end (item w before) v = ap (item w) (append_items-end before v)

  -- A key that is not there yet goes to the end.
  pub append_members-set :
      (before : Members R) (key : Bytes) (v : Value R) (ms : Members R)
      → has_key key before ≡ false
      → append_members (set_member key v before) ms ≡ append_members before (member key v ms)
  unfolding set_member
  append_members-set no_members key v ms h = refl
  append_members-set (member k w before) key v ms h =
      let same : same_bytes k key ≡ false = ground arith in
      let rest = append_members-set before key v ms (ground arith) in rw same (ap (member k w) rest)

  pub append_members-end :
      (before : Members R) (key : Bytes) (v : Value R)
      → has_key key before ≡ false
      → set_member key v before ≡ append_members before (member key v no_members)
  unfolding set_member
  append_members-end no_members key v h = refl
  append_members-end (member k w before) key v h =
      let same : same_bytes k key ≡ false = ground arith in
      let rest = append_members-end before key v (ground arith) in rw same (ap (member k w) rest)

  -- No member has the key of one before it, nor of one in `before`.
  abbrev pub NewKeys : Members R → Members R → Type 0
  NewKeys before no_members = before ≡ before
  NewKeys before (member k v ms) = (has_key k before ≡ false) × NewKeys (set_member k v before) ms

  -- The brackets inside each other.
  unfoldable mutual
    pub nesting : Value R → ℕ
    nesting (array xs) = suc (items_nesting xs)
    nesting (object ms) = suc (members_nesting ms)
    nesting _ = 0

    pub items_nesting : Items R → ℕ
    items_nesting no_items = 0
    items_nesting (item v xs) = max (nesting v) (items_nesting xs)

    pub members_nesting : Members R → ℕ
    members_nesting no_members = 0
    members_nesting (member k v ms) = max (nesting v) (members_nesting ms)

  -- The calls that the reader makes for a value, one inside the other.
  unfoldable mutual
    pub cost : Value R → ℕ
    cost (array xs) = 3 + items_cost xs
    cost (object ms) = 3 + members_cost ms
    cost _ = 1

    pub items_cost : Items R → ℕ
    items_cost no_items = 0
    items_cost (item v xs) = 1 + cost v + items_cost xs

    pub members_cost : Members R → ℕ
    members_cost no_members = 0
    members_cost (member k v ms) = 1 + cost v + members_cost ms

module _ (d : Double) (f : Printf d.Real) where
  -- The number is written as a text that begins like a number and is read back up to what follows.
  pub record NumberReturns (x : d.Real) : Type 0 where
    pub begins : (rest : Bytes) → opens (format_number d f x ++ rest) ≡ true
    pub not_other : (rest : Bytes) → lead (format_number d f x ++ rest) ≡ other
    pub reads :
        (rest : Bytes)
        → breaks rest ≡ true
        → read_number d (format_number d f x ++ rest) ≡ parsed x rest

  -- Every number of the value is read back, and no object has two members of one name.
  unfoldable mutual
    pub Returns : Value d.Real → Type 0
    Returns (number x) = NumberReturns x
    Returns (array xs) = ItemsReturn xs
    Returns (object ms) = NewKeys no_members ms × MembersReturn ms
    Returns v = v ≡ v

    pub ItemsReturn : Items d.Real → Type 0
    ItemsReturn no_items = ◌≡◌ {A = Items d.Real} no_items no_items
    ItemsReturn (item v xs) = Returns v × ItemsReturn xs

    pub MembersReturn : Members d.Real → Type 0
    MembersReturn no_members = ◌≡◌ {A = Members d.Real} no_members no_members
    MembersReturn (member k v ms) = Returns v × MembersReturn ms

  length_item :
      (p : Bool) (i : ℕ) (first : Bool) (v : Value d.Real) (xs : Items d.Real)
      → length (write_items d f p i first (item v xs))
        ≡ length (between p (i + 1) first)
          + (length (serialize d f p (i + 1) v) + length (write_items d f p i false xs))
  unfolding serialize
  length_item p i first v xs =
      length-append (between p (i + 1) first) _
      ∙ ap (λ n. length (between p (i + 1) first) + n)
          (length-append (serialize d f p (i + 1) v) (write_items d f p i false xs))

  length_member :
      (p : Bool) (i : ℕ) (first : Bool) (k : Bytes) (v : Value d.Real) (ms : Members d.Real)
      → length (between p (i + 1) first)
          + (length (serialize d f p (i + 1) v) + length (write_members d f p i false ms))
        ≤ length (write_members d f p i first (member k v ms))
  unfolding serialize
  length_member p i first k v ms = omega (
    arith,
    length-append (between p (i + 1) first)
        (quoted k ++ (colon p ++ (serialize d f p (i + 1) v ++ write_members d f p i false ms))),
    length-append (quoted k)
        (colon p ++ (serialize d f p (i + 1) v ++ write_members d f p i false ms)),
    length-append (colon p) (serialize d f p (i + 1) v ++ write_members d f p i false ms),
    length-append (serialize d f p (i + 1) v) (write_members d f p i false ms),
  )

  length-between : (p : Bool) (i : ℕ) → 1 ≤ length (between p i false)
  length-between p i = omega arith

  length-ending : (p : Bool) (i close : ℕ) (first : Bool) → 1 ≤ length (ending p i first close)
  length-ending p i close true = omega arith
  length-ending true i close false = omega arith
  length-ending false i close false = omega arith

  -- The fuel that the length of the written text gives covers the cost.
  mutual
    unfolding serialize cost

    pub value_cost :
        (p : Bool) (i : ℕ) (v : Value d.Real) → cost v ≤ 3 * length (serialize d f p i v) + 2
    value_cost p i (array xs) = omega (arith, first_items_cost p i xs)
    value_cost p i (object ms) = omega (arith, first_members_cost p i ms)
    value_cost p i _ = omega arith

    first_items_cost :
        (p : Bool) (i : ℕ) (xs : Items d.Real)
        → items_cost xs ≤ 3 * length (write_items d f p i true xs) + 2
    first_items_cost p i no_items = omega arith
    first_items_cost p i (item v xs) =
        omega (arith, value_cost p (i + 1) v, later_items_cost p i xs, length_item p i true v xs)

    later_items_cost :
        (p : Bool) (i : ℕ) (xs : Items d.Real)
        → items_cost xs + 3 ≤ 3 * length (write_items d f p i false xs)
    later_items_cost p i no_items = omega (arith, length-ending p i 93 false)
    later_items_cost p i (item v xs) = omega (
      arith,
      value_cost p (i + 1) v,
      later_items_cost p i xs,
      length_item p i false v xs,
      length-between p (i + 1),
    )

    first_members_cost :
        (p : Bool) (i : ℕ) (ms : Members d.Real)
        → members_cost ms ≤ 3 * length (write_members d f p i true ms) + 2
    first_members_cost p i no_members = omega arith
    first_members_cost p i (member k v ms) =
        omega
          (arith, value_cost p (i + 1) v, later_members_cost p i ms, length_member p i true k v ms)

    later_members_cost :
        (p : Bool) (i : ℕ) (ms : Members d.Real)
        → members_cost ms + 3 ≤ 3 * length (write_members d f p i false ms)
    later_members_cost p i no_members = omega (arith, length-ending p i 125 false)
    later_members_cost p i (member k v ms) = omega (
      arith,
      value_cost p (i + 1) v,
      later_members_cost p i ms,
      length_member p i false k v ms,
      length-between p (i + 1),
    )
