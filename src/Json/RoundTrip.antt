-- ===== src/Json/RoundTrip.antt =====
-- What src/json.cpp's Serialize writes, Parse reads, in the compact and the pretty form.
use obs_trigglow_dynamic_del.Prelude.{
  ℕ, zero, suc, ◌+◌, ◌*◌, ◌≤◌, ◌≡◌, refl, ap, sym, ◌∙◌, Bool, true, false, some, [], ◌∷◌, ◌++◌, ltb,
  ◌==◌, if◌then◌else◌, length, arith,
}
use mathlib.Core.List.{append-nil}
use obs_trigglow_dynamic_del.Prelude.Double.{Double}
use obs_trigglow_dynamic_del.Json.{
  Bytes, Value, Items, Members, null, bool, number, string, array, object, no_items, item,
  no_members, member, set_member, push_item,
}
use obs_trigglow_dynamic_del.Json.Read.{parsed, starts, skip, consume}
use obs_trigglow_dynamic_del.Json.Parse.{
  read_value, read_array, literal, true_text, false_text, null_text, read_object, read_items,
  read_members, read_all, parse, without_mark, lead,
}
use obs_trigglow_dynamic_del.Json.Write.{
  Printf, quoted, colon, serialize, write_items, write_members,
}
use obs_trigglow_dynamic_del.Json.Strings.{read_string-quoted}
use obs_trigglow_dynamic_del.Json.Steps
use obs_trigglow_dynamic_del.Json.Steps.{opens, breaks, skip-opens, opens_not_close}
use obs_trigglow_dynamic_del.Json.Texts
use obs_trigglow_dynamic_del.Json.Texts.{read_key-quoted, quoted_text}
use obs_trigglow_dynamic_del.Json.Returns.{
  append_items, append_members, append_items-push, append_items-end, append_members-set,
  append_members-end, NewKeys, nesting, items_nesting, members_nesting, cost, items_cost,
  members_cost, Returns, ItemsReturn, MembersReturn, value_cost,
}

bool_step :
    (d : Double) (max_depth fuel depth : ℕ) (rest : Bytes) (b : Bool)
    → read_value d max_depth (suc fuel) depth ((if b then true_text else false_text) ++ rest)
      ≡ parsed (bool b) rest
unfolding read_value lead literal consume
bool_step d max_depth fuel depth rest true = refl
bool_step d max_depth fuel depth rest false = refl

null_step :
    (d : Double) (max_depth fuel depth : ℕ) (rest : Bytes)
    → read_value d max_depth (suc fuel) depth (null_text ++ rest) ≡ parsed null rest
unfolding read_value lead literal consume
null_step d max_depth fuel depth rest = refl

cost_pos : {R : Type 0} (v : Value R) → 1 ≤ cost v
unfolding cost
cost_pos (array xs) = omega arith
cost_pos (object ms) = omega arith
cost_pos _ = omega arith

not_deeper : (i n max_depth : ℕ) → i + 1 + n ≤ max_depth → ltb max_depth (i + 1) ≡ false
not_deeper i n max_depth h = ground arith

no_mark_lead : (c : ℕ) (rest : Bytes) → opens (c ∷ rest) ≡ true → (c == 0xEF) ≡ false
no_mark_lead c rest h = ground arith

no_mark : (text : Bytes) → opens text ≡ true → skip (without_mark text) ≡ text
unfolding without_mark
no_mark [] h = skip-opens [] h
no_mark (c ∷ rest) h = rw (no_mark_lead c rest h) (skip-opens (c ∷ rest) h)

parse_step :
    (d : Double) (max_depth : ℕ) (text : Bytes) (v : Value d.Real) (rest : Bytes)
    → read_all d max_depth (skip (without_mark text)) ≡ parsed v rest
    → parse d max_depth text ≡ some v
unfolding parse
parse_step d max_depth text v rest e = ground (arith, e)

module _ (d : Double) (f : Printf d.Real) (p : Bool) (max_depth : ℕ) where
  -- The items are read back behind those in `before`, from the first one on.
  abbrev ItemsRead : Items d.Real → Items d.Real → ℕ → Bytes → ℕ → Type 0
  ItemsRead before no_items i rest fuel = before ≡ before
  ItemsRead before (item v xs) i rest fuel =
      read_items d max_depth fuel (i + 1) before
        (serialize d f p (i + 1) v ++ (write_items d f p i false xs ++ rest))
      ≡ parsed (array (append_items before (item v xs))) rest

  abbrev MembersRead : Members d.Real → Members d.Real → ℕ → Bytes → ℕ → Type 0
  MembersRead before no_members i rest fuel = before ≡ before
  MembersRead before (member k v ms) i rest fuel =
      read_members d max_depth fuel (i + 1) before (
        quoted k
        ++ (colon p ++ (serialize d f p (i + 1) v ++ (write_members d f p i false ms ++ rest))))
      ≡ parsed (object (append_members before (member k v ms))) rest

  -- The value is read back at any place of a text where it may stand.
  mutual
    unfolding Returns nesting cost serialize

    value-Returns :
        (v : Value d.Real) (i : ℕ) (rest : Bytes) (fuel : ℕ)
        → Returns d f v
        → i + nesting v ≤ max_depth
        → cost v ≤ fuel
        → breaks rest ≡ true
        → read_value d max_depth fuel i (serialize d f p i v ++ rest) ≡ parsed v rest
    value-Returns v i rest zero r n c b = absurd (omega (arith, cost_pos v))
    value-Returns null i rest (suc fuel) r n c b = null_step d max_depth fuel i rest
    value-Returns (bool x) i rest (suc fuel) r n c b = bool_step d max_depth fuel i rest x
    value-Returns (number x) i rest (suc fuel) r n c b =
        Steps.value_number d max_depth fuel i _ x rest (r.not_other rest) (r.reads rest b)
    value-Returns (string s) i rest (suc fuel) r n c b =
        ap (read_value d max_depth (suc fuel) i) (quoted_text s rest)
        ∙ Steps.value_string d max_depth fuel i _ s rest (read_string-quoted s rest)
    value-Returns (array xs) i rest (suc fuel) r n c b =
        Steps.value_array d max_depth fuel i (write_items d f p i true xs ++ rest)
        ∙ array_returns xs i rest fuel r (omega arith) (omega arith)
    value-Returns (object ms) i rest (suc fuel) r n c b =
        Steps.value_object d max_depth fuel i (write_members d f p i true ms ++ rest)
        ∙ object_returns ms i rest fuel r (omega arith) (omega arith)

    array_returns :
        (xs : Items d.Real) (i : ℕ) (rest : Bytes) (fuel : ℕ)
        → ItemsReturn d f xs
        → i + 1 + items_nesting xs ≤ max_depth
        → items_cost xs + 2 ≤ fuel
        → read_array d max_depth fuel (i + 1) (write_items d f p i true xs ++ rest)
          ≡ parsed (array xs) rest
    array_returns xs i rest zero r n c = absurd (omega arith)
    array_returns no_items i rest (suc fuel) r n c =
        Steps.array_empty d max_depth fuel (i + 1) rest (not_deeper _ _ _ n)
    array_returns (item v xs) i rest (suc fuel) r n c =
        let after = serialize d f p (i + 1) v ++ (write_items d f p i false xs ++ rest) in
        let first =
          Texts.opens-serialize d f p (i + 1) v (write_items d f p i false xs ++ rest) r.0 in
        let text =
          ap skip (Texts.item_text d f p i true v xs rest)
          ∙ Texts.skip-between d f p (i + 1) _ first in
        Steps.array_items d max_depth fuel (i + 1) _ (not_deeper _ _ _ n)
          (ap (starts 93) text ∙ (opens_not_close after first).0)
        ∙ ap (read_items d max_depth fuel (i + 1) no_items) text
        ∙ items_return (item v xs) i rest fuel no_items r n (omega arith)

    items_return :
        (xs : Items d.Real) (i : ℕ) (rest : Bytes) (fuel : ℕ) (before : Items d.Real)
        → ItemsReturn d f xs
        → i + 1 + items_nesting xs ≤ max_depth
        → items_cost xs ≤ fuel
        → ItemsRead before xs i rest fuel
    items_return no_items i rest fuel before r n c = refl
    items_return (item v xs) i rest zero before r n c = absurd (omega arith)
    items_return (item v no_items) i rest (suc fuel) before r n c =
        Steps.items_close d max_depth fuel (i + 1) before _ v _ rest
          (value-Returns v (i + 1) _ fuel r.0 (omega arith) (omega arith)
            (Texts.breaks-items d f p i no_items rest))
          (Texts.follow_last_item d f p i rest)
        ∙ ap (λ xs. parsed (array xs) rest) (append_items-end before v)
    items_return (item v (item w xs)) i rest (suc fuel) before r n c =
        let after = write_items d f p i false xs ++ rest in
        Steps.items_more d max_depth fuel (i + 1) before _ v _ _
          (value-Returns v (i + 1) _ fuel r.0 (omega arith) (omega arith)
            (Texts.breaks-items d f p i (item w xs) rest))
          (Texts.follow_item d f p i w xs rest)
        ∙ ap (read_items d max_depth fuel (i + 1) (push_item before v))
            (Texts.skip-between d f p (i + 1) _ (Texts.opens-serialize d f p (i + 1) w after r.1.0))
        ∙ items_return (item w xs) i rest fuel (push_item before v) r.1 (omega arith) (omega arith)
        ∙ ap (λ xs. parsed (array xs) rest) (append_items-push before v (item w xs))

    object_returns :
        (ms : Members d.Real) (i : ℕ) (rest : Bytes) (fuel : ℕ)
        → NewKeys no_members ms × MembersReturn d f ms
        → i + 1 + members_nesting ms ≤ max_depth
        → members_cost ms + 2 ≤ fuel
        → read_object d max_depth fuel (i + 1) (write_members d f p i true ms ++ rest)
          ≡ parsed (object ms) rest
    object_returns ms i rest zero r n c = absurd (omega arith)
    object_returns no_members i rest (suc fuel) r n c =
        Steps.object_empty d max_depth fuel (i + 1) rest (not_deeper _ _ _ n)
    object_returns (member k v ms) i rest (suc fuel) r n c =
        let after =
          quoted k
          ++ (colon p ++ (serialize d f p (i + 1) v ++ (write_members d f p i false ms ++ rest))) in
        let text =
          ap skip (Texts.member_text d f p i true k v ms rest)
          ∙ Texts.skip-between d f p (i + 1) after (Texts.opens-quoted k _) in
        Steps.object_members d max_depth fuel (i + 1) _ (not_deeper _ _ _ n)
          (ap (starts 125) text ∙ (opens_not_close after (Texts.opens-quoted k _)).1)
        ∙ ap (read_members d max_depth fuel (i + 1) no_members) text
        ∙ members_return (member k v ms) i rest fuel no_members r.0 r.1 n (omega arith)

    members_return :
        (ms : Members d.Real) (i : ℕ) (rest : Bytes) (fuel : ℕ) (before : Members d.Real)
        → NewKeys before ms
        → MembersReturn d f ms
        → i + 1 + members_nesting ms ≤ max_depth
        → members_cost ms ≤ fuel
        → MembersRead before ms i rest fuel
    members_return no_members i rest fuel before u r n c = refl
    members_return (member k v ms) i rest zero before u r n c = absurd (omega arith)
    members_return (member k v no_members) i rest (suc fuel) before u r n c =
        let after = write_members d f p i false no_members ++ rest in
        Steps.members_close d max_depth fuel (i + 1) before _ k _ v _ rest
          (read_key-quoted p k _ (Texts.opens-serialize d f p (i + 1) v after r.0))
          (value-Returns v (i + 1) _ fuel r.0 (omega arith) (omega arith)
            (Texts.breaks-members d f p i no_members rest))
          (Texts.follow_last_member d f p i rest)
        ∙ ap (λ ms. parsed (object ms) rest) (append_members-end before k v u.0)
    members_return (member k v (member l w ms)) i rest (suc fuel) before u r n c =
        let after = write_members d f p i false (member l w ms) ++ rest in
        Steps.members_more d max_depth fuel (i + 1) before _ k _ v _ _
          (read_key-quoted p k _ (Texts.opens-serialize d f p (i + 1) v after r.0))
          (value-Returns v (i + 1) _ fuel r.0 (omega arith) (omega arith)
            (Texts.breaks-members d f p i (member l w ms) rest))
          (Texts.follow_member d f p i l w ms rest)
        ∙ ap (read_members d max_depth fuel (i + 1) (set_member k v before))
            (Texts.skip-between d f p (i + 1) _ (Texts.opens-quoted l _))
        ∙ members_return (member l w ms) i rest fuel (set_member k v before) u.1 r.1 (omega arith)
            (omega arith)
        ∙ ap (λ ms. parsed (object ms) rest) (append_members-set before k v (member l w ms) u.0)

  read_all-Returns :
      (v : Value d.Real)
      → Returns d f v
      → nesting v ≤ max_depth
      → read_all d max_depth (serialize d f p 0 v) ≡ parsed v []
  unfolding read_all skip
  read_all-Returns v r n =
      let whole = serialize d f p 0 v in
      let value =
        ap (read_value d max_depth (3 * length whole + 3) 0) (sym (append-nil whole))
        ∙ value-Returns v 0 [] (3 * length whole + 3) r (omega arith)
            (omega (arith, value_cost d f p 0 v)) refl in
      rw value refl

-- A value that is nested no deeper than the reader goes, whose numbers are read back and whose
-- objects have no two members of one name, is what the reader returns for the text that the writer
-- makes of it, compact or with indentation.
pub parse-serialize :
    (d : Double) (f : Printf d.Real) (p : Bool) (max_depth : ℕ) (v : Value d.Real)
    → Returns d f v
    → nesting v ≤ max_depth
    → parse d max_depth (serialize d f p 0 v) ≡ some v
parse-serialize d f p max_depth v r n =
    let whole = serialize d f p 0 v in
    let first = ap opens (sym (append-nil whole)) ∙ Texts.opens-serialize d f p 0 v [] r in
    parse_step d max_depth whole v []
      (ap (read_all d max_depth) (no_mark whole first) ∙ read_all-Returns d f p max_depth v r n)
