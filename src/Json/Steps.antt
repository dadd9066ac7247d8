-- ===== src/Json/Steps.antt =====
-- One call of src/json.cpp's Parser at a time, on texts of a known shape.
use obs_trigglow_dynamic_del.Prelude.{
  ℕ, zero, suc, ◌+◌, ◌*◌, ◌≡◌, refl, Bool, true, false, ◌||◌, [], ◌∷◌, ◌++◌, ltb, ◌==◌, replicate,
  arith,
}
use obs_trigglow_dynamic_del.Prelude.Double.{Double}
use obs_trigglow_dynamic_del.Json.{
  Bytes, Value, Items, Members, number, string, array, object, no_items, no_members, set_member,
  push_item,
}
use obs_trigglow_dynamic_del.Json.Read.{
  parsed, starts, drop_one, skip, is_digit, read_string, read_number,
}
use obs_trigglow_dynamic_del.Json.Parse.{
  other, lead, closing, comma, follow, read_key, read_value, read_array, read_items, read_object,
  read_members,
}
use obs_trigglow_dynamic_del.Json.Write.{gap, colon}

-- The first bytes of values.
abbrev pub opens : Bytes → Bool
opens [] = false
opens (c ∷ rest) =
    c == 123 || c == 91 || c == 34 || c == 116 || c == 102 || c == 110 || c == 45 || is_digit c

-- What may follow a number: the bytes after which it cannot go on.
abbrev pub breaks : Bytes → Bool
breaks [] = true
breaks (c ∷ rest) = c == 44 || c == 93 || c == 125 || c == 10

pub skip-opens : (text : Bytes) → opens text ≡ true → skip text ≡ text
unfolding skip
skip-opens [] h = refl
skip-opens (c ∷ rest) h = ground arith

pub opens_not_close :
    (text : Bytes) → opens text ≡ true → (starts 93 text ≡ false) × (starts 125 text ≡ false)
opens_not_close [] h = (refl, refl)
opens_not_close (c ∷ rest) h = (ground arith, ground arith)

skip_blanks : (n : ℕ) (text : Bytes) → skip (replicate n 32 ++ text) ≡ skip text
unfolding skip
skip_blanks zero text = refl
skip_blanks (suc n) text = skip_blanks n text

pub skip-gap :
    (pretty : Bool) (depth : ℕ) (text : Bytes) → skip (gap pretty depth ++ text) ≡ skip text
unfolding skip
skip-gap true depth text = skip_blanks (depth * 2) text
skip-gap false depth text = refl

module _ (d : Double) (max_depth : ℕ) where
  pub value_array :
      (fuel depth : ℕ) (text : Bytes)
      → read_value d max_depth (suc fuel) depth (91 ∷ text)
        ≡ read_array d max_depth fuel (depth + 1) text
  unfolding read_value lead
  value_array fuel depth text = refl

  pub value_object :
      (fuel depth : ℕ) (text : Bytes)
      → read_value d max_depth (suc fuel) depth (123 ∷ text)
        ≡ read_object d max_depth fuel (depth + 1) text
  unfolding read_value lead
  value_object fuel depth text = refl

  pub value_string :
      (fuel depth : ℕ) (text s rest : Bytes)
      → read_string text ≡ parsed s rest
      → read_value d max_depth (suc fuel) depth (34 ∷ text) ≡ parsed (string s) rest
  unfolding read_value lead
  value_string fuel depth text s rest e = ground (arith, e)

  pub value_number :
      (fuel depth : ℕ) (text : Bytes) (x : d.Real) (rest : Bytes)
      → lead text ≡ other
      → read_number d text ≡ parsed x rest
      → read_value d max_depth (suc fuel) depth text ≡ parsed (number x) rest
  unfolding read_value
  value_number fuel depth text x rest l e = ground (arith, l, e)

  pub array_items :
      (fuel depth : ℕ) (text : Bytes)
      → ltb max_depth depth ≡ false
      → starts 93 (skip text) ≡ false
      → read_array d max_depth (suc fuel) depth text
        ≡ read_items d max_depth fuel depth no_items (skip text)
  unfolding read_array
  array_items fuel depth text a b = ground (arith, a, b)

  pub object_members :
      (fuel depth : ℕ) (text : Bytes)
      → ltb max_depth depth ≡ false
      → starts 125 (skip text) ≡ false
      → read_object d max_depth (suc fuel) depth text
        ≡ read_members d max_depth fuel depth no_members (skip text)
  unfolding read_object
  object_members fuel depth text a b = ground (arith, a, b)

  pub array_empty :
      (fuel depth : ℕ) (rest : Bytes)
      → ltb max_depth depth ≡ false
      → read_array d max_depth (suc fuel) depth (93 ∷ rest) ≡ parsed (array no_items) rest
  unfolding read_array skip
  array_empty fuel depth rest a = ground (arith, a)

  pub object_empty :
      (fuel depth : ℕ) (rest : Bytes)
      → ltb max_depth depth ≡ false
      → read_object d max_depth (suc fuel) depth (125 ∷ rest) ≡ parsed (object no_members) rest
  unfolding read_object skip
  object_empty fuel depth rest a = ground (arith, a)

  pub items_close :
      (fuel depth : ℕ) (before : Items d.Real) (text : Bytes) (v : Value d.Real)
      (rest after : Bytes)
      → read_value d max_depth fuel depth text ≡ parsed v rest
      → follow 93 (skip rest) ≡ closing after
      → read_items d max_depth (suc fuel) depth before text
        ≡ parsed (array (push_item before v)) after
  unfolding read_items
  items_close fuel depth before text v rest after e f = ground (arith, e, f)

  pub items_more :
      (fuel depth : ℕ) (before : Items d.Real) (text : Bytes) (v : Value d.Real)
      (rest after : Bytes)
      → read_value d max_depth fuel depth text ≡ parsed v rest
      → follow 93 (skip rest) ≡ comma after
      → read_items d max_depth (suc fuel) depth before text
        ≡ read_items d max_depth fuel depth (push_item before v) (skip after)
  unfolding read_items
  items_more fuel depth before text v rest after e f = ground (arith, e, f)

  pub members_close :
      (fuel depth : ℕ) (before : Members d.Real) (text key value_text : Bytes) (v : Value d.Real)
      (rest after : Bytes)
      → read_key text ≡ parsed key value_text
      → read_value d max_depth fuel depth value_text ≡ parsed v rest
      → follow 125 (skip rest) ≡ closing after
      → read_members d max_depth (suc fuel) depth before text
        ≡ parsed (object (set_member key v before)) after
  unfolding read_members
  members_close fuel depth before text key value_text v rest after k e f = ground (arith, k, e, f)

  pub members_more :
      (fuel depth : ℕ) (before : Members d.Real) (text key value_text : Bytes) (v : Value d.Real)
      (rest after : Bytes)
      → read_key text ≡ parsed key value_text
      → read_value d max_depth fuel depth value_text ≡ parsed v rest
      → follow 125 (skip rest) ≡ comma after
      → read_members d max_depth (suc fuel) depth before text
        ≡ read_members d max_depth fuel depth (set_member key v before) (skip after)
  unfolding read_members
  members_more fuel depth before text key value_text v rest after k e f = ground (arith, k, e, f)

pub key_step :
    (text k rest : Bytes)
    → read_string text ≡ parsed k rest
    → starts 58 (skip rest) ≡ true
    → read_key (34 ∷ text) ≡ parsed k (skip (drop_one (skip rest)))
unfolding read_key
key_step text k rest e s = ground (arith, e, s)

pub skip-colon :
    (pretty : Bool) (text : Bytes)
    → (starts 58 (skip (colon pretty ++ text)) ≡ true)
      × (skip (drop_one (skip (colon pretty ++ text))) ≡ skip text)
unfolding skip
skip-colon true text = (refl, refl)
skip-colon false text = (refl, refl)
