-- ===== src/Json/Write.antt =====
-- src/json.cpp: SerializeTo, AppendQuoted and FormatNumber. The two calls of snprintf are parameters;
-- what is appended to `out` is the result.
use obs_trigglow_dynamic_del.Prelude.{
  ℕ, ◌+◌, ◌*◌, ◌/◌, ◌%◌, Bool, true, false, not, ◌&&◌, ◌||◌, [], ◌∷◌, ◌++◌, map, ltb, ◌==◌,
  if◌then◌else◌, replicate,
}
use obs_trigglow_dynamic_del.Prelude.Double.{Double}
use obs_trigglow_dynamic_del.Json.{
  Bytes, same_bytes, Value, Items, Members, null, bool, number, string, array, object, no_items,
  item, no_members, member,
}
use obs_trigglow_dynamic_del.Json.Parse.{true_text, false_text, null_text}

-- kHex.
unfoldable pub hex_digit : ℕ → ℕ
hex_digit n = if ltb n 10 then 48 + n else 87 + n

-- One byte in AppendQuoted.
unfoldable pub quote_byte : ℕ → Bytes
unfolding hex_digit
quote_byte c =
    if c == 34
    then 92 ∷ 34 ∷ []
    else if c == 92
    then 92 ∷ 92 ∷ []
    else if c == 10
    then 92 ∷ 110 ∷ []
    else if c == 13
    then 92 ∷ 114 ∷ []
    else if c == 9
    then 92 ∷ 116 ∷ []
    else if ltb c 0x20 || c == 0x7F
    then 92 ∷ 117 ∷ 48 ∷ 48 ∷ hex_digit (c / 16) ∷ hex_digit (c % 16) ∷ []
    else c ∷ []

unfoldable pub quote_bytes : Bytes → Bytes
unfolding quote_byte
quote_bytes [] = []
quote_bytes (c ∷ s) = quote_byte c ++ quote_bytes s

-- AppendQuoted.
unfoldable pub quoted : Bytes → Bytes
unfolding quote_bytes
quoted s = 34 ∷ (quote_bytes s ++ 34 ∷ [])

-- AppendIndent, in the pretty form.
abbrev pub gap : Bool → ℕ → Bytes
gap pretty depth = if pretty then 10 ∷ replicate (depth * 2) 32 else []

abbrev pub colon : Bool → Bytes
colon pretty = if pretty then 58 ∷ 32 ∷ [] else 58 ∷ []

-- The comma before all but the first, and the indentation.
abbrev pub between : Bool → ℕ → Bool → Bytes
between pretty depth first = (if first then [] else 44 ∷ []) ++ gap pretty depth

-- The end of a list: indentation only after some element.
abbrev pub ending : Bool → ℕ → Bool → ℕ → Bytes
ending pretty depth first close = (if first then [] else gap pretty depth) ++ close ∷ []

-- snprintf with "%.0f" and with "%.15g".
pub record Printf (R : Type 0) : Type 0 where
  pub whole : R → Bytes
  pub general : R → Bytes

module _ (d : Double) (f : Printf d.Real) where
  open d use {Real, decimal, absolute, floor, lt, same, is_finite, of_nat}

  abbrev pub with_point : ℕ → ℕ
  with_point c = if c == 44 then 46 else c

  -- FormatNumber.
  unfoldable pub format_number : Real → Bytes
  format_number x =
      let whole = lt (absolute x) (of_nat 1000000000000000) && same x (floor x) in
      let s = map with_point (if whole then f.whole x else f.general x) in
      if not (is_finite x) then null_text else if same_bytes s (45 ∷ 48 ∷ []) then 48 ∷ [] else s

  -- SerializeTo.
  unfoldable mutual
    pub serialize : Bool → ℕ → Value Real → Bytes
    serialize pretty depth null = null_text
    serialize pretty depth (bool b) = if b then true_text else false_text
    serialize pretty depth (number x) = format_number x
    serialize pretty depth (string s) = quoted s
    serialize pretty depth (array xs) = 91 ∷ write_items pretty depth true xs
    serialize pretty depth (object ms) = 123 ∷ write_members pretty depth true ms

    -- Its loop over an array.
    pub write_items : Bool → ℕ → Bool → Items Real → Bytes
    write_items pretty depth first no_items = ending pretty depth first 93
    write_items pretty depth first (item v xs) =
        between pretty (depth + 1) first
        ++ (serialize pretty (depth + 1) v ++ write_items pretty depth false xs)

    -- Its loop over an object.
    pub write_members : Bool → ℕ → Bool → Members Real → Bytes
    write_members pretty depth first no_members = ending pretty depth first 125
    write_members pretty depth first (member k v ms) =
        between pretty (depth + 1) first
        ++ (quoted k
            ++ (colon pretty
                ++ (serialize pretty (depth + 1) v ++ write_members pretty depth false ms)))
