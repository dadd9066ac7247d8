-- ===== src/Json/Read.antt =====
-- src/json.cpp, class Parser, up to ParseNumber. A position in the text is the list of the bytes from there on. A read
-- that fails is `refused`; `starved` has no counterpart: it is a read whose fuel ran out.
use obs_trigglow_dynamic_del.Prelude.{
  ℕ, zero, suc, ◌+◌, ◌-◌, ◌*◌, ◌/◌, ◌%◌, Bool, true, false, not, ◌&&◌, ◌||◌, Option, none, some, [],
  ◌∷◌, ◌++◌, ltb, leb, ◌==◌, if◌then◌else◌, length,
}
use obs_trigglow_dynamic_del.Prelude.Double.{Double}
use obs_trigglow_dynamic_del.Json.{Bytes}

pub data Outcome {ℓ} (A : Type ℓ) : Type ℓ where
  parsed : A → Bytes → Outcome A
  refused starved : Outcome A

abbrev pub and_then {ℓ κ} :
    {A : Type ℓ} {B : Type κ} → Outcome A → (A → Bytes → Outcome B) → Outcome B
and_then (parsed a rest) k = k a rest
and_then refused k = refused
and_then starved k = starved

-- Peek is a test of the next byte here: `starts c` is `Peek() == c` for a `c` that is not '\0'.
abbrev pub starts : ℕ → Bytes → Bool
starts c [] = false
starts c (e ∷ rest) = e == c

abbrev pub drop_one : Bytes → Bytes
drop_one [] = []
drop_one (c ∷ rest) = rest

abbrev pub is_space : ℕ → Bool
is_space c = c == 32 || c == 9 || c == 10 || c == 13

-- SkipWhitespace.
unfoldable pub skip : Bytes → Bytes
skip [] = []
skip (c ∷ rest) = if is_space c then skip rest else c ∷ rest

-- Consume: the rest after the literal.
unfoldable pub consume : Bytes → Bytes → Option Bytes
consume [] text = some text
consume (l ∷ literal) [] = none
consume (l ∷ literal) (c ∷ rest) = if l == c then consume literal rest else none

abbrev pub is_digit : ℕ → Bool
is_digit c = leb 48 c && leb c 57

abbrev pub starts_digit : Bytes → Bool
starts_digit [] = false
starts_digit (c ∷ rest) = is_digit c

-- The digit's value in ParseHex4.
unfoldable pub hex_value : ℕ → Option ℕ
hex_value c =
    if is_digit c
    then some (c - 48)
    else if leb 97 c && leb c 102
    then some (c - 87)
    else if leb 65 c && leb c 70
    then some (c - 55)
    else none

-- ParseHex4, over `count` digits; `out <<= 4` and `|=` of a digit.
unfoldable pub hex_digits : ℕ → ℕ → Bytes → Option (ℕ × Bytes)
unfolding hex_value
hex_digits zero out text = some (out, text)
hex_digits (suc count) out [] = none
hex_digits (suc count) out (c ∷ rest) = elim (hex_value c) [
  | none ↦ none
  | some v ↦ hex_digits count (out * 16 + v) rest
]

abbrev pub is_high : ℕ → Bool
is_high cp = leb 0xD800 cp && leb cp 0xDBFF

abbrev pub is_low : ℕ → Bool
is_low cp = leb 0xDC00 cp && leb cp 0xDFFF

-- AppendUtf8.
unfoldable pub utf8 : ℕ → Bytes
utf8 cp =
    if ltb cp 0x80
    then cp ∷ []
    else if ltb cp 0x800
    then (0xC0 + cp / 64) ∷ (0x80 + cp % 64) ∷ []
    else if ltb cp 0x10000
    then (0xE0 + cp / 4096) ∷ (0x80 + cp / 64 % 64) ∷ (0x80 + cp % 64) ∷ []
    else (0xF0 + cp / 262144)
      ∷ (0x80 + cp / 4096 % 64)
      ∷ (0x80 + cp / 64 % 64)
      ∷ (0x80 + cp % 64)
      ∷ []

-- The low half of a surrogate pair, with the text after it.
unfoldable pub low_half : Bytes → Option (ℕ × Bytes)
unfolding consume hex_digits
low_half text = elim (consume (92 ∷ 117 ∷ []) text) [
  | none ↦ none
  | some rest ↦ elim (hex_digits 4 0 rest) [
    | none ↦ none
    | some (low, after) ↦ if is_low low then some (low, after) else none
  ]
]

-- The case 'u', once its four digits are read.
unfoldable pub code_unit : ℕ → Bytes → Bytes × Bytes
unfolding low_half utf8
code_unit cp text =
    if is_high cp
    then elim (low_half text) [
      | some (low, after) ↦ (utf8 (0x10000 + (cp - 0xD800) * 1024 + (low - 0xDC00)), after)
      | none ↦ (utf8 0xFFFD, text)
    ]
    else if is_low cp
    then (utf8 0xFFFD, text)
    else (utf8 cp, text)

-- An escape, after its backslash: the bytes it stands for, and the text after it.
unfoldable pub escape : Bytes → Option (Bytes × Bytes)
unfolding hex_digits code_unit
escape [] = none
escape (e ∷ rest) =
    if e == 34 || e == 92 || e == 47
    then some (e ∷ [], rest)
    else if e == 98
    then some (8 ∷ [], rest)
    else if e == 102
    then some (12 ∷ [], rest)
    else if e == 110
    then some (10 ∷ [], rest)
    else if e == 114
    then some (13 ∷ [], rest)
    else if e == 116
    then some (9 ∷ [], rest)
    else if e == 117
    then elim (hex_digits 4 0 rest) [ none ↦ none | some (cp, after) ↦ some (code_unit cp after) ]
    else none

-- One round of the loop of ParseString: the end of the string, a fault, or some bytes of it.
pub data Piece : Type 0 where
  closed : Bytes → Piece
  faulty : Piece
  piece : Bytes → Bytes → Piece

unfoldable pub next_piece : Bytes → Piece
unfolding escape
next_piece [] = faulty
next_piece (c ∷ rest) =
    if c == 34
    then closed rest
    else if ltb c 0x20
    then faulty
    else if not (c == 92)
    then piece (c ∷ []) rest
    else elim (escape rest) [ none ↦ faulty | some (out, after) ↦ piece out after ]

abbrev pub prepend : Bytes → Outcome Bytes → Outcome Bytes
prepend out (parsed s rest) = parsed (out ++ s) rest
prepend out refused = refused
prepend out starved = starved

-- The loop of ParseString, after the opening quote.
unfoldable pub read_chars : ℕ → Bytes → Outcome Bytes
unfolding next_piece
read_chars zero text = starved
read_chars (suc fuel) text = elim (next_piece text) [
  | closed rest ↦ parsed [] rest
  | faulty ↦ refused
  | piece out rest ↦ prepend out (read_chars fuel rest)
]

-- ParseString, after the opening quote: a round takes a byte at least, so the length is fuel enough.
unfoldable pub read_string : Bytes → Outcome Bytes
unfolding read_chars
read_string text = read_chars (suc (length text)) text

-- The digits of the exponent, which stops growing at 100000.
unfoldable pub eat_exponent : ℕ → Bytes → ℕ × Bytes
eat_exponent e [] = (e, [])
eat_exponent e (c ∷ rest) =
    if is_digit c
    then eat_exponent (if ltb e 100000 then e * 10 + (c - 48) else e) rest
    else (e, c ∷ rest)

module _ (d : Double) where
  open d use {Real, of_nat, add, mul, div, negate, same, pow, is_finite}

  -- What ParseNumber has of a number so far; its `exponent` is `grow - shrink`.
  pub record Digits : Type 0 where
    pub mantissa : Real
    pub significant : ℕ
    pub grow : ℕ
    pub shrink : ℕ

  abbrev pub no_digits : Digits
  no_digits = record { mantissa = of_nat 0; significant = 0; grow = 0; shrink = 0 }

  -- addDigit.
  unfoldable pub add_digit : Bool → Digits → ℕ → Digits
  add_digit fraction a c =
      let m = add (mul a.mantissa (of_nat 10)) (of_nat (c - 48)) in
      if ltb a.significant 17
      then record {
        mantissa = m;
        significant = if same m (of_nat 0) then a.significant else a.significant + 1;
        grow = a.grow;
        shrink = if fraction then a.shrink + 1 else a.shrink;
      }
      else if not fraction
      then record a { grow = a.grow + 1 }
      else a

  unfoldable pub eat_digits : Bool → Digits → Bytes → Digits × Bytes
  unfolding add_digit
  eat_digits fraction a [] = (a, [])
  eat_digits fraction a (c ∷ rest) =
      if is_digit c then eat_digits fraction (add_digit fraction a c) rest else (a, c ∷ rest)

  -- The value of a mantissa and an exponent.
  unfoldable pub scale : Digits → Real
  scale a =
      let power = pow (of_nat 10) in
      if same a.mantissa (of_nat 0)
      then a.mantissa
      else if ltb a.grow a.shrink
      then if leb (a.shrink - a.grow) 22
        then div a.mantissa (power (of_nat (a.shrink - a.grow)))
        else mul a.mantissa (power (negate (of_nat (a.shrink - a.grow))))
      else if a.grow == a.shrink
      then a.mantissa
      else mul a.mantissa (power (of_nat (a.grow - a.shrink)))

  -- The integer part.
  unfoldable pub read_integer : Bytes → Option (Digits × Bytes)
  unfolding eat_digits
  read_integer text =
      if not (starts_digit text)
      then none
      else if starts 48 text
      then if starts_digit (drop_one text) then none else some (no_digits, drop_one text)
      else some (eat_digits false no_digits text)

  -- The fraction.
  unfoldable pub read_fraction : Digits → Bytes → Option (Digits × Bytes)
  unfolding eat_digits
  read_fraction a text =
      if not (starts 46 text)
      then some (a, text)
      else if not (starts_digit (drop_one text))
      then none
      else some (eat_digits true a (drop_one text))

  -- The exponent.
  unfoldable pub read_exponent : Digits → Bytes → Option (Digits × Bytes)
  unfolding eat_exponent
  read_exponent a text =
      let signed = starts 43 (drop_one text) || starts 45 (drop_one text) in
      let digits = if signed then drop_one (drop_one text) else drop_one text in
      let (e, rest) = eat_exponent 0 digits in
      if not (starts 101 text) && not (starts 69 text)
      then some (a, text)
      else if not (starts_digit digits)
      then none
      else if starts 45 (drop_one text)
      then some (record a { shrink = a.shrink + e }, rest)
      else some (record a { grow = a.grow + e }, rest)

  -- ParseNumber.
  unfoldable pub read_number : Bytes → Outcome Real
  unfolding read_integer read_fraction read_exponent scale
  read_number text =
      let negative = starts 45 text in
      elim (read_integer (if negative then drop_one text else text)) [
        | none ↦ refused
        | some (a, more) ↦ elim (read_fraction a more) [
          | none ↦ refused
          | some (b, most) ↦ elim (read_exponent b most) [
            | none ↦ refused
            | some (c, rest) ↦
                if not (is_finite (scale c))
                then refused
                else parsed (if negative then negate (scale c) else scale c) rest
          ]
        ]
      ]
