-- ===== src/Json/Strings.antt =====
-- What src/json.cpp's AppendQuoted writes, ParseString reads.
use obs_trigglow_dynamic_del.Prelude.{
  ℕ, zero, suc, ◌+◌, ◌*◌, ◌/◌, ◌%◌, ◌≤◌, ◌<◌, ◌≡◌, refl, ap, sym, subst, ==_iff, ◌∙◌, true, false,
  ◌||◌, some, [], ◌∷◌, ◌++◌, ltb, ◌==◌, if◌then◌else◌, length, length-append, Bool-cases, inl, inr,
  arith,
}
use mathlib.Core.List.{append_assoc}
use obs_trigglow_dynamic_del.Json.{Bytes}
use obs_trigglow_dynamic_del.Json.Read.{
  parsed, hex_value, hex_digits, utf8, code_unit, escape, piece, next_piece, read_chars,
  read_string, prepend,
}
use obs_trigglow_dynamic_del.Json.Write.{hex_digit, quote_byte, quote_bytes}

hex_value-hex_digit : (n : ℕ) → n < 16 → hex_value (hex_digit n) ≡ some n
unfolding hex_value hex_digit
hex_value-hex_digit n h = ground arith

hex_digits_step :
    (count out c v : ℕ) (rest : Bytes)
    → hex_value c ≡ some v
    → hex_digits (suc count) out (c ∷ rest) ≡ hex_digits count (out * 16 + v) rest
unfolding hex_digits
hex_digits_step count out c v rest e = ground (arith, e)

zero_digit : hex_value 48 ≡ some 0
unfolding hex_value
zero_digit = refl

last_digit :
    (c : ℕ) (rest : Bytes) → hex_digits 0 ((0 * 16 + c / 16) * 16 + c % 16) rest ≡ some (c, rest)
unfolding hex_digits
last_digit c rest = ap (λ n. some (n, rest)) (omega arith)

-- A control byte as its four digits.
control_digits :
    (c : ℕ) (rest : Bytes)
    → c < 128
    → hex_digits 4 0 (48 ∷ 48 ∷ hex_digit (c / 16) ∷ hex_digit (c % 16) ∷ rest) ≡ some (c, rest)
control_digits c rest h =
    hex_digits_step 3 0 48 0 _ zero_digit
    ∙ hex_digits_step 2 0 48 0 _ zero_digit
    ∙ hex_digits_step 1 0 _ (c / 16) _ (hex_value-hex_digit (c / 16) (omega arith))
    ∙ hex_digits_step 0 (0 * 16 + c / 16) _ (c % 16) rest
        (hex_value-hex_digit (c % 16) (omega arith))
    ∙ last_digit c rest

code_unit_ascii : (c : ℕ) (rest : Bytes) → c < 128 → code_unit c rest ≡ (c ∷ [], rest)
unfolding code_unit utf8
code_unit_ascii c rest h = ground arith

-- The whole escape of a control byte.
next_piece_control :
    (c : ℕ) (rest : Bytes)
    → c < 128
    → next_piece (92 ∷ 117 ∷ 48 ∷ 48 ∷ hex_digit (c / 16) ∷ hex_digit (c % 16) ∷ rest)
      ≡ piece (c ∷ []) rest
unfolding next_piece escape
next_piece_control c rest h = ground (arith, control_digits c rest h, code_unit_ascii c rest h)

-- A byte that is copied.
next_piece_plain :
    (c : ℕ) (rest : Bytes)
    → (c == 34) ≡ false
    → (c == 92) ≡ false
    → ltb c 0x20 ≡ false
    → next_piece (c ∷ rest) ≡ piece (c ∷ []) rest
unfolding next_piece
next_piece_plain c rest a b e = rw (a, b, e) refl

abbrev IsRead : Bytes → ℕ → Type 0
IsRead rest c = next_piece (quote_byte c ++ rest) ≡ piece (c ∷ []) rest

at_special : (rest : Bytes) (c n : ℕ) → (c == n) ≡ true → IsRead rest n → IsRead rest c
at_special rest c n e r = subst (IsRead rest) (sym ((==_iff c n).0 e)) r

IsRead-specials :
    (rest : Bytes)
    → IsRead rest 34 × IsRead rest 92 × IsRead rest 10 × IsRead rest 13 × IsRead rest 9
unfolding quote_byte next_piece escape
IsRead-specials rest = (refl, refl, refl, refl, refl)

quote_byte_other :
    (c : ℕ)
    → (c == 34) ≡ false
    → (c == 92) ≡ false
    → (c == 10) ≡ false
    → (c == 13) ≡ false
    → (c == 9) ≡ false
    → quote_byte c ≡ (
        if ltb c 0x20 || c == 0x7F
        then 92 ∷ 117 ∷ 48 ∷ 48 ∷ hex_digit (c / 16) ∷ hex_digit (c % 16) ∷ []
        else c ∷ [])
unfolding quote_byte
quote_byte_other c a b d e f = rw (a, b, d, e, f) refl

-- One written byte is one piece of the string.
pub next_piece-quote_byte :
    (c : ℕ) (rest : Bytes) → next_piece (quote_byte c ++ rest) ≡ piece (c ∷ []) rest
next_piece-quote_byte c rest =
    let (a, b, d, e, f) = IsRead-specials rest in
    elim (Bool-cases (c == 34)) [
      | inl h ↦ at_special rest c 34 h a
      | inr p ↦ elim (Bool-cases (c == 92)) [
        | inl h ↦ at_special rest c 92 h b
        | inr q ↦ elim (Bool-cases (c == 10)) [
          | inl h ↦ at_special rest c 10 h d
          | inr r ↦ elim (Bool-cases (c == 13)) [
            | inl h ↦ at_special rest c 13 h e
            | inr s ↦ elim (Bool-cases (c == 9)) [
              | inl h ↦ at_special rest c 9 h f
              | inr t ↦
                  rw (quote_byte_other c p q r s t) (elim (Bool-cases (ltb c 0x20 || c == 0x7F)) [
                    | inl h ↦ rw h (next_piece_control c rest (ground arith))
                    | inr h ↦ rw h (next_piece_plain c rest p q (ground arith))
                  ])
            ]
          ]
        ]
      ]
    ]

read_chars_piece :
    (fuel : ℕ) (text out rest : Bytes)
    → next_piece text ≡ piece out rest
    → read_chars (suc fuel) text ≡ prepend out (read_chars fuel rest)
unfolding read_chars
read_chars_piece fuel text out rest e = ground (arith, e)

read_chars_closed : (fuel : ℕ) (rest : Bytes) → read_chars (suc fuel) (34 ∷ rest) ≡ parsed [] rest
unfolding read_chars next_piece
read_chars_closed fuel rest = refl

-- Fuel for a round per byte, and one for the closing quote.
read_chars-quote_bytes :
    (s rest : Bytes) (fuel : ℕ)
    → length s < fuel
    → read_chars fuel (quote_bytes s ++ 34 ∷ rest) ≡ parsed s rest
unfolding quote_bytes
read_chars-quote_bytes s rest zero h = absurd (omega arith)
read_chars-quote_bytes [] rest (suc fuel) h = read_chars_closed fuel rest
read_chars-quote_bytes (c ∷ s) rest (suc fuel) h =
    ap (read_chars (suc fuel)) (append_assoc (quote_byte c) (quote_bytes s) (34 ∷ rest))
    ∙ read_chars_piece fuel _ (c ∷ []) _ (next_piece-quote_byte c (quote_bytes s ++ 34 ∷ rest))
    ∙ ap (prepend (c ∷ [])) (read_chars-quote_bytes s rest fuel (omega arith))

quote_byte_pos : (c : ℕ) → 0 < length (quote_byte c)
unfolding quote_byte
quote_byte_pos c = ground arith

length-quote_bytes : (s : Bytes) → length s ≤ length (quote_bytes s)
unfolding quote_bytes
length-quote_bytes [] = omega arith
length-quote_bytes (c ∷ s) =
    omega
      (arith, length-quote_bytes s, quote_byte_pos c, length-append (quote_byte c) (quote_bytes s))

-- ParseString reads what AppendQuoted wrote, after the opening quote, and leaves the text after the
-- closing one.
pub read_string-quoted : (s rest : Bytes) → read_string (quote_bytes s ++ 34 ∷ rest) ≡ parsed s rest
unfolding read_string
read_string-quoted s rest =
    read_chars-quote_bytes s rest (suc (length (quote_bytes s ++ 34 ∷ rest)))
      (omega (arith, length-quote_bytes s, length-append (quote_bytes s) (34 ∷ rest)))
