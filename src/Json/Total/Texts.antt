-- ===== src/Json/Total/Texts.antt =====
-- What ParseString, ParseHex4 and Consume of src/json.cpp leave of a text.
use obs_trigglow_dynamic_del.Prelude.{
  ℕ, zero, suc, ◌+◌, ◌-◌, ◌*◌, ◌≤◌, ◌<◌, Bool, true, false, not, ◌||◌, Option, none, some, [], ◌∷◌,
  ◌==◌, ltb, if◌then◌else◌, length, Bool-cases, inl, inr, arith,
}
use obs_trigglow_dynamic_del.Json.{Bytes, Value}
use obs_trigglow_dynamic_del.Json.Read.{
  Outcome, parsed, refused, starved, starts, drop_one, skip, consume, hex_value, hex_digits,
  is_high, is_low, utf8, low_half, code_unit, escape, Piece, closed, faulty, piece, next_piece,
  prepend, read_chars, read_string,
}
use obs_trigglow_dynamic_del.Json.Parse.{literal, read_key}
use obs_trigglow_dynamic_del.Json.Total.Outcomes.{
  EndsBelow, EndsBelow-if, EndsBelow-and_then, EndsBelow-weaken, SomeBelow, SomeBelow-if,
  SomeBelow-bind, SomeBelow-weaken, length-skip, length-drop_one,
}

unfoldable RestBelow : ℕ → Option Bytes → Type 0
RestBelow n none = Unit {0}
RestBelow n (some rest) = length rest < n

RestBelow-weaken : (m n : ℕ) (o : Option Bytes) → m ≤ n → RestBelow m o → RestBelow n o
unfolding RestBelow
RestBelow-weaken m n none l h = h
RestBelow-weaken m n (some rest) l h = omega arith

SomeBelow-rest :
    {A : Type 0}
    → (m n : ℕ) (o : Option Bytes) (k : Bytes → Option (A × Bytes)) → RestBelow m o
    → ((rest : Bytes) → length rest < m → SomeBelow n (k rest))
    → SomeBelow n (elim o [ none ↦ none | some rest ↦ k rest ])
unfolding RestBelow SomeBelow
SomeBelow-rest m n none k h e = h
SomeBelow-rest m n (some rest) k h e = e rest h

RestBelow-consume : (word text : Bytes) → RestBelow (suc (length text)) (consume word text)
unfolding RestBelow consume
RestBelow-consume [] text = omega arith
RestBelow-consume (l ∷ word) [] = tt
RestBelow-consume (l ∷ word) (c ∷ rest) =
    elim (l == c)
      as (λ b. RestBelow (suc (suc (length rest))) (if b then consume word rest else none)) [
        | true ↦
            RestBelow-weaken (suc (length rest)) _ (consume word rest) (omega arith)
              (RestBelow-consume word rest)
        | false ↦ tt
      ]

SomeBelow-hex_digits :
    (count out : ℕ) (text : Bytes) → SomeBelow (suc (length text)) (hex_digits count out text)
unfolding SomeBelow hex_digits
SomeBelow-hex_digits zero out text = omega arith
SomeBelow-hex_digits (suc count) out [] = tt
SomeBelow-hex_digits (suc count) out (c ∷ rest) =
    elim (hex_value c)
      as (λ v.
        SomeBelow (suc (suc (length rest)))
          (elim v [ none ↦ none | some v ↦ hex_digits count (out * 16 + v) rest ])) [
            | none ↦ tt
            | some v ↦
                SomeBelow-weaken _ _ _ (omega arith)
                  (SomeBelow-hex_digits count (out * 16 + v) rest)
          ]

SomeBelow-low_half : (text : Bytes) → SomeBelow (suc (length text)) (low_half text)
unfolding SomeBelow low_half
SomeBelow-low_half text =
    let n = suc (length text) in
    SomeBelow-rest n n (consume (92 ∷ 117 ∷ []) text) _ (RestBelow-consume (92 ∷ 117 ∷ []) text)
      λ rest r.
        SomeBelow-bind n n (hex_digits 4 0 rest) _
          (SomeBelow-weaken _ n _ r (SomeBelow-hex_digits 4 0 rest))
          λ low after a. SomeBelow-if n (is_low low) (some (low, after)) none a tt

low_half_pair :
    (cp : ℕ) (text : Bytes) (o : Option (ℕ × Bytes))
    → SomeBelow (suc (length text)) o
    → length
        (elim o as (λ o. Bytes × Bytes) [
          | some (low, after) ↦ (utf8 (0x10000 + (cp - 0xD800) * 1024 + (low - 0xDC00)), after)
          | none ↦ (utf8 0xFFFD, text)
        ]).1
      ≤ length text
unfolding SomeBelow
low_half_pair cp text none h = omega arith
low_half_pair cp text (some (low, after)) h = omega arith

length-code_unit : (cp : ℕ) (text : Bytes) → length (code_unit cp text).1 ≤ length text
unfolding code_unit
length-code_unit cp text = elim (Bool-cases (is_high cp)) [
  | inl h ↦ rw h (low_half_pair cp text (low_half text) (SomeBelow-low_half text))
  | inr h ↦ rw h (ground arith)
]

SomeBelow-escape : (text : Bytes) → SomeBelow (length text) (escape text)
unfolding SomeBelow escape
SomeBelow-escape [] = tt
SomeBelow-escape (e ∷ rest) =
    let n = suc (length rest) in
    SomeBelow-if n (e == 34 || e == 92 || e == 47) _ _ (omega arith) (
      SomeBelow-if n (e == 98) _ _ (omega arith) (
        SomeBelow-if n (e == 102) _ _ (omega arith) (
          SomeBelow-if n (e == 110) _ _ (omega arith) (
            SomeBelow-if n (e == 114) _ _ (omega arith) (
              SomeBelow-if n (e == 116) _ _ (omega arith) (
                SomeBelow-if n (e == 117) _ none
                  (SomeBelow-bind n n (hex_digits 4 0 rest) (λ cp after. some (code_unit cp after))
                    (SomeBelow-hex_digits 4 0 rest)
                    λ cp after a. omega (arith, a, length-code_unit cp after))
                  tt))))))

-- A round of ParseString goes on: it takes a byte at least, and it either closes the string or
-- leaves less to read.
unfoldable PieceBelow : ℕ → Piece → Type 0
PieceBelow n (closed rest) = length rest < n
PieceBelow n faulty = Unit {0}
PieceBelow n (piece out rest) = length rest < n

PieceBelow-if :
    (n : ℕ) (b : Bool) (p q : Piece)
    → PieceBelow n p
    → PieceBelow n q
    → PieceBelow n (if b then p else q)
PieceBelow-if n true p q h k = h
PieceBelow-if n false p q h k = k

PieceBelow-escape :
    (n : ℕ) (o : Option (Bytes × Bytes))
    → SomeBelow n o
    → PieceBelow n (elim o [ none ↦ faulty | some (out, after) ↦ piece out after ])
unfolding SomeBelow PieceBelow
PieceBelow-escape n none h = h
PieceBelow-escape n (some (out, after)) h = h

PieceBelow-next_piece : (text : Bytes) → PieceBelow (length text) (next_piece text)
unfolding next_piece PieceBelow
PieceBelow-next_piece [] = tt
PieceBelow-next_piece (c ∷ rest) =
    let n = suc (length rest) in
    PieceBelow-if n (c == 34) _ _ (omega arith) (
      PieceBelow-if n (ltb c 0x20) faulty _ tt (
        PieceBelow-if n (not (c == 92)) _ _ (omega arith) (
          PieceBelow-escape n (escape rest)
            (SomeBelow-weaken (length rest) n _ (omega arith) (SomeBelow-escape rest)))))

EndsBelow-prepend :
    (n : ℕ) (out : Bytes) (o : Outcome Bytes) → EndsBelow n o → EndsBelow n (prepend out o)
unfolding EndsBelow
EndsBelow-prepend n out (parsed s rest) h = h
EndsBelow-prepend n out refused h = h
EndsBelow-prepend n out starved h = h

EndsBelow-piece :
    (m n : ℕ) (p : Piece) (k : Bytes → Outcome Bytes)
    → PieceBelow m p
    → m ≤ n
    → ((rest : Bytes) → length rest < m → EndsBelow n (k rest))
    → EndsBelow n (elim p [
      | closed rest ↦ parsed [] rest
      | faulty ↦ refused
      | piece out rest ↦ prepend out (k rest)
    ])
unfolding PieceBelow EndsBelow
EndsBelow-piece m n (closed rest) k h l e = omega arith
EndsBelow-piece m n faulty k h l e = h
EndsBelow-piece m n (piece out rest) k h l e = EndsBelow-prepend n out (k rest) (e rest h)

EndsBelow-read_chars :
    (fuel : ℕ) (text : Bytes) → length text < fuel → EndsBelow (length text) (read_chars fuel text)
unfolding read_chars EndsBelow
EndsBelow-read_chars zero text h = absurd (omega arith)
EndsBelow-read_chars (suc fuel) text h =
    EndsBelow-piece (length text) (length text) (next_piece text) (read_chars fuel)
      (PieceBelow-next_piece text) (omega arith)
      λ rest r.
        EndsBelow-weaken _ _ _ (omega (arith, r))
          (EndsBelow-read_chars fuel rest (omega (arith, r, h)))

pub EndsBelow-read_string : (text : Bytes) → EndsBelow (length text) (read_string text)
unfolding read_string
EndsBelow-read_string text = EndsBelow-read_chars (suc (length text)) text (omega arith)

EndsBelow-rest :
    {A : Type 0}
    → (n : ℕ) (o : Option Bytes) (v : A) → RestBelow n o
    → EndsBelow n (elim o [ none ↦ refused | some rest ↦ parsed v rest ])
unfolding RestBelow EndsBelow
EndsBelow-rest n none v h = h
EndsBelow-rest n (some rest) v h = h

pub EndsBelow-literal :
    {R : Type 0}
    → (word : Bytes) (v : Value R) (text : Bytes)
    → EndsBelow (suc (length text)) (literal word v text)
unfolding literal
EndsBelow-literal word v text =
    EndsBelow-rest (suc (length text)) (consume word text) v (RestBelow-consume word text)

pub EndsBelow-read_key : (text : Bytes) → EndsBelow (suc (length text)) (read_key text)
unfolding read_key EndsBelow
EndsBelow-read_key text =
    let n = suc (length text) in
    EndsBelow-if n (not (starts 34 text)) refused _ tt (
      EndsBelow-and_then n n (read_string (drop_one text)) _
        (EndsBelow-weaken _ n _ (omega (arith, length-drop_one text))
          (EndsBelow-read_string (drop_one text)))
        λ key rest r.
          EndsBelow-if n (starts 58 (skip rest)) _ refused
            (omega (
              arith,
              r,
              length-skip rest,
              length-drop_one (skip rest),
              length-skip (drop_one (skip rest)),
            ))
            tt)
