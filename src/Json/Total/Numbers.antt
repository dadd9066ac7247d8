-- ===== src/Json/Total/Numbers.antt =====
-- What ParseNumber of src/json.cpp leaves of a text.
use obs_trigglow_dynamic_del.Prelude.{
  ℕ, suc, ◌+◌, ◌-◌, ◌*◌, ◌≤◌, ◌<◌, ◌≡◌, Bool, true, false, not, ◌&&◌, ◌||◌, none, some, [], ◌∷◌,
  ltb, if◌then◌else◌, length, Bool-cases, inl, inr, arith,
}
use obs_trigglow_dynamic_del.Prelude.Double.{Double}
use obs_trigglow_dynamic_del.Json.{Bytes}
use obs_trigglow_dynamic_del.Json.Read.{
  refused, starts, starts_digit, drop_one, Digits, no_digits, add_digit, eat_digits, eat_exponent,
  read_integer, read_fraction, read_exponent, read_number, scale,
}
use obs_trigglow_dynamic_del.Json.Total.Outcomes.{
  EndsBelow, EndsBelow-if, EndsBelow-bind, SomeBelow, SomeBelow-if, SomeBelow-weaken,
  length-drop_one,
}

length-eat_exponent : (e : ℕ) (text : Bytes) → length (eat_exponent e text).1 ≤ length text
unfolding eat_exponent
length-eat_exponent e [] = omega arith
length-eat_exponent e (c ∷ rest) =
    let more = length-eat_exponent (if ltb e 100000 then e * 10 + (c - 48) else e) rest in
    ground (arith, more)

length-drop_one_pos :
    (text : Bytes) → starts_digit text ≡ true → length (drop_one text) < length text
length-drop_one_pos [] h = absurd (ground arith)
length-drop_one_pos (c ∷ rest) h = omega arith

length_digits :
    (b : Bool) (text : Bytes)
    → length (if b then drop_one (drop_one text) else drop_one text) ≤ length text
length_digits true text = omega (arith, length-drop_one text, length-drop_one (drop_one text))
length_digits false text = length-drop_one text

length_unsigned :
    (b : Bool) (text : Bytes) → length (if b then drop_one text else text) ≤ length text
length_unsigned true text = length-drop_one text
length_unsigned false text = omega arith

module _ (d : Double) where
  length-eat_digits :
      (fraction : Bool) (a : Digits d) (text : Bytes)
      → length (eat_digits d fraction a text).1 ≤ length text
  unfolding eat_digits
  length-eat_digits fraction a [] = omega arith
  length-eat_digits fraction a (c ∷ rest) =
      let more = length-eat_digits fraction (add_digit d fraction a c) rest in ground (arith, more)

  -- At least one digit is taken.
  eat_digits_pos :
      (a : Digits d) (text : Bytes)
      → starts_digit text ≡ true
      → length (eat_digits d false a text).1 < length text
  unfolding eat_digits
  eat_digits_pos a [] h = absurd (ground arith)
  eat_digits_pos a (c ∷ rest) h =
      rw h (omega (arith, length-eat_digits false (add_digit d false a c) rest))

  SomeBelow-read_integer : (text : Bytes) → SomeBelow (length text) (read_integer d text)
  unfolding read_integer SomeBelow
  SomeBelow-read_integer text = elim (Bool-cases (starts_digit text)) [
    | inl h ↦ rw h (
        SomeBelow-if (length text) (starts 48 text)
          (if starts_digit (drop_one text) then none else some (no_digits d, drop_one text))
          (some (eat_digits d false (no_digits d) text))
          (SomeBelow-if (length text) (starts_digit (drop_one text)) none
            (some (no_digits d, drop_one text)) tt (length-drop_one_pos text h))
          (eat_digits_pos (no_digits d) text h))
    | inr h ↦ rw h tt
  ]

  SomeBelow-read_fraction :
      (a : Digits d) (text : Bytes) → SomeBelow (suc (length text)) (read_fraction d a text)
  unfolding read_fraction SomeBelow
  SomeBelow-read_fraction a text =
      SomeBelow-if (suc (length text)) (not (starts 46 text)) (some (a, text)) _ (omega arith) (
        SomeBelow-if (suc (length text)) (not (starts_digit (drop_one text))) none
          (some (eat_digits d true a (drop_one text))) tt
          (omega (arith, length-eat_digits true a (drop_one text), length-drop_one text)))

  SomeBelow-read_exponent :
      (a : Digits d) (text : Bytes) → SomeBelow (suc (length text)) (read_exponent d a text)
  unfolding read_exponent SomeBelow
  SomeBelow-read_exponent a text =
      let signed = starts 43 (drop_one text) || starts 45 (drop_one text) in
      let digits = if signed then drop_one (drop_one text) else drop_one text in
      let n = suc (length text) in
      let shorter = length_digits signed text in
      let left : length (eat_exponent 0 digits).1 < n =
        omega (arith, length-eat_exponent 0 digits, shorter) in
      SomeBelow-if n (not (starts 101 text) && not (starts 69 text)) (some (a, text)) _
        (omega arith)
        (SomeBelow-if n (not (starts_digit digits)) none _ tt (
          SomeBelow-if n (starts 45 (drop_one text)) (some (_, (eat_exponent 0 digits).1))
            (some (_, (eat_exponent 0 digits).1)) left left))

  -- ParseNumber leaves less than it was given.
  pub EndsBelow-read_number : (text : Bytes) → EndsBelow (length text) (read_number d text)
  unfolding read_number EndsBelow
  EndsBelow-read_number text =
      let n = length text in
      let negative = starts 45 text in
      EndsBelow-bind n n _ _
        (SomeBelow-weaken _ n _ (length_unsigned negative text)
          (SomeBelow-read_integer (if negative then drop_one text else text)))
        λ a more m.
          EndsBelow-bind n n _ _
            (SomeBelow-weaken _ n _ (omega (arith, m)) (SomeBelow-read_fraction a more))
            λ b most k.
              EndsBelow-bind n n _ _
                (SomeBelow-weaken _ n _ (omega (arith, k)) (SomeBelow-read_exponent b most))
                λ c rest l. EndsBelow-if n (not (d.is_finite (scale d c))) refused _ tt l
