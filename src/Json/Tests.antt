-- ===== src/Json/Tests.antt =====
-- Runs of the models of src/json.cpp.
use obs_trigglow_dynamic_del.Prelude.{
  ℕ, ◌+◌, ◌/◌, ◌≤◌, ◌≡◌, refl, true, false, none, some, [], ◌∷◌, ◌==◌, Bool-cases, inl, inr, subst,
  sym, ==_iff, arith,
}
use obs_trigglow_dynamic_del.Prelude.Milli.{milli}
use obs_trigglow_dynamic_del.Json.{
  Bytes, Value, Members, null, bool, number, array, object, no_items, item, no_members, member, set,
  find, set_member,
}
use obs_trigglow_dynamic_del.Json.Read.{parsed, read_number, read_string, skip}
use obs_trigglow_dynamic_del.Json.Parse.{parse, lead, read_all, read_value, read_key, follow}
use obs_trigglow_dynamic_del.Json.Write.{Printf, quoted, serialize, format_number}
use obs_trigglow_dynamic_del.Json.Steps.{breaks}
use obs_trigglow_dynamic_del.Json.Lookup.{IsDistinct, find-set}
use obs_trigglow_dynamic_del.Json.Returns.{NumberReturns, Returns, nesting}
use obs_trigglow_dynamic_del.Json.RoundTrip.{parse-serialize}
use obs_trigglow_dynamic_del.Json.Total.{read_all_ends}
use obs_trigglow_dynamic_del.Json.Total.Outcomes.{EndsBelow}

-- snprintf on the whole numbers below ten.
abbrev one_digit : Printf ℕ
one_digit = record { whole = λ x. (48 + x / 1000) ∷ []; general = λ x. (48 + x / 1000) ∷ [] }

abbrev SevenReads : Bytes → ℕ → Type 0
SevenReads rest c = read_number milli (55 ∷ c ∷ rest) ≡ parsed 7000 (c ∷ rest)

seven_before :
    (rest : Bytes)
    → SevenReads rest 44 × SevenReads rest 93 × SevenReads rest 125 × SevenReads rest 10
unfolding read_number
seven_before rest = (refl, refl, refl, refl)

seven_at : (rest : Bytes) (c n : ℕ) → (c == n) ≡ true → SevenReads rest n → SevenReads rest c
seven_at rest c n e r = subst (SevenReads rest) (sym ((==_iff c n).0 e)) r

read_seven : (rest : Bytes) → breaks rest ≡ true → read_number milli (55 ∷ rest) ≡ parsed 7000 rest
unfolding read_number
read_seven [] h = refl
read_seven (c ∷ rest) h =
    let (comma, square, curly, line) = seven_before rest in
    elim (Bool-cases (c == 44)) [
      | inl e ↦ seven_at rest c 44 e comma
      | inr a ↦ elim (Bool-cases (c == 93)) [
        | inl e ↦ seven_at rest c 93 e square
        | inr b ↦ elim (Bool-cases (c == 125)) [
          | inl e ↦ seven_at rest c 125 e curly
          | inr f ↦ seven_at rest c 10 (ground (arith, h, a, b, f)) line
        ]
      ]
    ]

seven_returns : NumberReturns milli one_digit 7000
unfolding format_number lead
seven_returns = record { begins = λ rest. refl; not_other = λ rest. refl; reads = read_seven }

-- {"a": [true, 7], "\n": {}}
abbrev sample : Value ℕ
sample = object (
    member (97 ∷ []) (array (item (bool true) (item (number 7000) no_items)))
      (member (10 ∷ []) (object no_members) no_members))

sample-Returns : Returns milli one_digit sample
unfolding Returns set_member
sample-Returns = ((refl, (refl, refl)), ((refl, (seven_returns, refl)), ((refl, refl), refl)))

sample-nesting : nesting sample ≤ 32
unfolding nesting
sample-nesting = omega arith

sample_text :
    serialize milli one_digit false 0 sample
    ≡ 123 ∷ 34 ∷ 97 ∷ 34 ∷ 58 ∷ 91 ∷ 116 ∷ 114 ∷ 117 ∷ 101 ∷ 44 ∷ 55 ∷ 93 ∷ 44 ∷ 34 ∷ 92 ∷ 110 ∷ 34
      ∷ 58 ∷ 123 ∷ 125 ∷ 125 ∷ []
unfolding serialize quoted format_number
sample_text = refl

parse-serialize_example : parse milli 32 (serialize milli one_digit true 0 sample) ≡ some sample
parse-serialize_example =
    parse-serialize milli one_digit true 32 sample sample-Returns sample-nesting

-- The text {"a":1 without its end is refused, not given up on.
cut_text_ends : EndsBelow 7 (read_all milli 32 (123 ∷ 34 ∷ 97 ∷ 34 ∷ 58 ∷ 49 ∷ []))
cut_text_ends = read_all_ends milli 32 (123 ∷ 34 ∷ 97 ∷ 34 ∷ 58 ∷ 49 ∷ [])

cut_text_refused : parse milli 32 (123 ∷ 34 ∷ 97 ∷ 34 ∷ 58 ∷ 49 ∷ []) ≡ none
unfolding parse read_value skip lead read_key read_string read_number follow
cut_text_refused = refl

abbrev two_members : Members ℕ
two_members = member (97 ∷ []) null (member (98 ∷ []) (bool true) no_members)

two_members-IsDistinct : IsDistinct two_members
two_members-IsDistinct = (refl, (refl, refl))

find-set_example :
    (find (set (object two_members) (98 ∷ []) null) (98 ∷ []) ≡ some null)
    × (find (set (object two_members) (98 ∷ []) null) (97 ∷ [])
        ≡ find (object two_members) (97 ∷ []))
    × IsDistinct (set_member (98 ∷ []) null two_members)
find-set_example = find-set (98 ∷ []) (97 ∷ []) null two_members two_members-IsDistinct refl
