-- ===== src/Json/Total/Outcomes.antt =====
-- What a read of src/json.cpp's Parser may leave: a text below a bound.
use obs_trigglow_dynamic_del.Prelude.{
  ℕ, suc, ◌≤◌, ◌<◌, Bool, true, false, Option, none, some, [], ◌∷◌, ◌==◌, if◌then◌else◌, length,
  arith,
}
use obs_trigglow_dynamic_del.Json.{Bytes}
use obs_trigglow_dynamic_del.Json.Read.{Outcome, parsed, refused, starved, and_then, drop_one, skip}
use obs_trigglow_dynamic_del.Json.Parse.{
  Lead, opens_object, opens_array, opens_string, says_true, says_false, says_null, other, Follow,
  closing, comma, stray, follow,
}

-- The read ended, and what it left is shorter than n.
unfoldable pub EndsBelow : {A : Type 0} → ℕ → Outcome A → Type 0
EndsBelow n (parsed a rest) = length rest < n
EndsBelow n refused = Unit {0}
EndsBelow n starved = ⊥

pub EndsBelow-weaken :
    {A : Type 0} → (m n : ℕ) (o : Outcome A) → m ≤ n → EndsBelow m o → EndsBelow n o
unfolding EndsBelow
EndsBelow-weaken m n (parsed a rest) l h = omega arith
EndsBelow-weaken m n refused l h = h
EndsBelow-weaken m n starved l h = h

pub EndsBelow-if :
    {A : Type 0}
    → (n : ℕ) (b : Bool) (o u : Outcome A) → EndsBelow n o
    → EndsBelow n u
    → EndsBelow n (if b then o else u)
EndsBelow-if n true o u h k = h
EndsBelow-if n false o u h k = k

pub EndsBelow-and_then :
    {A B : Type 0}
    → (m n : ℕ) (o : Outcome A) (k : A → Bytes → Outcome B) → EndsBelow m o
    → ((a : A) (rest : Bytes) → length rest < m → EndsBelow n (k a rest))
    → EndsBelow n (and_then o k)
unfolding EndsBelow
EndsBelow-and_then m n (parsed a rest) k h e = e a rest h
EndsBelow-and_then m n refused k h e = h
EndsBelow-and_then m n starved k h e = h

-- The cases of ParseValue.
pub EndsBelow-lead :
    {A : Type 0}
    → (n : ℕ) (l : Lead) (o a s t f u x : Outcome A) → EndsBelow n o
    → EndsBelow n a
    → EndsBelow n s
    → EndsBelow n t
    → EndsBelow n f
    → EndsBelow n u
    → EndsBelow n x
    → EndsBelow n (elim l [
      | opens_object ↦ o
      | opens_array ↦ a
      | opens_string ↦ s
      | says_true ↦ t
      | says_false ↦ f
      | says_null ↦ u
      | other ↦ x
    ])
EndsBelow-lead n opens_object o a s t f u x ho ha hs ht hf hu hx = ho
EndsBelow-lead n opens_array o a s t f u x ho ha hs ht hf hu hx = ha
EndsBelow-lead n opens_string o a s t f u x ho ha hs ht hf hu hx = hs
EndsBelow-lead n says_true o a s t f u x ho ha hs ht hf hu hx = ht
EndsBelow-lead n says_false o a s t f u x ho ha hs ht hf hu hx = hf
EndsBelow-lead n says_null o a s t f u x ho ha hs ht hf hu hx = hu
EndsBelow-lead n other o a s t f u x ho ha hs ht hf hu hx = hx

unfoldable pub FollowBelow : ℕ → Follow → Type 0
FollowBelow n (closing after) = length after < n
FollowBelow n (comma after) = length after < n
FollowBelow n stray = Unit {0}

pub EndsBelow-follow :
    {A : Type 0}
    → (m n : ℕ) (f : Follow) (c k : Bytes → Outcome A) → FollowBelow m f
    → ((after : Bytes) → length after < m → EndsBelow n (c after))
    → ((after : Bytes) → length after < m → EndsBelow n (k after))
    → EndsBelow n (elim f [ closing after ↦ c after | comma after ↦ k after | stray ↦ refused ])
unfolding FollowBelow EndsBelow
EndsBelow-follow m n (closing after) c k h hc hk = hc after h
EndsBelow-follow m n (comma after) c k h hc hk = hk after h
EndsBelow-follow m n stray c k h hc hk = h

pub FollowBelow-follow : (close : ℕ) (text : Bytes) → FollowBelow (length text) (follow close text)
unfolding FollowBelow follow
FollowBelow-follow close [] = tt
FollowBelow-follow close (c ∷ rest) =
    elim (c == close)
      as (λ b.
        FollowBelow (suc (length rest))
          (if b then closing rest else if c == 44 then comma rest else stray)) [
            | true ↦ omega arith
            | false ↦
                elim (c == 44)
                  as (λ b. FollowBelow (suc (length rest)) (if b then comma rest else stray)) [
                    | true ↦ omega arith
                    | false ↦ tt
                  ]
          ]

pub length-skip : (text : Bytes) → length (skip text) ≤ length text
unfolding skip
length-skip [] = omega arith
length-skip (c ∷ rest) = ground (arith, length-skip rest)

pub length-drop_one : (text : Bytes) → length (drop_one text) ≤ length text
length-drop_one [] = omega arith
length-drop_one (c ∷ rest) = omega arith

-- A read that may not succeed, with the text that it leaves.
unfoldable pub SomeBelow : {A : Type 0} → ℕ → Option (A × Bytes) → Type 0
SomeBelow n none = Unit {0}
SomeBelow n (some (a, rest)) = length rest < n

pub SomeBelow-weaken :
    {A : Type 0} → (m n : ℕ) (o : Option (A × Bytes)) → m ≤ n → SomeBelow m o → SomeBelow n o
unfolding SomeBelow
SomeBelow-weaken m n none l h = h
SomeBelow-weaken m n (some (a, rest)) l h = omega arith

pub SomeBelow-if :
    {A : Type 0}
    → (n : ℕ) (b : Bool) (o u : Option (A × Bytes)) → SomeBelow n o
    → SomeBelow n u
    → SomeBelow n (if b then o else u)
SomeBelow-if n true o u h k = h
SomeBelow-if n false o u h k = k

pub SomeBelow-bind :
    {A B : Type 0}
    → (m n : ℕ) (o : Option (A × Bytes)) (k : A → Bytes → Option (B × Bytes)) → SomeBelow m o
    → ((a : A) (rest : Bytes) → length rest < m → SomeBelow n (k a rest))
    → SomeBelow n (elim o [ none ↦ none | some (a, rest) ↦ k a rest ])
unfolding SomeBelow
SomeBelow-bind m n none k h e = h
SomeBelow-bind m n (some (a, rest)) k h e = e a rest h

pub EndsBelow-bind :
    {A B : Type 0}
    → (m n : ℕ) (o : Option (A × Bytes)) (k : A → Bytes → Outcome B) → SomeBelow m o
    → ((a : A) (rest : Bytes) → length rest < m → EndsBelow n (k a rest))
    → EndsBelow n (elim o [ none ↦ refused | some (a, rest) ↦ k a rest ])
unfolding SomeBelow EndsBelow
EndsBelow-bind m n none k h e = h
EndsBelow-bind m n (some (a, rest)) k h e = e a rest h
