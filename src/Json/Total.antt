-- ===== src/Json/Total.antt =====
-- What src/json.cpp's Parser leaves of a text: each read that succeeds leaves less, so the fuel that
-- the text's length gives is enough.
use obs_trigglow_dynamic_del.Prelude.{
  ℕ, zero, suc, ◌+◌, ◌*◌, ◌≤◌, ◌<◌, ◌≡◌, refl, Bool, true, false, not, ◌&&◌, Option, none, some,
  List, [], ◌∷◌, ltb, if◌then◌else◌, length, is_empty, arith,
}
use obs_trigglow_dynamic_del.Prelude.Double.{Double}
use obs_trigglow_dynamic_del.Json.{
  Bytes, Value, Items, Members, null, bool, string, number, array, object, no_items, no_members,
  set_member, push_item,
}
use obs_trigglow_dynamic_del.Json.Read.{
  Outcome, parsed, refused, starved, and_then, starts, drop_one, skip, read_string, read_number,
}
use obs_trigglow_dynamic_del.Json.Parse.{
  Lead, opens_object, opens_array, opens_string, says_true, says_false, says_null, other, lead,
  Follow, closing, comma, stray, follow, literal, true_text, false_text, null_text, read_key,
  read_value, read_array, read_items, read_object, read_members, read_all, parse, without_mark,
}
use obs_trigglow_dynamic_del.Json.Total.Outcomes.{
  EndsBelow, EndsBelow-if, EndsBelow-and_then, EndsBelow-weaken, FollowBelow, FollowBelow-follow,
  EndsBelow-lead, EndsBelow-follow, length-skip, length-drop_one,
}
use obs_trigglow_dynamic_del.Json.Total.Texts.{
  EndsBelow-read_string, EndsBelow-literal, EndsBelow-read_key,
}
use obs_trigglow_dynamic_del.Json.Total.Numbers.{EndsBelow-read_number}
pub mod Outcomes
mod Texts
mod Numbers

module _ (d : Double) (max_depth : ℕ) where
  mutual
    unfolding read_value lead EndsBelow

    value_ends :
        (fuel depth : ℕ) (text : Bytes)
        → 3 * length text < fuel
        → EndsBelow (suc (length text)) (read_value d max_depth fuel depth text)
    value_ends zero depth text h = absurd (omega arith)
    value_ends (suc fuel) depth [] h =
        EndsBelow-and_then 1 1 (read_number d []) _
          (EndsBelow-weaken 0 1 _ (omega arith) (EndsBelow-read_number d [])) λ x rest r. r
    value_ends (suc fuel) depth (c ∷ rest) h =
        let n = suc (suc (length rest)) in
        EndsBelow-lead n (lead (c ∷ rest)) _ _ _ _ _ _ _
          (EndsBelow-weaken _ n _ (omega arith) (object_ends fuel (depth + 1) rest (omega arith)))
          (EndsBelow-weaken _ n _ (omega arith) (array_ends fuel (depth + 1) rest (omega arith)))
          (EndsBelow-and_then n n (read_string rest) _
            (EndsBelow-weaken _ n _ (omega arith) (EndsBelow-read_string rest)) λ s after a. a)
          (EndsBelow-literal true_text (bool true) (c ∷ rest))
          (EndsBelow-literal false_text (bool false) (c ∷ rest))
          (EndsBelow-literal null_text null (c ∷ rest))
          (EndsBelow-and_then n n (read_number d (c ∷ rest)) _
            (EndsBelow-weaken _ n _ (omega arith) (EndsBelow-read_number d (c ∷ rest)))
            λ x after a. a)

    array_ends :
        (fuel depth : ℕ) (text : Bytes)
        → 3 * length text + 2 < fuel
        → EndsBelow (suc (length text)) (read_array d max_depth fuel depth text)
    array_ends zero depth text h = absurd (omega arith)
    array_ends (suc fuel) depth text h =
        let n = suc (length text) in
        EndsBelow-if n (ltb max_depth depth) refused _ tt (
          EndsBelow-if n (starts 93 (skip text)) _ _
            (omega (arith, length-skip text, length-drop_one (skip text)))
            (EndsBelow-weaken _ n _ (omega (arith, length-skip text))
              (items_ends fuel depth no_items (skip text) (omega (arith, h, length-skip text)))))

    items_ends :
        (fuel depth : ℕ) (before : Items d.Real) (text : Bytes)
        → 3 * length text + 1 < fuel
        → EndsBelow (suc (length text)) (read_items d max_depth fuel depth before text)
    items_ends zero depth before text h = absurd (omega arith)
    items_ends (suc fuel) depth before text h =
        let n = suc (length text) in
        EndsBelow-and_then n n (read_value d max_depth fuel depth text) _
          (value_ends fuel depth text (omega arith))
          λ v rest r.
            EndsBelow-follow (length (skip rest)) n (follow 93 (skip rest)) _ _
              (FollowBelow-follow 93 (skip rest)) (λ after a. omega (arith, a, r, length-skip rest))
              λ after a.
                EndsBelow-weaken _ n _ (omega (arith, a, r, length-skip rest, length-skip after)) (
                  items_ends fuel depth (push_item before v) (skip after)
                    (omega (arith, h, a, r, length-skip rest, length-skip after)))

    object_ends :
        (fuel depth : ℕ) (text : Bytes)
        → 3 * length text + 2 < fuel
        → EndsBelow (suc (length text)) (read_object d max_depth fuel depth text)
    object_ends zero depth text h = absurd (omega arith)
    object_ends (suc fuel) depth text h =
        let n = suc (length text) in
        EndsBelow-if n (ltb max_depth depth) refused _ tt (
          EndsBelow-if n (starts 125 (skip text)) _ _
            (omega (arith, length-skip text, length-drop_one (skip text)))
            (EndsBelow-weaken _ n _ (omega (arith, length-skip text)) (
              members_ends fuel depth no_members (skip text) (omega (arith, h, length-skip text)))))

    members_ends :
        (fuel depth : ℕ) (before : Members d.Real) (text : Bytes)
        → 3 * length text + 1 < fuel
        → EndsBelow (suc (length text)) (read_members d max_depth fuel depth before text)
    members_ends zero depth before text h = absurd (omega arith)
    members_ends (suc fuel) depth before text h =
        let n = suc (length text) in
        EndsBelow-and_then n n (read_key text) _ (EndsBelow-read_key text) λ key value_text t.
          EndsBelow-and_then n n (read_value d max_depth fuel depth value_text) _
            (EndsBelow-weaken _ n _ (omega (arith, t))
              (value_ends fuel depth value_text (omega (arith, h, t))))
            λ v rest r.
              EndsBelow-follow (length (skip rest)) n (follow 125 (skip rest)) _ _
                (FollowBelow-follow 125 (skip rest))
                (λ after a. omega (arith, a, r, length-skip rest))
                λ after a.
                  EndsBelow-weaken _ n _ (omega (arith, a, r, length-skip rest, length-skip after))
                    (members_ends fuel depth (set_member key v before) (skip after)
                      (omega (arith, h, a, r, length-skip rest, length-skip after)))

-- Whatever the text and the nesting limit, the reader ends before its fuel does, and a value that it
-- returns leaves no more than the text it was given.
pub read_all_ends :
    (d : Double) (max_depth : ℕ) (text : Bytes)
    → EndsBelow (suc (length text)) (read_all d max_depth text)
unfolding read_all EndsBelow
read_all_ends d max_depth text =
    let n = suc (length text) in
    EndsBelow-and_then n n (read_value d max_depth (3 * length text + 3) 0 text) _
      (value_ends d max_depth (3 * length text + 3) 0 text (omega arith))
      λ v rest r. EndsBelow-if n (is_empty (skip rest)) _ refused (omega arith) tt
