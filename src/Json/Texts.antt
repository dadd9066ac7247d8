-- ===== src/Json/Texts.antt =====
-- The texts of src/json.cpp's Serialize, taken apart the way its Parser takes them.
use obs_trigglow_dynamic_del.Prelude.{ℕ, ◌+◌, ◌≡◌, refl, ap, ◌∙◌, Bool, true, false, [], ◌∷◌, ◌++◌}
use mathlib.Core.List.{append_assoc}
use obs_trigglow_dynamic_del.Prelude.Double.{Double}
use obs_trigglow_dynamic_del.Json.{
  Bytes, Value, Items, Members, null, bool, number, string, array, object, no_items, item,
  no_members, member,
}
use obs_trigglow_dynamic_del.Json.Read.{parsed, starts, skip}
use obs_trigglow_dynamic_del.Json.Parse.{closing, comma, follow, read_key}
use obs_trigglow_dynamic_del.Json.Write.{
  Printf, quoted, gap, colon, between, ending, serialize, write_items, write_members, quote_bytes,
}
use obs_trigglow_dynamic_del.Json.Strings.{read_string-quoted}
use obs_trigglow_dynamic_del.Json.Steps.{opens, breaks, skip-opens, skip-gap, key_step, skip-colon}
use obs_trigglow_dynamic_del.Json.Returns.{Returns}

pub quoted_text : (k rest : Bytes) → quoted k ++ rest ≡ 34 ∷ (quote_bytes k ++ 34 ∷ rest)
unfolding quoted
quoted_text k rest = ap (λ t. 34 ∷ t) (append_assoc (quote_bytes k) (34 ∷ []) rest)

pub opens-quoted : (k rest : Bytes) → opens (quoted k ++ rest) ≡ true
unfolding quoted
opens-quoted k rest = refl

-- A key with its colon, up to a value.
pub read_key-quoted :
    (p : Bool) (k text : Bytes)
    → opens text ≡ true
    → read_key (quoted k ++ (colon p ++ text)) ≡ parsed k text
read_key-quoted p k text h =
    let (starts, rest) = skip-colon p text in
    ap read_key (quoted_text k (colon p ++ text))
    ∙ key_step _ k (colon p ++ text) (read_string-quoted k (colon p ++ text)) starts
    ∙ ap (parsed k) (rest ∙ skip-opens text h)

breaks_ending :
    (p : Bool) (i close : ℕ) (rest : Bytes)
    → breaks (close ∷ rest) ≡ true
    → breaks (ending p i false close ++ rest) ≡ true
breaks_ending true i close rest h = refl
breaks_ending false i close rest h = h

module _ (d : Double) (f : Printf d.Real) (p : Bool) where
  pub item_text :
      (i : ℕ) (first : Bool) (v : Value d.Real) (xs : Items d.Real) (rest : Bytes)
      → write_items d f p i first (item v xs) ++ rest
        ≡ between p (i + 1) first
          ++ (serialize d f p (i + 1) v ++ (write_items d f p i false xs ++ rest))
  unfolding serialize
  item_text i first v xs rest =
      append_assoc (between p (i + 1) first) _ rest
      ∙ ap (λ t. between p (i + 1) first ++ t)
          (append_assoc (serialize d f p (i + 1) v) (write_items d f p i false xs) rest)

  pub member_text :
      (i : ℕ) (first : Bool) (k : Bytes) (v : Value d.Real) (ms : Members d.Real) (rest : Bytes)
      → write_members d f p i first (member k v ms) ++ rest
        ≡ between p (i + 1) first
          ++ (quoted k
              ++ (colon p
                  ++ (serialize d f p (i + 1) v ++ (write_members d f p i false ms ++ rest))))
  unfolding serialize
  member_text i first k v ms rest =
      append_assoc (between p (i + 1) first) _ rest
      ∙ ap (λ t. between p (i + 1) first ++ t)
          (append_assoc (quoted k) _ rest
            ∙ ap (λ t. quoted k ++ t)
                (append_assoc (colon p) _ rest
                  ∙ ap (λ t. colon p ++ t)
                      (append_assoc (serialize d f p (i + 1) v) (write_members d f p i false ms)
                        rest)))

  pub opens-serialize :
      (i : ℕ) (v : Value d.Real) (rest : Bytes)
      → Returns d f v
      → opens (serialize d f p i v ++ rest) ≡ true
  unfolding serialize quoted Returns
  opens-serialize i null rest r = refl
  opens-serialize i (bool true) rest r = refl
  opens-serialize i (bool false) rest r = refl
  opens-serialize i (number x) rest r = r.begins rest
  opens-serialize i (string s) rest r = refl
  opens-serialize i (array xs) rest r = refl
  opens-serialize i (object ms) rest r = refl

  pub skip-between :
      (i : ℕ) (text : Bytes) → opens text ≡ true → skip (between p i true ++ text) ≡ text
  skip-between i text h = skip-gap p i text ∙ skip-opens text h

  pub breaks-items :
      (i : ℕ) (xs : Items d.Real) (rest : Bytes)
      → breaks (write_items d f p i false xs ++ rest) ≡ true
  unfolding serialize
  breaks-items i no_items rest = breaks_ending p i 93 rest refl
  breaks-items i (item v xs) rest = refl

  pub breaks-members :
      (i : ℕ) (ms : Members d.Real) (rest : Bytes)
      → breaks (write_members d f p i false ms ++ rest) ≡ true
  unfolding serialize
  breaks-members i no_members rest = breaks_ending p i 125 rest refl
  breaks-members i (member k v ms) rest = refl

  skip-ending :
      (i close : ℕ) (rest : Bytes) → skip (ending p i false close ++ rest) ≡ skip (close ∷ rest)
  skip-ending i close rest =
      ap skip (append_assoc (gap p i) (close ∷ []) rest) ∙ skip-gap p i (close ∷ rest)

  pub follow_last_item :
      (i : ℕ) (rest : Bytes)
      → follow 93 (skip (write_items d f p i false no_items ++ rest)) ≡ closing rest
  unfolding serialize follow skip
  follow_last_item i rest = ap (follow 93) (skip-ending i 93 rest)

  pub follow_last_member :
      (i : ℕ) (rest : Bytes)
      → follow 125 (skip (write_members d f p i false no_members ++ rest)) ≡ closing rest
  unfolding serialize follow skip
  follow_last_member i rest = ap (follow 125) (skip-ending i 125 rest)

  pub follow_item :
      (i : ℕ) (v : Value d.Real) (xs : Items d.Real) (rest : Bytes)
      → follow 93 (skip (write_items d f p i false (item v xs) ++ rest))
        ≡ comma (
            between p (i + 1) true
            ++ (serialize d f p (i + 1) v ++ (write_items d f p i false xs ++ rest)))
  unfolding follow skip
  follow_item i v xs rest = ap (λ t. follow 93 (skip t)) (item_text i false v xs rest) ∙ refl

  pub follow_member :
      (i : ℕ) (k : Bytes) (v : Value d.Real) (ms : Members d.Real) (rest : Bytes)
      → follow 125 (skip (write_members d f p i false (member k v ms) ++ rest))
        ≡ comma (
            between p (i + 1) true
            ++ (quoted k
                ++ (colon p
                    ++ (serialize d f p (i + 1) v ++ (write_members d f p i false ms ++ rest)))))
  unfolding follow skip
  follow_member i k v ms rest =
      ap (λ t. follow 125 (skip t)) (member_text i false k v ms rest) ∙ refl
