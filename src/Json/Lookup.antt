-- ===== src/Json/Lookup.antt =====
-- The members of an object in src/json.cpp: Set, which writes the first member of a name, and Find,
-- which looks from the last one on.
use obs_trigglow_dynamic_del.Prelude.{
  ◌≡◌, refl, ap, sym, ◌∙◌, Bool, true, false, ◌||◌, none, some, [], ◌∷◌, Bool-cases, inl, inr,
  ==_iff, subst, arith,
}
use obs_trigglow_dynamic_del.Json.{
  Bytes, same_bytes, Value, Members, object, no_members, member, set_member, set, find_member, find,
}

same_bytes_refl : (s : Bytes) → same_bytes s s ≡ true
same_bytes_refl [] = refl
same_bytes_refl (c ∷ s) = ground (arith, same_bytes_refl s)

same_bytes_to_≡ : (s t : Bytes) → same_bytes s t ≡ true → s ≡ t
same_bytes_to_≡ [] [] h = refl
same_bytes_to_≡ [] (e ∷ t) h = absurd (ground arith)
same_bytes_to_≡ (c ∷ s) [] h = absurd (ground arith)
same_bytes_to_≡ (c ∷ s) (e ∷ t) h =
    let tails = same_bytes_to_≡ s t (ground arith) in
    ap (λ n. n ∷ s) ((==_iff c e).0 (ground arith)) ∙ ap (λ r. e ∷ r) tails

same_bytes_sym : (s t : Bytes) → same_bytes s t ≡ same_bytes t s
same_bytes_sym [] [] = refl
same_bytes_sym [] (e ∷ t) = refl
same_bytes_sym (c ∷ s) [] = refl
same_bytes_sym (c ∷ s) (e ∷ t) = ground (arith, same_bytes_sym s t)

-- Equal names differ from the same names.
other_name :
    (k key other : Bytes)
    → same_bytes k key ≡ true
    → same_bytes key other ≡ false
    → same_bytes k other ≡ false
other_name k key other e h =
    subst (λ n. same_bytes n other ≡ false) (sym (same_bytes_to_≡ k key e)) h

module _ {R : Type 0} where
  abbrev pub has_key : Bytes → Members R → Bool
  has_key key no_members = false
  has_key key (member k v ms) = same_bytes k key || has_key key ms

  -- No two members have the same name.
  abbrev pub IsDistinct : Members R → Type 0
  IsDistinct no_members = ◌≡◌ {A = Members R} no_members no_members
  IsDistinct (member k v ms) = (has_key k ms ≡ false) × IsDistinct ms

  find_member_absent :
      (key : Bytes) (ms : Members R) → has_key key ms ≡ false → find_member key ms ≡ none
  unfolding find_member
  find_member_absent key no_members h = refl
  find_member_absent key (member k v ms) h =
      let rest = find_member_absent key ms (ground arith) in ground (arith, rest)

  has_key-set_member :
      (k key : Bytes) (v : Value R) (ms : Members R)
      → same_bytes key k ≡ false
      → has_key k (set_member key v ms) ≡ has_key k ms
  unfolding set_member
  has_key-set_member k key v no_members h = ground (arith, h)
  has_key-set_member k key v (member l w ms) h =
      let rest = has_key-set_member k key v ms h in
      elim (Bool-cases (same_bytes l key)) [
        | inl e ↦ rw (e, other_name l key k e h) refl
        | inr e ↦ rw (e, rest) refl
      ]

  find-set_same :
      (key : Bytes) (v : Value R) (ms : Members R)
      → IsDistinct ms
      → find_member key (set_member key v ms) ≡ some v
  unfolding set_member find_member
  find-set_same key v no_members u = rw (same_bytes_refl key) refl
  find-set_same key v (member k w ms) u = elim (Bool-cases (same_bytes k key)) [
    | inl e ↦
        let name = same_bytes_to_≡ k key e in
        let none_after = find_member_absent key ms (subst (λ n. has_key n ms ≡ false) name u.0) in
        rw (e, none_after, e) refl
    | inr e ↦ rw (e, find-set_same key v ms u.1) refl
  ]

  find-set_other :
      (key other : Bytes) (v : Value R) (ms : Members R)
      → same_bytes key other ≡ false
      → find_member other (set_member key v ms) ≡ find_member other ms
  unfolding set_member find_member
  find-set_other key other v no_members h = rw h refl
  find-set_other key other v (member k w ms) h =
      let rest = find-set_other key other v ms h in
      elim (Bool-cases (same_bytes k key)) [
        | inl e ↦ let differs = other_name k key other e h in ground (arith, e, differs)
        | inr e ↦ rw (e, rest) refl
      ]

  IsDistinct-set_member :
      (key : Bytes) (v : Value R) (ms : Members R)
      → IsDistinct ms
      → IsDistinct (set_member key v ms)
  unfolding set_member
  IsDistinct-set_member key v no_members u = (refl, refl)
  IsDistinct-set_member key v (member k w ms) u = elim (Bool-cases (same_bytes k key)) [
    | inl e ↦ rw e u
    | inr e ↦ rw e (
      has_key-set_member k key v ms (same_bytes_sym key k ∙ e) ∙ u.0,
      IsDistinct-set_member key v ms u.1,
    )
  ]

-- In an object whose members have different names, Find returns what Set stored, any other name has
-- the value it had, and the names are different afterwards.
pub find-set :
    {R : Type 0}
    → (key other : Bytes) (v : Value R) (ms : Members R) → IsDistinct ms
    → same_bytes key other ≡ false
    → (find (set (object ms) key v) key ≡ some v)
      × (find (set (object ms) key v) other ≡ find (object ms) other)
      × IsDistinct (set_member key v ms)
unfolding find set
find-set key other v ms u h =
    (find-set_same key v ms u, find-set_other key other v ms h, IsDistinct-set_member key v ms u)
