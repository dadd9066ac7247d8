-- ===== src/InFlight/Places.antt =====
-- The places of the ring of src/storage-codec.hpp's InFlightQueue.
use mathlib.Core.List.{append_assoc}
use obs_trigglow_dynamic_del.Prelude.{
  ℕ, zero, suc, ◌+◌, ◌-◌, ◌%◌, ◌≤◌, ◌<◌, ◌≡◌, ◌≢◌, refl, sym, ap, ap₂, ◌∙◌, ◌⊎◌, inl, inr, List, [],
  ◌∷◌, ◌++◌, ltb, if◌then◌else◌, length, get_or, set, length-append, length-set, get_or-set_self,
  get_or-set_ne, mod_wrap, Bool-cases, arith,
}
use obs_trigglow_dynamic_del.InFlight.{
  Entry, InFlightQueue, entry_at, collect, contents, put_last, take_front,
}

-- The head is an index and the entries fit.
pub record IsSound {A : Type 0} (q : InFlightQueue A) : Type 0 where
  pub fits : q.size ≤ length q.entries
  pub head_in : (length q.entries ≡ 0) ⊎ (q.head < length q.entries)

pub wrapped :
    (n head i : ℕ)
    → head < n
    → i < n
    → (head + i) % n ≡ (if ltb (head + i) n then head + i else head + i - n)
wrapped n head i h k = mod_wrap (head + i) n (omega arith)

-- Different places of the ring are different indices.
places_differ : (n head i j : ℕ) → head < n → i < j → j < n → (head + j) % n ≢ (head + i) % n
places_differ n head i j h l m e =
    ground (arith, e, wrapped n head i h (omega arith), wrapped n head j h m)

first_place : (n head : ℕ) → head < n → (head + 0) % n ≡ head
first_place n head h = ground (arith, wrapped n head 0 h (omega arith))

next_place : (n head i : ℕ) → head < n → suc i < n → ((head + 1) % n + i) % n ≡ (head + suc i) % n
next_place n head i h l = elim (Bool-cases (ltb (head + 1) n)) [
  | inl e ↦
      let one : (head + 1) % n ≡ head + 1 = ground (arith, e, wrapped n head 1 h (omega arith)) in
      ap (λ k. (k + i) % n) one ∙ ap (λ k. k % n) (omega arith)
  | inr e ↦
      let one : (head + 1) % n ≡ 0 = ground (arith, e, wrapped n head 1 h (omega arith)) in
      ap (λ k. (k + i) % n) one
      ∙ ground (arith, e, wrapped n 0 i (omega arith) (omega arith), wrapped n head (suc i) h l)
]

not_first : (n head i : ℕ) → head < n → 0 < i → i < n → head ≢ (head + i) % n
not_first n head i h l m e = places_differ n head 0 i h l m (sym e ∙ sym (first_place n head h))

one_more : (n : ℕ) → n + 1 ≡ suc n
one_more n = omega arith

module _ {A : Type 0} (blank : Entry A) where
  entry_at-set :
      (entries : List (Entry A)) (head i j : ℕ) (e : Entry A)
      → head < length entries
      → i < j
      → j < length entries
      → entry_at blank (set entries ((head + j) % length entries) e) head i
        ≡ entry_at blank entries head i
  unfolding entry_at
  entry_at-set entries head i j e h l m =
      rw (length-set entries ((head + j) % length entries) e)
        (get_or-set_ne entries _ _ e blank (places_differ (length entries) head i j h l m))

  collect-set :
      (entries : List (Entry A)) (head i count j : ℕ) (e : Entry A)
      → head < length entries
      → i + count ≤ j
      → j < length entries
      → collect blank (set entries ((head + j) % length entries) e) head i count
        ≡ collect blank entries head i count
  unfolding collect
  collect-set entries head i zero j e h l m = refl
  collect-set entries head i (suc count) j e h l m =
      ap₂ (λ x xs. x ∷ xs) (entry_at-set entries head i j e h (omega arith) m)
        (collect-set entries head (suc i) count j e h (omega arith) m)

  -- One more entry.
  collect-suc :
      (entries : List (Entry A)) (head i count : ℕ)
      → collect blank entries head i (suc count)
        ≡ collect blank entries head i count ++ entry_at blank entries head (i + count) ∷ []
  unfolding collect
  collect-suc entries head i zero = ap (λ k. entry_at blank entries head k ∷ []) (omega arith)
  collect-suc entries head i (suc count) =
      ap (λ xs. entry_at blank entries head i ∷ xs)
        (collect-suc entries head (suc i) count
          ∙ ap (λ k. collect blank entries head (suc i) count ++ entry_at blank entries head k ∷ [])
              (omega arith))

  last_entry :
      (e : Entry A) (q : InFlightQueue A)
      → q.head < length q.entries
      → q.size < length q.entries
      → entry_at blank (set q.entries ((q.head + q.size) % length q.entries) e) q.head (0 + q.size)
        ≡ e
  unfolding entry_at
  last_entry e q h k =
      let n = length q.entries in
      let same : 0 + q.size ≡ q.size = omega arith in
      let inside : (q.head + q.size) % n < n = ground (arith, wrapped n q.head q.size h k) in
      rw (same, length-set q.entries ((q.head + q.size) % n) e)
        (get_or-set_self q.entries ((q.head + q.size) % n) e blank inside)

  pub contents-put_last :
      (e : Entry A) (q : InFlightQueue A)
      → q.head < length q.entries
      → q.size < length q.entries
      → contents blank (put_last blank e q) ≡ contents blank q ++ e ∷ []
  unfolding contents put_last
  contents-put_last e q h k =
      let entries = set q.entries ((q.head + q.size) % length q.entries) e in
      let size : q.size + 1 ≡ suc q.size = omega arith in
      let at_end : entry_at blank entries q.head (0 + q.size) ≡ e = last_entry e q h k in
      ap (collect blank entries q.head 0) size
      ∙ collect-suc entries q.head 0 q.size
      ∙ ap₂ (λ xs x. xs ++ x ∷ [])
          (collect-set q.entries q.head 0 q.size q.size e h (omega arith) k) at_end

  get_or-append_at :
      (xs : List (Entry A)) (y : Entry A) (ys : List (Entry A))
      → get_or (xs ++ y ∷ ys) (length xs) blank ≡ y
  get_or-append_at [] y ys = refl
  get_or-append_at (x ∷ xs) y ys = get_or-append_at xs y ys

  pub length-collect :
      (entries : List (Entry A)) (head i count : ℕ)
      → length (collect blank entries head i count) ≡ count
  unfolding collect
  length-collect entries head i zero = refl
  length-collect entries head i (suc count) = ap suc (length-collect entries head (suc i) count)

  prefix_entry :
      (xs : List (Entry A)) (y : Entry A) (ys : List (Entry A))
      → entry_at blank (xs ++ y ∷ ys) 0 (length xs) ≡ y
  unfolding entry_at
  prefix_entry xs y ys =
      let n = length (xs ++ y ∷ ys) in
      let inside : length xs < n = omega (arith, length-append xs (y ∷ ys)) in
      let index : (0 + length xs) % n ≡ length xs =
        ground (arith, inside, mod_wrap (0 + length xs) n (omega (arith, inside))) in
      rw index (get_or-append_at xs y ys)

  -- A list read from its start.
  pub collect-prefix :
      (xs ys zs : List (Entry A)) → collect blank (xs ++ (ys ++ zs)) 0 (length xs) (length ys) ≡ ys
  unfolding collect entry_at
  collect-prefix xs [] zs = refl
  collect-prefix xs (y ∷ ys) zs =
      ap₂ (λ x xs. x ∷ xs) (prefix_entry xs y (ys ++ zs))
        (ap₂ (λ list k. collect blank list 0 k (length ys))
            (sym (append_assoc xs (y ∷ []) (ys ++ zs)))
            (sym (length-append xs (y ∷ []) ∙ one_more (length xs)))
          ∙ collect-prefix (xs ++ y ∷ []) ys zs)

  collect-shift :
      (entries : List (Entry A)) (head i count : ℕ)
      → head < length entries
      → suc i + count ≤ length entries
      → collect blank (set entries head blank) ((head + 1) % length entries) i count
        ≡ collect blank entries head (suc i) count
  unfolding collect entry_at
  collect-shift entries head i zero h l = refl
  collect-shift entries head i (suc count) h l =
      let n = length entries in
      let same = next_place n head i h (omega arith) in
      let other = not_first n head (suc i) h (omega arith) (omega arith) in
      let entry : get_or (set entries head blank)
            (((head + 1) % n + i) % length (set entries head blank)) blank
          ≡ get_or entries ((head + suc i) % n) blank =
        ap (λ m. get_or (set entries head blank) (((head + 1) % n + i) % m) blank)
          (length-set entries head blank)
        ∙ ap (λ k. get_or (set entries head blank) k blank) same
        ∙ get_or-set_ne entries head ((head + suc i) % n) blank blank other in
      ap₂ (λ x xs. x ∷ xs) entry (collect-shift entries head (suc i) count h (omega arith))

  pub front_entry :
      (q : InFlightQueue A) (count : ℕ)
      → q.size ≡ suc count
      → q.head < length q.entries
      → contents blank q ≡ get_or q.entries q.head blank ∷ collect blank q.entries q.head 1 count
  unfolding contents collect entry_at
  front_entry q count s h =
      ap (collect blank q.entries q.head 0) s
      ∙ ap (λ k. get_or q.entries k blank ∷ collect blank q.entries q.head 1 count)
          (first_place (length q.entries) q.head h)

  pub contents-take_front :
      (q : InFlightQueue A) (count : ℕ)
      → q.size ≡ suc count
      → IsSound q
      → contents blank (take_front blank q) ≡ collect blank q.entries q.head 1 count
  unfolding contents take_front
  contents-take_front q count s i =
      let inside : q.head < length q.entries = ground (arith, s, i.head_in, i.fits) in
      let left : q.size - 1 ≡ count = omega (arith, s) in
      ap (collect blank (set q.entries q.head blank) ((q.head + 1) % length q.entries) 0) left
      ∙ collect-shift q.entries q.head 0 count inside (omega (arith, s, i.fits))
