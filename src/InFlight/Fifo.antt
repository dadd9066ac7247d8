-- ===== src/InFlight/Fifo.antt =====
-- The ring of src/storage-codec.hpp's InFlightQueue is a queue.
use obs_trigglow_dynamic_del.Prelude.{
  ℕ, zero, suc, ◌+◌, ◌-◌, ◌*◌, ◌%◌, ◌<◌, max, ◌≡◌, refl, sym, ap, subst, ◌∙◌, inl, inr, false, not,
  List, [], ◌∷◌, ◌++◌, ◌==◌, if◌then◌else◌, if_true, if_false, length, get_or, replicate,
  length-append, length-set, length-replicate, mod_wrap, Bool-cases, ==_iff, arith,
}
use obs_trigglow_dynamic_del.InFlight.{
  Entry, InFlightQueue, Match, ok, empty, mismatch, collect, contents, grow, put_last, push,
  take_front, pop, clear,
}
use obs_trigglow_dynamic_del.InFlight.Places.{
  IsSound, contents-put_last, length-collect, collect-prefix, front_entry, contents-take_front,
}

-- The queue as a list, the oldest entry first.
abbrev pub pop_list : {A : Type 0} → ℕ → List (Entry A) → Match A × List (Entry A)
pop_list seq [] = (empty, [])
pop_list seq (e ∷ rest) = if e.seq == seq then (ok e, rest) else (mismatch, e ∷ rest)

module _ {A : Type 0} (blank : Entry A) where
  grown-IsSound :
      (q : InFlightQueue A)
      → IsSound q
      → q.size ≡ length q.entries
      → (q.size < length (grow blank q).entries) × (0 < length (grow blank q).entries)
  unfolding grow contents
  grown-IsSound q i full =
      let blanks = replicate (max 4 (2 * length q.entries) - q.size) blank in
      let list = collect blank q.entries q.head 0 q.size in
      let count = length-collect blank q.entries q.head 0 q.size in
      let whole = length-append list blanks in
      let more = length-replicate (max 4 (2 * length q.entries) - q.size) blank in
      (omega (arith, full, count, whole, more), omega (arith, full, count, whole, more))

  contents-grow : (q : InFlightQueue A) → contents blank (grow blank q) ≡ contents blank q
  unfolding grow contents
  contents-grow q =
      let list = collect blank q.entries q.head 0 q.size in
      let blanks = replicate (max 4 (2 * length q.entries) - q.size) blank in
      ap (collect blank (list ++ blanks) 0 0) (sym (length-collect blank q.entries q.head 0 q.size))
      ∙ collect-prefix blank [] list blanks

  -- The ring after a last entry was put into it, and after the first was taken.
  IsSound-put_last :
      (e : Entry A) (q : InFlightQueue A)
      → q.head < length q.entries
      → q.size < length q.entries
      → IsSound (put_last blank e q)
  unfolding put_last
  IsSound-put_last e q h l =
      let same = length-set q.entries ((q.head + q.size) % length q.entries) e in
      record { fits = omega (arith, same, l); head_in = inr (omega (arith, same, h)) }

  IsSound-take_front :
      (q : InFlightQueue A) → IsSound q → q.head < length q.entries → IsSound (take_front blank q)
  unfolding take_front
  IsSound-take_front q i h =
      let same = length-set q.entries q.head blank in
      let next : (q.head + 1) % length q.entries < length q.entries =
        ground (arith, h, mod_wrap (q.head + 1) (length q.entries) (omega (arith, h))) in
      record { fits = omega (arith, same, i.fits); head_in = inr (omega (arith, same, next)) }

  abbrev Pushed : Entry A → InFlightQueue A → InFlightQueue A → Type 0
  Pushed e q after = (contents blank after ≡ contents blank q ++ e ∷ []) × IsSound after

  Pushed-grow :
      (e : Entry A) (q : InFlightQueue A)
      → IsSound q
      → q.size ≡ length q.entries
      → Pushed e q (put_last blank e (grow blank q))
  unfolding grow
  Pushed-grow e q i full =
      let (room, place) = grown-IsSound q i full in
      (
        contents-put_last blank e (grow blank q) place room
            ∙ ap (λ xs. xs ++ e ∷ []) (contents-grow q),
        IsSound-put_last e (grow blank q) place room,
      )

  Pushed-push : (e : Entry A) (q : InFlightQueue A) → IsSound q → Pushed e q (push blank e q)
  unfolding push
  Pushed-push e q i = elim (Bool-cases (q.size == length q.entries)) [
    | inl full ↦
        subst (λ r. Pushed e q (put_last blank e r)) (sym (if_true _ (grow blank q) q full))
          (Pushed-grow e q i ((==_iff q.size (length q.entries)).0 full))
    | inr room ↦
        let place : q.head < length q.entries = ground (arith, room, i.head_in, i.fits) in
        let left : q.size < length q.entries = ground (arith, room, i.fits) in
        subst (λ r. Pushed e q (put_last blank e r)) (sym (if_false _ (grow blank q) q room))
          (contents-put_last blank e q place left, IsSound-put_last e q place left)
  ]

  abbrev Popped : ℕ → InFlightQueue A → Match A × InFlightQueue A → Type 0
  Popped seq q r =
      (r.0 ≡ (pop_list seq (contents blank q)).0)
      × (contents blank r.1 ≡ (pop_list seq (contents blank q)).1)
      × IsSound r.1

  Popped-list :
      (seq : ℕ) (q after : InFlightQueue A) (m : Match A) (xs list : List (Entry A))
      → contents blank q ≡ xs
      → pop_list seq xs ≡ (m, list)
      → contents blank after ≡ list
      → IsSound after
      → Popped seq q (m, after)
  Popped-list seq q after m xs list c l r i =
      let whole = sym (ap (pop_list seq) c ∙ l) in (ap (λ p. p.0) whole, r ∙ ap (λ p. p.1) whole, i)

  Popped-front :
      (seq : ℕ) (q : InFlightQueue A) (count : ℕ)
      → IsSound q
      → q.size ≡ suc count
      → Popped seq q (
          if not ((get_or q.entries q.head blank).seq == seq)
          then (mismatch, q)
          else (ok (get_or q.entries q.head blank), take_front blank q))
  Popped-front seq q count i s =
      let place : q.head < length q.entries = ground (arith, s, i.head_in, i.fits) in
      let front = get_or q.entries q.head blank in
      let rest = collect blank q.entries q.head 1 count in
      let whole = front_entry blank q count s place in
      elim (Bool-cases (front.seq == seq)) [
        | inl same ↦ subst (Popped seq q) (sym (if_false _ (mismatch, q) _ (ap not same))) (
            Popped-list seq q (take_front blank q) (ok front) (front ∷ rest) rest whole
              (if_true _ (ok front, rest) (mismatch, front ∷ rest) same)
              (contents-take_front blank q count s i) (IsSound-take_front q i place))
        | inr other ↦ subst (Popped seq q) (sym (if_true _ (mismatch, q) _ (ap not other))) (
            Popped-list seq q q mismatch (front ∷ rest) (front ∷ rest) whole
              (if_false _ (ok front, rest) (mismatch, front ∷ rest) other) whole i)
      ]

  contents_none : (q : InFlightQueue A) → q.size ≡ 0 → contents blank q ≡ []
  unfolding contents collect
  contents_none q h = ap (collect blank q.entries q.head 0) h

  Popped-pop : (seq : ℕ) (q : InFlightQueue A) → IsSound q → Popped seq q (pop blank seq q)
  unfolding pop
  Popped-pop seq q i = elim (Bool-cases (q.size == 0)) [
    | inl none_left ↦
        let gone = contents_none q ((==_iff q.size 0).0 none_left) in
        subst (Popped seq q) (sym (if_true _ (empty, q) _ none_left))
          (Popped-list seq q q empty [] [] gone refl gone i)
    | inr some_left ↦
        subst (Popped seq q) (sym (if_false _ (empty, q) _ some_left))
          (Popped-front seq q (q.size - 1) i (ground (arith, some_left)))
  ]

  size-take_front :
      (q : InFlightQueue A) (count : ℕ) → q.size ≡ suc count → (take_front blank q).size ≡ count
  unfolding take_front
  size-take_front q count s = omega (arith, s)

  clear_hands :
      (count : ℕ) (q : InFlightQueue A)
      → q.size ≡ count
      → IsSound q
      → ((clear blank count q).0 ≡ contents blank q) × ((clear blank count q).1.size ≡ 0)
  unfolding clear
  clear_hands zero q s i = (sym (contents_none q s), s)
  clear_hands (suc count) q s i =
      let place : q.head < length q.entries = ground (arith, s, i.head_in, i.fits) in
      let left : (take_front blank q).size ≡ count = size-take_front q count s in
      let (handed, gone) =
        clear_hands count (take_front blank q) left (IsSound-take_front q i place) in
      let some_left : (q.size == 0) ≡ false = ground (arith, s) in
      let front = get_or q.entries q.head blank in
      rw some_left (
        ap (λ xs. front ∷ xs) (handed ∙ contents-take_front blank q count s i)
            ∙ sym (front_entry blank q count s place),
        gone,
      )

-- On a sound ring, seen as the list of its entries from the oldest on: Push appends, growing the ring
-- when it is full; Pop takes the first entry if it has the number asked for and otherwise changes
-- nothing; Clear hands over all of them in order and leaves none; and the ring stays sound.
pub queue_refines_list :
    {A : Type 0}
    → (blank e : Entry A) (seq : ℕ) (q : InFlightQueue A) → IsSound q
    → (contents blank (push blank e q) ≡ contents blank q ++ e ∷ [])
      × IsSound (push blank e q)
      × ((pop blank seq q).0 ≡ (pop_list seq (contents blank q)).0)
      × (contents blank (pop blank seq q).1 ≡ (pop_list seq (contents blank q)).1)
      × IsSound (pop blank seq q).1
      × ((clear blank q.size q).0 ≡ contents blank q)
      × ((clear blank q.size q).1.size ≡ 0)
queue_refines_list blank e seq q i =
    let (appended, pushed) = Pushed-push blank e q i in
    let (found, left, popped) = Popped-pop blank seq q i in
    let (handed, gone) = clear_hands blank q.size q refl i in
    (appended, pushed, found, left, popped, handed, gone)
