-- ===== src/Arena/Freed.antt =====
-- Free of src/frame-arena.cpp keeps the allocations that stay held apart and owned.
use obs_trigglow_dynamic_del.Prelude.{
  ℕ, zero, suc, ◌+◌, ◌-◌, ◌≤◌, ◌<◌, ◌≡◌, ◌≢◌, inl, inr, refl, sym, subst, ◌∙◌, Option, none, some,
  List, [], ◌∷◌, Bool, true, false, not, ◌&&◌, ◌==◌, ltb, min, if◌then◌else◌, length, get_or, set,
  Bool-cases, arith,
}
use obs_trigglow_dynamic_del.Arena.{
  Allocation, Block, Arena, no_block, no_allocation, block_at, retire_if_empty, free_in_block, free,
}
use obs_trigglow_dynamic_del.Arena.Held.{held_in, EndsBy, EndsBy-none, AllApart, IsApartFrom}
use obs_trigglow_dynamic_del.Arena.Blocks.{IsBlock, Owns, IsOwned}
use obs_trigglow_dynamic_del.Arena.Moves.{retire-IsOwned, by_cases, backed_in, Owns-set}

-- What is held but number `i`.
abbrev pub without : ℕ → List Allocation → List Allocation
without i [] = []
without zero (x ∷ held) = held
without (suc i) (x ∷ held) = x ∷ without i held

EndsBy-without :
    (i j used : ℕ) (held : List Allocation) → EndsBy j used held → EndsBy j used (without i held)
EndsBy-without i j used [] h = tt
EndsBy-without zero j used (x ∷ held) h = h.1
EndsBy-without (suc i) j used (x ∷ held) h = (h.0, EndsBy-without i j used held h.1)

IsApartFrom-without :
    (i : ℕ) (x : Allocation) (held : List Allocation)
    → IsApartFrom x held
    → IsApartFrom x (without i held)
IsApartFrom-without i x [] h = tt
IsApartFrom-without zero x (y ∷ held) h = h.1
IsApartFrom-without (suc i) x (y ∷ held) h = (h.0, IsApartFrom-without i x held h.1)

AllApart-without : (i : ℕ) (held : List Allocation) → AllApart held → AllApart (without i held)
AllApart-without i [] h = tt
AllApart-without zero (x ∷ held) h = h.1
AllApart-without (suc i) (x ∷ held) h =
    (IsApartFrom-without i x held h.0, AllApart-without i held h.1)

-- The block of the one that goes holds one less, the others as many.
held_in-without_here :
    (i : ℕ) (held : List Allocation)
    → i < length held
    → held_in (get_or held i no_allocation).block held
      ≡ held_in (get_or held i no_allocation).block (without i held) + 1
held_in-without_here i [] h = omega (arith, h)
held_in-without_here zero (x ∷ held) h = ground arith
held_in-without_here (suc i) (x ∷ held) h =
    ground (arith, held_in-without_here i held (omega (arith, h)))

held_in-without_other :
    (i j : ℕ) (held : List Allocation)
    → (get_or held i no_allocation).block ≢ j
    → held_in j held ≡ held_in j (without i held)
held_in-without_other i j [] n = refl
held_in-without_other zero j (x ∷ held) n = ground (arith, n)
held_in-without_other (suc i) j (x ∷ held) n = ground (arith, held_in-without_other i j held n)

-- A block without an allocation that is not held any more.
without-IsBlock :
    {standard : ℕ} {b : Block} (i j : ℕ) (held : List Allocation) (live used : ℕ)
    → b.live ≢ 0
    → used ≤ b.capacity
    → live ≡ held_in j (without i held)
    → EndsBy j used (without i held)
    → IsBlock standard b j held
    → IsBlock standard (record b { live = live; used = used }) j (without i held)
without-IsBlock i j held live used n room e ends v = record {
  counts = e;
  ends = ends;
  backed = λ q. absurd (n (v.backed q));
  idle = λ q. absurd (n (v.idle q));
  room = room;
  sized = v.sized;
}

other-without :
    {standard : ℕ} {b : Block} (i j : ℕ) (held : List Allocation)
    → (get_or held i no_allocation).block ≢ j
    → IsBlock standard b j held
    → IsBlock standard b j (without i held)
other-without i j held n v = record {
  counts = v.counts ∙ held_in-without_other i j held n;
  ends = EndsBy-without i j _ held v.ends;
  backed = v.backed;
  idle = v.idle;
  room = v.room;
  sized = v.sized;
}

not_false : (b : Bool) → (b ≡ false → b ≡ true) → b ≡ true
not_false true h = refl
not_false false h = h refl

given_some :
    (offset : Option ℕ) (a b : Arena)
    → offset ≢ none
    → (P : Arena → Type 0) → P b
    → P (elim offset [ none ↦ a | some o ↦ b ])
given_some none a b n P p = absurd (n refl)
given_some (some o) a b n P p = p

module _ (a : Arena) (held : List Allocation) (i : ℕ) (o : IsOwned a held)
    (few : length a.blocks ≤ no_block) (h : i < length held) where
  live_here : (block_at a (get_or held i no_allocation).block).live ≢ 0
  live_here q =
      omega (
        arith,
        q,
        (o.each (get_or held i no_allocation).block).counts,
        held_in-without_here i held h,
      )

  backed_here : (block_at a (get_or held i no_allocation).block).has_memory ≡ true
  backed_here =
      not_false _ λ q. absurd (live_here ((o.each (get_or held i no_allocation).block).backed q))

  taken_here : (block_at a (get_or held i no_allocation).block).spare ≡ false
  taken_here = elim (Bool-cases (block_at a (get_or held i no_allocation).block).spare) [
    | inl q ↦ absurd (live_here ((o.each (get_or held i no_allocation).block).idle q))
    | inr q ↦ q
  ]

  -- The block of the freed allocation, written with what is live in it.
  freed-Owns :
      (used : ℕ)
      → used ≤ (block_at a (get_or held i no_allocation).block).capacity
      → EndsBy (get_or held i no_allocation).block used (without i held)
      → Owns a.config.block_bytes
          (set a.blocks
            (get_or held i no_allocation).block
            (record (block_at a (get_or held i no_allocation).block) {
              live = (block_at a (get_or held i no_allocation).block).live - 1;
              used = used;
            }))
          a.spare
          a.vacant
          a.current
          (without i held)
  freed-Owns used room ends =
      let id = (get_or held i no_allocation).block in
      let b = block_at a id in
      let c = record b { live = b.live - 1; used = used } in
      let left : b.live - 1 ≡ held_in id (without i held) =
        omega (arith, (o.each id).counts, held_in-without_here i held h) in
      Owns-set id c o (backed_in a.blocks id backed_here) taken_here backed_here
        (λ j n. other-without i j held n (o.each j))
        (without-IsBlock i id held (b.live - 1) used live_here room left ends (o.each id))
        (λ q. elim o.current_in [
          | inl e ↦ absurd (omega (arith, backed_in a.blocks id backed_here, few, e, q))
          | inr p ↦ record {
            backed = backed_here;
            taken = taken_here;
            common = subst (λ k. (block_at a k).oversized ≡ false) (sym q) p.1.common;
          }
        ])
        (AllApart-without i held o.apart)

  free_in_block-IsOwned :
      IsOwned
        (free_in_block a (get_or held i no_allocation).block (get_or held i no_allocation).bytes)
        (without i held)
  unfolding free_in_block
  free_in_block-IsOwned =
      let x = get_or held i no_allocation in
      let b = block_at a x.block in
      let v = o.each x.block in
      let counted : Arena = record a {
        blocks = set a.blocks x.block (record b { live = b.live - 1 });
        stats = record (a.stats) {
          live_bytes = a.stats.live_bytes - min a.stats.live_bytes x.bytes;
        };
      } in
      let reset : Arena = record counted {
        blocks = set a.blocks x.block (record b { live = b.live - 1; used = 0 });
      } in
      let P : Arena → Type 0 = λ c. IsOwned c (without i held) in
      let kept : P counted =
        freed-Owns b.used v.room (EndsBy-without i x.block b.used held v.ends) in
      by_cases P (not (b.live - 1 == 0)) counted
        (if x.block == a.current then reset else retire_if_empty counted x.block) (λ e. kept)
        λ e.
          by_cases P (x.block == a.current) reset (retire_if_empty counted x.block)
            (λ q. freed-Owns 0 (omega arith) (
              EndsBy-none x.block 0 (without i held)
                (ground (arith, e, v.counts, held_in-without_here i held h))))
            (λ q. retire-IsOwned counted x.block (without i held) kept)

  pub free-IsOwned :
      (get_or held i no_allocation).offset ≢ none
      → IsOwned (free a (get_or held i no_allocation)) (without i held)
  unfolding free
  free-IsOwned n =
      let x = get_or held i no_allocation in
      let P : Arena → Type 0 = λ c. IsOwned c (without i held) in
      let live = live_here in
      let inside = backed_in a.blocks x.block backed_here in
      let guarded : P (
          if ltb x.block (length a.blocks) && ltb 0 (block_at a x.block).live
          then free_in_block a x.block x.bytes
          else a) =
        by_cases P (ltb x.block (length a.blocks) && ltb 0 (block_at a x.block).live)
          (free_in_block a x.block x.bytes) a (λ e. free_in_block-IsOwned)
          (λ e. absurd (ground (arith, e, live, inside))) in
      given_some x.offset a _ n P guarded
