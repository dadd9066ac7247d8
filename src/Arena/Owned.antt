-- ===== src/Arena/Owned.antt =====
-- The calls of src/frame-arena.cpp's arena: what they hold never overlaps.
use obs_trigglow_dynamic_del.Prelude.{
  ℕ, get_or_end, subst, ap, zero, suc, ◌≤◌, ◌<◌, ◌≡◌, ◌≢◌, inl, inr, refl, sym, Option, none, some,
  List, [], ◌∷◌, true, ltb, length, get_or, Bool-cases, max, arith,
}
use obs_trigglow_dynamic_del.Arena.{
  Config, Allocation, Arena, no_allocation, block_at, make, allocate, free, round_up, alignment,
}
use obs_trigglow_dynamic_del.Arena.Held.{end_of, held_in, EndsBy, AllApart}
use obs_trigglow_dynamic_del.Arena.Blocks.{IsOwned}
use obs_trigglow_dynamic_del.Arena.Place.{hold, Fits, allocate-Keeps}
use obs_trigglow_dynamic_del.Arena.Freed.{without, free-IsOwned}
use obs_trigglow_dynamic_del.Arena.Trimmed.{trim-IsKept}
use obs_trigglow_dynamic_del.Arena.Calls.{
  Call, allocates, frees, trims, World, after_call, calls, in_range, all_in_range,
}

held_in-length : (j : ℕ) (held : List Allocation) → held_in j held ≤ length held
held_in-length j [] = omega arith
held_in-length j (x ∷ held) = ground (arith, held_in-length j held)

AllPlaced : List Allocation → Type 0
AllPlaced [] = Unit
AllPlaced (x ∷ held) = (x.offset ≢ none) × AllPlaced held

placed_by :
    (offset : Option ℕ) (x : Allocation) (held : List Allocation)
    → x.offset ≡ offset
    → AllPlaced held
    → AllPlaced (elim offset [ none ↦ held | some o ↦ x ∷ held ])
unfolding AllPlaced
placed_by none x held e h = h
placed_by (some o) x held e h = (λ q. ground (arith, e, q), h)

AllPlaced-hold :
    (x : Allocation) (held : List Allocation) → AllPlaced held → AllPlaced (hold x held)
AllPlaced-hold x held h = placed_by x.offset x held refl h

AllPlaced-without : (i : ℕ) (held : List Allocation) → AllPlaced held → AllPlaced (without i held)
unfolding AllPlaced
AllPlaced-without i [] h = tt
AllPlaced-without zero (x ∷ held) h = h.1
AllPlaced-without (suc i) (x ∷ held) h = (h.0, AllPlaced-without i held h.1)

AllPlaced-at :
    (i : ℕ) (held : List Allocation)
    → i < length held
    → AllPlaced held
    → (get_or held i no_allocation).offset ≢ none
unfolding AllPlaced
AllPlaced-at i [] l h = omega (arith, l)
AllPlaced-at zero (x ∷ held) l h = h.0
AllPlaced-at (suc i) (x ∷ held) l h = AllPlaced-at i held (omega (arith, l)) h.1

-- Every handle is a real one, and the arena owns it.
IsHeld : World → Type 0
IsHeld (a, held) = IsOwned a held × AllPlaced held

without_end : (i : ℕ) (held : List Allocation) → length held ≤ i → without i held ≡ held
without_end i [] l = refl
without_end zero (x ∷ held) l = absurd (omega (arith, l))
without_end (suc i) (x ∷ held) l = ap (λ rest. x ∷ rest) (without_end i held (omega (arith, l)))

unheld :
    (i : ℕ) (a : Arena) (held : List Allocation)
    → length held ≤ i
    → IsHeld (a, held)
    → IsHeld (after_call (frees i) (a, held))
unfolding IsHeld free
unheld i a held l (o, p) =
    let gone : get_or held i no_allocation ≡ no_allocation = get_or_end held i no_allocation l in
    subst (λ x. IsHeld (free a x, without i held)) (sym gone)
      (subst (λ rest. IsHeld (a, rest)) (sym (without_end i held l)) (o, p))

freed-IsHeld :
    (i : ℕ) (a : Arena) (held : List Allocation)
    → in_range (frees i) (a, held) ≡ true
    → IsHeld (a, held)
    → IsHeld (after_call (frees i) (a, held))
unfolding IsHeld
freed-IsHeld i a held e (o, p) = elim (Bool-cases (ltb i (length held))) [
  | inl l ↦
      let inside : i < length held = ground (arith, l) in
      (
        free-IsOwned a held i o (ground (arith, e)) inside (AllPlaced-at i held inside p),
        AllPlaced-without i held p,
      )
  | inr l ↦ unheld i a held (ground (arith, l)) (o, p)
]

after_call-IsHeld :
    (c : Call) (w : World) → in_range c w ≡ true → IsHeld w → IsHeld (after_call c w)
unfolding IsHeld
after_call-IsHeld (allocates os_ok bytes) (a, held) e (o, p) =
    let range : Fits a held (round_up (max bytes 1) alignment) = record {
      few_blocks = ground (arith, e);
      few_held = λ j. ground (arith, e, held_in-length j held);
      block_bytes = ground (arith, e);
      bytes = ground (arith, e);
    } in
    (allocate-Keeps os_ok a held bytes o range, AllPlaced-hold (allocate os_ok a bytes).0 held p)
after_call-IsHeld (frees i) (a, held) e (o, p) = freed-IsHeld i a held e (o, p)
after_call-IsHeld trims (a, held) e (o, p) = ((trim-IsKept held a (ground (arith, e), o)).1, p)

calls-IsHeld :
    (cs : List Call) (w : World) → all_in_range cs w ≡ true → IsHeld w → IsHeld (calls cs w)
calls-IsHeld [] w e h = h
calls-IsHeld (c ∷ cs) w e h =
    calls-IsHeld cs (after_call c w) (ground (arith, e))
      (after_call-IsHeld c w (ground (arith, e)) h)

make-IsHeld : (config : Config) → IsHeld (make config, [])
unfolding IsHeld AllPlaced make
make-IsHeld config = (
  record {
    each = λ j. record {
      counts = refl;
      ends = tt;
      backed = λ q. refl;
      idle = λ q. refl;
      room = omega arith;
      sized = λ q. absurd (ground (arith, q));
    };
    spares = tt;
    spares_differ = tt;
    vacants = tt;
    vacants_differ = tt;
    current_in = inl refl;
    apart = tt;
  },
  tt,
)

-- Each is in a block that has memory, and ends within it.
abbrev pub AllBacked : Arena → List Allocation → Type 0
AllBacked a [] = Unit
AllBacked a (x ∷ held) =
    ((block_at a x.block).has_memory ≡ true)
    × (end_of x ≤ (block_at a x.block).capacity)
    × AllBacked a held

Owned-AllBacked :
    (a : Arena) (held some_held : List Allocation)
    → IsOwned a held
    → ((j : ℕ) → held_in j some_held ≤ held_in j held)
    → ((j : ℕ) → EndsBy j (block_at a j).used some_held)
    → AllBacked a some_held
Owned-AllBacked a held [] o within ends = tt
Owned-AllBacked a held (x ∷ rest) o within ends =
    let v = o.each x.block in
    (
      elim (Bool-cases (block_at a x.block).has_memory) [
        | inl e ↦ e
        | inr e ↦ absurd (ground (arith, v.backed e, v.counts, within x.block))
      ],
      omega (arith, (ends x.block).0 refl, v.room),
      Owned-AllBacked a held rest o (λ j. ground (arith, within j)) (λ j. (ends j).1),
    )

-- Whatever the calls, from the arena's construction: the allocations held share no byte, and each is in
-- a block that has memory, which holds all of it. So no byte of a payload is given twice, recycled or
-- released while its handle is held. (The counts and the sizes asked for stay in 32 bits.)
pub calls_keep_apart :
    (config : Config) (cs : List Call)
    → all_in_range cs (make config, []) ≡ true
    → let w = calls cs (make config, []) in AllApart w.1 × AllBacked w.0 w.1
unfolding IsHeld
calls_keep_apart config cs e =
    let w = calls cs (make config, []) in
    let o = (calls-IsHeld cs (make config, []) e (make-IsHeld config)).0 in
    (o.apart, Owned-AllBacked w.0 w.1 w.1 o (λ j. omega arith) (λ j. (o.each j).ends))
