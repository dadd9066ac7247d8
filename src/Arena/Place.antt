-- ===== src/Arena/Place.antt =====
-- Allocate of src/frame-arena.cpp: the allocation is apart from all that are held.
use obs_trigglow_dynamic_del.Prelude.{
  ℕ, ◌+◌, ◌%◌, ◌≤◌, ◌<◌, ◌≡◌, ◌≢◌, inl, inr, refl, sym, ap, ◌∙◌, none, some, List, ◌∷◌, Bool, true,
  false, ◌==◌, ltb, if◌then◌else◌, length, set, u32_mod, u64_mod, add_u64, max, arith,
}
use obs_trigglow_dynamic_del.Arena.{
  Allocation, Arena, no_block, no_allocation, block_at, bump, new_block, leave_current,
  next_current, must_move, allocate_oversized, allocate_in_block, allocate, round_up, alignment,
}
use obs_trigglow_dynamic_del.Arena.Held.{held_in, EndsBy-IsApartFrom, EndsBy-none}
use obs_trigglow_dynamic_del.Arena.Blocks.{IsOwned}
use obs_trigglow_dynamic_del.Arena.Moves.{by_cases, bump-IsOwned, Owns-set, other-IsBlock}
use obs_trigglow_dynamic_del.Arena.Given.{IsGiven, new_block-IsGiven}
use obs_trigglow_dynamic_del.Arena.Next.{IsLeft, leave_current-IsLeft, IsNext, next_current-IsNext}

-- What is held after Allocate: the allocation too, when there is one.
abbrev pub hold : Allocation → List Allocation → List Allocation
hold x held = elim x.offset [ none ↦ held | some o ↦ x ∷ held ]

abbrev pub Keeps : List Allocation → Allocation × Arena → Type 0
Keeps held r = IsOwned r.1 (hold r.0 held)

-- The counters of 32 and 64 bits don't wrap around at `size` more bytes.
pub record Fits (a : Arena) (held : List Allocation) (size : ℕ) : Type 0 where
  pub few_blocks : length a.blocks < no_block
  pub few_held : (j : ℕ) → held_in j held + 1 < u32_mod
  pub block_bytes : a.config.block_bytes < u32_mod
  pub bytes : size < u32_mod

bump-Keeps :
    (a : Arena) (held : List Allocation) (size : ℕ)
    → IsOwned a held
    → ((j : ℕ) → held_in j held + 1 < u32_mod)
    → a.config.block_bytes < u32_mod
    → size < u32_mod
    → a.current ≢ no_block
    → ((block_at a a.current).used + size ≤ a.config.block_bytes)
    → Keeps held (bump a a.current size)
unfolding bump
bump-Keeps a held size o few short bytes n r = elim o.current_in [
  | inl e ↦ absurd (n e)
  | inr p ↦
      let whole = (o.each a.current).sized p.1.backed p.1.common in
      bump-IsOwned a a.current size held o p.1 (omega (arith, whole, r))
        (omega (arith, whole, short)) bytes (few a.current)
]

-- The payload fits the current block.
stays_room :
    (a : Arena) (held : List Allocation) (size : ℕ)
    → IsOwned a held
    → Fits a held size
    → must_move a size ≡ false
    → (a.current ≢ no_block) × ((block_at a a.current).used + size ≤ a.config.block_bytes)
stays_room a held size o f e =
    let n : a.current ≢ no_block = λ q. ground (arith, e, q) in
    (
      n,
      elim o.current_in [
        | inl q ↦ absurd (n q)
        | inr p ↦
            let v = o.each a.current in
            ground (arith, e, v.room, v.sized p.1.backed p.1.common, f.block_bytes, f.bytes)
      ],
    )

-- The payload goes to the next current block.
moved-Keeps :
    (a b c : Arena) (held : List Allocation) (size : ℕ)
    → IsLeft a held b
    → IsNext b held c
    → Fits a held size
    → size ≤ a.config.block_bytes
    → c.current ≢ no_block
    → Keeps held (bump c c.current size)
moved-Keeps a b c held size l m f fits n =
    bump-Keeps c held size m.owned f.few_held (omega (arith, f.block_bytes, m.same, l.same)) f.bytes
      n (elim m.unused [ inl q ↦ absurd (n q) | inr u ↦ omega (arith, u, fits, m.same, l.same) ])

in_block-Keeps :
    (os_ok : Bool) (a : Arena) (held : List Allocation) (size : ℕ)
    → IsOwned a held
    → Fits a held size
    → size ≤ a.config.block_bytes
    → Keeps held (allocate_in_block os_ok a size)
unfolding allocate_in_block
in_block-Keeps os_ok a held size o f fits =
    let l = leave_current-IsLeft a held o in
    let moved = next_current os_ok (leave_current a) in
    let m =
      next_current-IsNext os_ok (leave_current a) held l.owned
        (omega (arith, l.blocks, f.few_blocks)) in
    by_cases (Keeps held) (must_move a size)
      (if moved.current == no_block then (no_allocation, moved) else bump moved moved.current size)
      (bump a a.current size)
      (λ e.
        by_cases (Keeps held) (moved.current == no_block) (no_allocation, moved)
          (bump moved moved.current size) (λ q. m.owned)
          (λ q.
            moved-Keeps a (leave_current a) moved held size l m f fits (λ n. ground (arith, q, n))))
      (λ e.
        let s = stays_room a held size o f e in
        bump-Keeps a held size o f.few_held f.block_bytes f.bytes s.0 s.1)

-- A payload with a block of its own.
dedicated-Keeps :
    (a : Arena) (held : List Allocation) (size : ℕ) (r : ℕ × Arena)
    → IsGiven a held size true r
    → size < u32_mod
    → r.0 ≢ no_block
    → IsOwned
        (record (r.1) {
          blocks = set r.1.blocks r.0 (record (block_at r.1 r.0) { used = size; live = 1 });
          stats = record (r.1.stats) { live_bytes = (r.1.stats.live_bytes + size) % u64_mod };
        })
        ((record { offset = some 0; block = r.0; bytes = size % u32_mod }) ∷ held)
dedicated-Keeps a held size r g short n = elim g.given [
  | inl q ↦ absurd (n q)
  | inr p ↦
      let o = g.owned in
      let b = block_at r.1 r.0 in
      let x : Allocation = record { offset = some 0; block = r.0; bytes = size % u32_mod } in
      let v = o.each r.0 in
      let none_held : held_in r.0 held ≡ 0 = sym v.counts ∙ ap (λ c. c.live) p.2 in
      let big : b.oversized ≡ true = ap (λ c. c.oversized) p.2 in
      let backed : b.has_memory ≡ true = ap (λ c. c.has_memory) p.2 in
      let taken : b.spare ≡ false = ap (λ c. c.spare) p.2 in
      let all : b.capacity ≡ size = ap (λ c. c.capacity) p.2 in
      Owns-set r.0 (record b { used = size; live = 1 }) o p.1 taken backed
        (λ j d. other-IsBlock x r.0 j d refl (o.each j))
        (record {
          counts = ground (arith, none_held);
          ends = (λ q. ground (arith, short), EndsBy-none r.0 size held none_held);
          backed = λ q. absurd (ground (arith, q, backed));
          idle = λ q. absurd (ground (arith, q, taken));
          room = omega (arith, all);
          sized = λ q s. absurd (ground (arith, s, big));
        })
        (λ q. absurd (p.3 q))
        (EndsBy-IsApartFrom x held (EndsBy-none r.0 0 held none_held), o.apart)
]

oversized-Keeps :
    (os_ok : Bool) (a : Arena) (held : List Allocation) (size : ℕ)
    → IsOwned a held
    → Fits a held size
    → Keeps held (allocate_oversized os_ok a size)
unfolding allocate_oversized
oversized-Keeps os_ok a held size o f =
    let r = new_block os_ok a size true in
    let g =
      new_block-IsGiven os_ok a size true held o f.few_blocks (λ q. absurd (ground (arith, q))) in
    by_cases (Keeps held) (r.0 == no_block) (no_allocation, r.1)
      (
        record { offset = some 0; block = r.0; bytes = size % u32_mod },
        record (r.1) {
          blocks = set r.1.blocks r.0 (record (block_at r.1 r.0) { used = size; live = 1 });
          stats = record (r.1.stats) { live_bytes = add_u64 r.1.stats.live_bytes size };
        },
      )
      (λ e. g.owned) (λ e. dedicated-Keeps a held size r g f.bytes (λ q. ground (arith, e, q)))

pub allocate-Keeps :
    (os_ok : Bool) (a : Arena) (held : List Allocation) (bytes : ℕ)
    → IsOwned a held
    → Fits a held (round_up (max bytes 1) alignment)
    → Keeps held (allocate os_ok a bytes)
unfolding allocate
allocate-Keeps os_ok a held bytes o f =
    let size = round_up (max bytes 1) alignment in
    by_cases (Keeps held) (ltb a.config.block_bytes size) (allocate_oversized os_ok a size)
      (allocate_in_block os_ok a size) (λ e. oversized-Keeps os_ok a held size o f)
      (λ e. in_block-Keeps os_ok a held size o f (ground (arith, e)))
