-- ===== src/Arena/Moves.antt =====
-- Writes to a block, its recycling, and the bump allocation of src/frame-arena.cpp keep the allocations
-- apart and owned.
use obs_trigglow_dynamic_del.Prelude.{
  ℕ, zero, suc, ◌+◌, ◌≤◌, ◌<◌, ◌≡◌, ◌≢◌, refl, sym, subst, ◌∙◌, List, [], ◌∷◌, ◌++◌, Bool, true,
  false, not, ◌||◌, ◌==◌, if◌then◌else◌, length, set, length-set, if_true, u32_mod, u64_mod,
  add_u64, add_u32, arith,
}
use obs_trigglow_dynamic_del.Arena.{Allocation, Block, Arena, block_at, retire_if_empty, bump}
use obs_trigglow_dynamic_del.Arena.Held.{
  held_in, EndsBy-none, EndsBy-mono, EndsBy-IsApartFrom, AllApart, Absent, AllDifferent-snoc,
  AllIds, AllIds-snoc, AllIds-Absent, block-set,
}
use obs_trigglow_dynamic_del.Arena.Blocks.{
  IsBlock, IsSpare, IsOpen, block_in, IsSpareIn, IsVacantIn, Owns, IsOwned, each-set, spares-set,
  vacants-set, current-set,
}

spares-Absent :
    (blocks : List Block) (spare : List ℕ) (id : ℕ)
    → (block_in blocks id).spare ≡ false
    → AllIds (IsSpareIn blocks) spare
    → Absent id spare
spares-Absent blocks spare id f h =
    AllIds-Absent (IsSpareIn blocks) spare id (λ p. absurd (ground (arith, f, p.1.flagged))) h

pub vacants-Absent :
    (blocks : List Block) (vacant : List ℕ) (id : ℕ)
    → (block_in blocks id).has_memory ≡ true
    → AllIds (IsVacantIn blocks) vacant
    → Absent id vacant
vacants-Absent blocks vacant id f h =
    AllIds-Absent (IsVacantIn blocks) vacant id (λ p. absurd (ground (arith, f, p.1))) h

-- A write to a block that is in use, with what is held then.
pub Owns-set :
    {standard : ℕ} {blocks : List Block} {spare vacant : List ℕ} {current : ℕ}
    {held later : List Allocation} (id : ℕ) (b : Block)
    → Owns standard blocks spare vacant current held
    → id < length blocks
    → (block_in blocks id).spare ≡ false
    → (block_in blocks id).has_memory ≡ true
    → ((j : ℕ) → id ≢ j → IsBlock standard (block_in blocks j) j later)
    → IsBlock standard b id later
    → (id ≡ current → IsOpen b)
    → AllApart later
    → Owns standard (set blocks id b) spare vacant current later
Owns-set {standard} {blocks} {spare} {vacant} {current} {held} {later} id b o h f m others here
      opened apart =
    record {
      each = each-set (λ c j. IsBlock standard c j later) blocks id b h others here;
      spares = spares-set blocks id b spare h (spares-Absent blocks spare id f o.spares) o.spares;
      spares_differ = o.spares_differ;
      vacants =
          vacants-set blocks id b vacant h (vacants-Absent blocks vacant id m o.vacants) o.vacants;
      vacants_differ = o.vacants_differ;
      current_in = current-set blocks id b current h opened o.current_in;
      apart = apart;
    }

-- A block with memory is one of the arena's.
pub backed_in :
    (blocks : List Block) (id : ℕ) → (block_in blocks id).has_memory ≡ true → id < length blocks
backed_in [] id h = absurd (ground (arith, h))
backed_in (b ∷ blocks) zero h = omega arith
backed_in (b ∷ blocks) (suc id) h = omega (arith, backed_in blocks id h)

-- An empty block is still right when it starts over.
reset-IsBlock :
    {standard : ℕ} {b : Block} {j : ℕ} {held : List Allocation} (spare : Bool)
    → b.live ≡ 0
    → IsBlock standard b j held
    → IsBlock standard (record b { used = 0; spare = spare }) j held
reset-IsBlock {b = b} {j = j} {held = held} spare e v = record {
  counts = v.counts;
  ends = EndsBy-none j 0 held (sym v.counts ∙ e);
  backed = v.backed;
  idle = λ q. e;
  room = omega arith;
  sized = v.sized;
}

-- Either branch of a test.
pub by_cases :
    {A : Type 0} (P : A → Type 0) (c : Bool) (x y : A)
    → (c ≡ true → P x)
    → (c ≡ false → P y)
    → P (if c then x else y)
by_cases P true x y f g = f refl
by_cases P false x y f g = g refl

-- An empty block of the common size goes on the spare list.
spare-Owns :
    (standard : ℕ) (blocks : List Block) (spare vacant : List ℕ) (current id : ℕ)
    (held : List Allocation)
    → Owns standard blocks spare vacant current held
    → id < length blocks
    → (block_in blocks id).spare ≡ false
    → (block_in blocks id).has_memory ≡ true
    → (block_in blocks id).live ≡ 0
    → (block_in blocks id).oversized ≡ false
    → id ≢ current
    → Owns standard
        (set blocks id (record (block_in blocks id) { used = 0; spare = true }))
        (spare ++ id ∷ [])
        vacant
        current
        held
spare-Owns standard blocks spare vacant current id held o h taken backed idle common other =
    let b = block_in blocks id in
    let c = record b { used = 0; spare = true } in
    let absent = spares-Absent blocks spare id taken o.spares in
    let put =
      Owns-set id c o h taken backed (λ j n. o.each j) (reset-IsBlock true idle (o.each id))
        (λ q. absurd (other q)) o.apart in
    let there : block_in (set blocks id c) id ≡ c =
      block-set blocks id id c h ∙ if_true (id == id) c b (ground arith) in
    let fresh : IsSpare c = record {
      flagged = refl;
      backed = backed;
      empty = idle;
      unused = refl;
      common = common;
    } in
    record {
      each = put.each;
      spares =
          AllIds-snoc (IsSpareIn (set blocks id c)) spare id put.spares
            (subst (λ k. id < k) (sym (length-set blocks id c)) h, subst IsSpare (sym there) fresh);
      spares_differ = AllDifferent-snoc spare id o.spares_differ absent;
      vacants = put.vacants;
      vacants_differ = o.vacants_differ;
      current_in = put.current_in;
      apart = o.apart;
    }

pub retire-IsOwned :
    (a : Arena) (id : ℕ) (held : List Allocation)
    → IsOwned a held
    → IsOwned (retire_if_empty a id) held
unfolding retire_if_empty
retire-IsOwned a id held o =
    let b = block_at a id in
    let kept : Bool = not (b.live == 0) || id == a.current || b.spare || not b.has_memory in
    let P : Arena → Type 0 = λ x. IsOwned x held in
    by_cases P kept _ _ (λ e. o)
      λ e.
        let idle : b.live ≡ 0 = ground (arith, e) in
        let other : id ≢ a.current = λ q. ground (arith, e, q) in
        let taken : b.spare ≡ false = ground (arith, e) in
        let backed : b.has_memory ≡ true = ground (arith, e) in
        let h = backed_in a.blocks id backed in
        by_cases P b.oversized _ _
          (λ big.
            Owns-set id (record b { used = 0 }) o h taken backed (λ j n. o.each j)
              (reset-IsBlock b.spare idle (o.each id)) (λ q. absurd (other q)) o.apart)
          (λ common.
            spare-Owns a.config.block_bytes a.blocks a.spare a.vacant a.current id held o h taken
              backed idle common other)

-- An allocation in another block.
pub other-IsBlock :
    {standard : ℕ} {b : Block} {held : List Allocation} (x : Allocation) (id j : ℕ)
    → id ≢ j
    → x.block ≡ id
    → IsBlock standard b j held
    → IsBlock standard b j (x ∷ held)
other-IsBlock x id j n e v = record {
  counts = ground (arith, v.counts, n, e);
  ends = (λ q. absurd (n (sym e ∙ q)), v.ends);
  backed = v.backed;
  idle = v.idle;
  room = v.room;
  sized = v.sized;
}

-- The arena after the bump allocation, which fits the block, and the allocation.
pub bump-IsOwned :
    (a : Arena) (id size : ℕ) (held : List Allocation)
    → IsOwned a held
    → IsOpen (block_at a id)
    → (block_at a id).used + size ≤ (block_at a id).capacity
    → (block_at a id).capacity < u64_mod
    → size < u32_mod
    → held_in id held + 1 < u32_mod
    → IsOwned (bump a id size).1 ((bump a id size).0 ∷ held)
unfolding bump
bump-IsOwned a id size held o opened fits small short few =
    let b = block_at a id in
    let x = (bump a id size).0 in
    let here : IsBlock a.config.block_bytes
        (record b { used = add_u64 b.used size; live = add_u32 b.live 1 }) id (x ∷ held) =
      record {
        counts = ground (arith, (o.each id).counts, few);
        ends = (
          λ e. ground (arith, fits, small, short),
          EndsBy-mono id b.used (add_u64 b.used size) held (ground (arith, fits, small))
              (o.each id).ends,
        );
        backed = λ e. absurd (ground (arith, e, opened.backed));
        idle = λ e. absurd (ground (arith, e, opened.taken));
        room = ground (arith, fits, small);
        sized = (o.each id).sized;
      } in
    Owns-set id (record b { used = add_u64 b.used size; live = add_u32 b.live 1 }) o
      (backed_in a.blocks id opened.backed) opened.taken opened.backed
      (λ j n. other-IsBlock x id j n refl (o.each j)) here
      (λ q. record { backed = opened.backed; taken = opened.taken; common = opened.common })
      (EndsBy-IsApartFrom x held (o.each id).ends, o.apart)
