-- ===== src/Arena/Trimmed.antt =====
-- Trim of src/frame-arena.cpp keeps the allocations apart and owned.
use obs_trigglow_dynamic_del.Prelude.{
  ℕ, zero, suc, ◌+◌, ◌≤◌, ◌<◌, ◌≡◌, ◌≢◌, inl, inr, refl, sym, subst, ap, ◌∙◌, List, [], ◌∷◌, ◌++◌,
  Bool, true, ◌&&◌, ◌==◌, ltb, if◌then◌else◌, length, set, length-set, if_true, sub_u32, arith,
}
use obs_trigglow_dynamic_del.Arena.{
  Allocation, Block, Arena, no_memory, no_block, block_at, release_block, trim_spares,
  trim_oversized, trim,
}
use obs_trigglow_dynamic_del.Arena.Held.{
  held_in, EndsBy-none, Absent, AllIds-snoc, AllIds-Absent, AllDifferent-snoc, block-set,
}
use obs_trigglow_dynamic_del.Arena.Blocks.{
  IsBlock, IsOpen, block_in, IsSpareIn, IsVacantIn, IsCurrentIn, Owns, IsOwned, each-set,
  spares-set, vacants-set, current-set,
}
use obs_trigglow_dynamic_del.Arena.Moves.{vacants-Absent, by_cases, backed_in}

-- An empty block goes back to the system.
released-Owns :
    (standard : ℕ) (blocks : List Block) (spare vacant : List ℕ) (current : ℕ)
    (held : List Allocation) (id : ℕ)
    → Owns standard blocks spare vacant current held
    → id < length blocks
    → (block_in blocks id).has_memory ≡ true
    → (block_in blocks id).live ≡ 0
    → Absent id spare
    → id ≢ current
    → Owns standard (set blocks id no_memory) spare (vacant ++ id ∷ []) current held
released-Owns standard blocks spare vacant current held id o h backed idle absent other =
    let unheld : held_in id held ≡ 0 = sym (o.each id).counts ∙ idle in
    let not_vacant = vacants-Absent blocks vacant id backed o.vacants in
    record {
      each =
          each-set (λ c j. IsBlock standard c j held) blocks id no_memory h (λ j n. o.each j)
            (record {
              counts = sym unheld;
              ends = EndsBy-none id 0 held unheld;
              backed = λ q. refl;
              idle = λ q. refl;
              room = omega arith;
              sized = λ q. absurd (ground (arith, q));
            });
      spares = spares-set blocks id no_memory spare h absent o.spares;
      spares_differ = o.spares_differ;
      vacants =
          AllIds-snoc (IsVacantIn (set blocks id no_memory)) vacant id
            (vacants-set blocks id no_memory vacant h not_vacant o.vacants)
            (
              subst (λ k. id < k) (sym (length-set blocks id no_memory)) h,
              ap (λ c. c.has_memory)
                  (block-set blocks id id no_memory h
                    ∙ if_true (id == id) no_memory (block_in blocks id) (ground arith)),
            );
      vacants_differ = AllDifferent-snoc vacant id o.vacants_differ not_vacant;
      current_in = current-set blocks id no_memory current h (λ q. absurd (other q)) o.current_in;
      apart = o.apart;
    }

-- A block that is not open is not the current one.
not_current :
    (blocks : List Block) (current id : ℕ)
    → length blocks ≤ no_block
    → id < length blocks
    → (IsOpen (block_in blocks id) → id ≢ id)
    → IsCurrentIn blocks current
    → id ≢ current
not_current blocks current id few h closed (inl e) q = omega (arith, few, h, e, q)
not_current blocks current id few h closed (inr p) q =
    closed (subst (λ k. IsOpen (block_in blocks k)) (sym q) p.1) refl

-- `IsOwned` and few enough blocks.
abbrev pub IsKept : Arena → List Allocation → Type 0
IsKept a held = (length a.blocks ≤ no_block) × IsOwned a held

module _ (held : List Allocation) where
  trim_spares-IsKept :
      (ids : List ℕ) (a : Arena)
      → length a.blocks ≤ no_block
      → a.spare ≡ ids
      → Owns a.config.block_bytes a.blocks ids a.vacant a.current held
      → IsKept (trim_spares ids a) held
  unfolding trim_spares release_block
  trim_spares-IsKept [] a few e o =
      (few, subst (λ s. Owns a.config.block_bytes a.blocks s a.vacant a.current held) (sym e) o)
  trim_spares-IsKept (id ∷ rest) a few e o =
      let counted : Arena = record a {
        spare = rest;
        stats = record (a.stats) { spare_blocks = sub_u32 a.stats.spare_blocks 1 };
      } in
      let (inside, was) = o.spares.0 in
      let without_it : IsOwned counted held = record {
        each = o.each;
        spares = o.spares.1;
        spares_differ = o.spares_differ.1;
        vacants = o.vacants;
        vacants_differ = o.vacants_differ;
        current_in = o.current_in;
        apart = o.apart;
      } in
      let other =
        not_current a.blocks a.current id few inside
          (λ p. absurd (ground (arith, p.taken, was.flagged))) o.current_in in
      by_cases (λ b. IsKept b held) (ltb a.config.max_spare_blocks (length (id ∷ rest)))
        (trim_spares rest (release_block counted id)) a
        (λ q.
          trim_spares-IsKept rest (release_block counted id)
            (subst (λ n. n ≤ no_block) (sym (length-set a.blocks id no_memory)) few) refl
            (released-Owns a.config.block_bytes a.blocks rest a.vacant a.current held id without_it
              inside was.backed was.empty o.spares_differ.0 other))
        (λ q. (
          few,
          subst (λ s. Owns a.config.block_bytes a.blocks s a.vacant a.current held) (sym e) o,
        ))

  -- A dedicated block that is empty goes back.
  dropped-IsKept :
      (a : Arena) (id : ℕ)
      → IsKept a held
      → ((block_at a id).has_memory && (block_at a id).oversized && (block_at a id).live == 0)
        ≡ true
      → IsKept (release_block a id) held
  unfolding release_block
  dropped-IsKept a id (few, o) e =
      let backed : (block_at a id).has_memory ≡ true = ground (arith, e) in
      let big : (block_at a id).oversized ≡ true = ground (arith, e) in
      let inside = backed_in a.blocks id backed in
      (
        subst (λ n. n ≤ no_block) (sym (length-set a.blocks id no_memory)) few,
        released-Owns a.config.block_bytes a.blocks a.spare a.vacant a.current held id o inside
            backed (ground (arith, e))
            (AllIds-Absent (IsSpareIn a.blocks) a.spare id
              (λ p. absurd (ground (arith, big, p.1.common))) o.spares)
            (not_current a.blocks a.current id few inside
              (λ p. absurd (ground (arith, big, p.common))) o.current_in),
      )

  trim_oversized-IsKept :
      (rounds id : ℕ) (a : Arena) → IsKept a held → IsKept (trim_oversized rounds id a) held
  unfolding trim_oversized
  trim_oversized-IsKept zero id a k = k
  trim_oversized-IsKept (suc rounds) id a k =
      let P : Arena → Type 0 = λ b. IsKept b held in
      let b = block_at a id in
      let drop : Bool = b.has_memory && b.oversized && b.live == 0 in
      let released = release_block a id in
      let dropped : Arena = record released {
        empty_oversized = sub_u32 released.empty_oversized 1;
      } in
      let next : P (if drop then dropped else a) =
        by_cases P drop dropped a (λ e. let d = dropped-IsKept a id k e in (d.0, d.1)) (λ e. k) in
      by_cases P (ltb 0 a.empty_oversized)
        (trim_oversized rounds (id + 1) (if drop then dropped else a)) a
        (λ e. trim_oversized-IsKept rounds (id + 1) (if drop then dropped else a) next) (λ e. k)

  pub trim-IsKept : (a : Arena) → IsKept a held → IsKept (trim a) held
  unfolding trim
  trim-IsKept a (few, o) =
      let b = trim_spares a.spare a in
      trim_oversized-IsKept (length b.blocks) 0 b (trim_spares-IsKept a.spare a few refl o)
