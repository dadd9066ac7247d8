-- ===== src/Arena/Fresh.antt =====
-- New blocks of src/frame-arena.cpp, and the current one, keep the allocations apart and owned.
use obs_trigglow_dynamic_del.Prelude.{
  ℕ, ◌≤◌, ◌<◌, ◌≡◌, ◌≢◌, inl, inr, refl, sym, subst, ap, ◌∙◌, List, [], ◌∷◌, ◌++◌, Bool, true,
  false, ◌==◌, length, set, Bool-cases, if_true, if_false, is_empty, last_or, drop_last, get_or_end,
  get_or-append, length-append, arith,
}
use obs_trigglow_dynamic_del.Arena.{Allocation, Block, no_memory, no_block, fresh_block}
use obs_trigglow_dynamic_del.Arena.Held.{
  held_in, EndsBy-none, AllDifferent-last, AllIds-map, AllIds-last, AllIds-Absent,
}
use obs_trigglow_dynamic_del.Arena.Blocks.{
  IsBlock, IsSpare, IsOpen, block_in, IsSpareIn, IsVacantIn, Owns, each-set, spares-set,
  vacants-set, current-set,
}

-- A fresh block where nothing is held.
fresh-IsBlock :
    (standard capacity : ℕ) (oversized : Bool) (j : ℕ) (held : List Allocation)
    → (oversized ≡ false → capacity ≡ standard)
    → held_in j held ≡ 0
    → IsBlock standard (fresh_block capacity oversized) j held
fresh-IsBlock standard capacity oversized j held s e = record {
  counts = sym e;
  ends = EndsBy-none j 0 held e;
  backed = λ q. refl;
  idle = λ q. refl;
  room = omega arith;
  sized = λ q. s;
}

-- A block at the end of the vector.
block-append :
    (blocks : List Block) (b : Block) (j : ℕ)
    → j < length blocks
    → block_in (blocks ++ b ∷ []) j ≡ block_in blocks j
block-append blocks b j h =
    get_or-append blocks b j no_memory
    ∙ if_false (j == length blocks) b (block_in blocks j) (ground (arith, h))

pub block-last : (blocks : List Block) (b : Block) → block_in (blocks ++ b ∷ []) (length blocks) ≡ b
block-last blocks b =
    get_or-append blocks b (length blocks) no_memory
    ∙ if_true (length blocks == length blocks) b _ (ground arith)

longer :
    (blocks : List Block) (b : Block) (i : ℕ) → i < length blocks → i < length (blocks ++ b ∷ [])
longer blocks b i h = omega (arith, length-append blocks (b ∷ []), h)

each-append :
    (P : Block → ℕ → Type 0) (blocks : List Block) (b : Block)
    → ((j : ℕ) → j ≢ length blocks → P (block_in blocks j) j)
    → P b (length blocks)
    → (j : ℕ) → P (block_in (blocks ++ b ∷ []) j) j
each-append P blocks b others last j = elim (Bool-cases (j == length blocks)) [
  | inl e ↦
      subst (λ c. P c j)
        (sym (
          get_or-append blocks b j no_memory
          ∙ if_true (j == length blocks) b (block_in blocks j) e))
        (subst (P b) (ground (arith, e)) last)
  | inr e ↦
      subst (λ c. P c j)
        (sym (
          get_or-append blocks b j no_memory
          ∙ if_false (j == length blocks) b (block_in blocks j) e))
        (others j (λ q. ground (arith, e, q)))
]

pub Owns-append :
    (standard : ℕ) (blocks : List Block) (spare vacant : List ℕ) (current : ℕ)
    (held : List Allocation) (capacity : ℕ) (oversized : Bool)
    → Owns standard blocks spare vacant current held
    → (oversized ≡ false → capacity ≡ standard)
    → Owns standard (blocks ++ fresh_block capacity oversized ∷ []) spare vacant current held
Owns-append standard blocks spare vacant current held capacity oversized o s =
    let b = fresh_block capacity oversized in
    let later = blocks ++ b ∷ [] in
    let none_held : held_in (length blocks) held ≡ 0 =
      sym (o.each (length blocks)).counts
      ∙ ap (λ c. c.live) (get_or_end blocks (length blocks) no_memory (omega arith)) in
    record {
      each =
          each-append (λ c j. IsBlock standard c j held) blocks b (λ j n. o.each j)
            (fresh-IsBlock standard capacity oversized (length blocks) held s none_held);
      spares =
          AllIds-map (IsSpareIn blocks) (IsSpareIn later) spare
            (λ i p. (longer blocks b i p.0, subst IsSpare (sym (block-append blocks b i p.0)) p.1))
            o.spares;
      spares_differ = o.spares_differ;
      vacants =
          AllIds-map (IsVacantIn blocks) (IsVacantIn later) vacant
            (λ i p.
              (longer blocks b i p.0, ap (λ c. c.has_memory) (block-append blocks b i p.0) ∙ p.1))
            o.vacants;
      vacants_differ = o.vacants_differ;
      current_in = elim o.current_in [
        | inl e ↦ inl e
        | inr p ↦ inr (
          longer blocks b current p.0,
          subst IsOpen (sym (block-append blocks b current p.0)) p.1,
        )
      ];
      apart = o.apart;
    }

pub Owns-vacant :
    (standard : ℕ) (blocks : List Block) (spare vacant : List ℕ) (current : ℕ)
    (held : List Allocation) (capacity : ℕ) (oversized : Bool)
    → Owns standard blocks spare vacant current held
    → length blocks ≤ no_block
    → is_empty vacant ≡ false
    → (oversized ≡ false → capacity ≡ standard)
    → Owns standard
        (set blocks (last_or vacant no_block) (fresh_block capacity oversized))
        spare
        (drop_last vacant)
        current
        held
Owns-vacant standard blocks spare vacant current held capacity oversized o small e s =
    let id = last_or vacant no_block in
    let b = fresh_block capacity oversized in
    let parts = AllIds-last (IsVacantIn blocks) vacant no_block e o.vacants in
    let differ = AllDifferent-last vacant no_block e o.vacants_differ in
    let h = parts.0.0 in
    let none_held : held_in id held ≡ 0 = sym (o.each id).counts ∙ (o.each id).backed parts.0.1 in
    let other : id ≢ current = λ q. elim o.current_in [
      | inl n ↦ omega (arith, h, small, q, n)
      | inr p ↦ absurd (
          ground (
            arith,
            parts.0.1,
            subst (λ i. (block_in blocks i).has_memory ≡ true) (sym q) p.1.backed,
          ))
    ] in
    record {
      each =
          each-set (λ c j. IsBlock standard c j held) blocks id b h (λ j n. o.each j)
            (fresh-IsBlock standard capacity oversized id held s none_held);
      spares =
          spares-set blocks id b spare h
            (AllIds-Absent (IsSpareIn blocks) spare id
              (λ p. absurd (ground (arith, parts.0.1, p.1.backed))) o.spares)
            o.spares;
      spares_differ = o.spares_differ;
      vacants = vacants-set blocks id b (drop_last vacant) h differ.0 parts.1;
      vacants_differ = differ.1;
      current_in = current-set blocks id b current h (λ q. absurd (other q)) o.current_in;
      apart = o.apart;
    }
