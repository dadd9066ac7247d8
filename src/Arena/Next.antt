-- ===== src/Arena/Next.antt =====
-- The next current block of src/frame-arena.cpp.
use obs_trigglow_dynamic_del.Prelude.{
  ℕ, ◌<◌, ◌≡◌, ◌⊎◌, inl, inr, refl, sym, subst, ap, ◌∙◌, List, Bool, true, false, ◌==◌, length, set,
  length-set, if_true, sub_u32, is_empty, last_or, drop_last, arith,
}
use obs_trigglow_dynamic_del.Arena.{
  Allocation, Arena, no_block, block_at, retire_if_empty, new_block, leave_current, next_current,
}
use obs_trigglow_dynamic_del.Arena.Held.{AllIds-last, AllDifferent-last, block-set}
use obs_trigglow_dynamic_del.Arena.Blocks.{
  IsBlock, IsOpen, block_in, IsSpareIn, IsCurrentIn, IsOwned, each-set, spares-set, vacants-set,
}
use obs_trigglow_dynamic_del.Arena.Moves.{retire-IsOwned, vacants-Absent, by_cases}
use obs_trigglow_dynamic_del.Arena.Given.{IsGiven, new_block-IsGiven}

-- What the arena keeps while its current block changes.
pub record IsLeft (a : Arena) (held : List Allocation) (b : Arena) : Type 0 where
  pub owned : IsOwned b held
  pub closed : b.current ≡ no_block
  pub same : b.config.block_bytes ≡ a.config.block_bytes
  pub blocks : length b.blocks ≡ length a.blocks

retire_keeps :
    (a : Arena) (id : ℕ)
    → ((retire_if_empty a id).current ≡ a.current)
      × ((retire_if_empty a id).config.block_bytes ≡ a.config.block_bytes)
      × (length (retire_if_empty a id).blocks ≡ length a.blocks)
unfolding retire_if_empty
retire_keeps a id = (
  ground arith,
  ground arith,
  ground (
    arith,
    length-set a.blocks id (record (block_at a id) { used = 0 }),
    length-set a.blocks id (record (block_at a id) { used = 0; spare = true }),
  ),
)

pub leave_current-IsLeft :
    (a : Arena) (held : List Allocation) → IsOwned a held → IsLeft a held (leave_current a)
unfolding leave_current
leave_current-IsLeft a held o =
    let left = record a { current = no_block } in
    let closed : IsOwned left held = record {
      each = o.each;
      spares = o.spares;
      spares_differ = o.spares_differ;
      vacants = o.vacants;
      vacants_differ = o.vacants_differ;
      current_in = inl refl;
      apart = o.apart;
    } in
    let kept = retire_keeps left a.current in
    by_cases (IsLeft a held) (a.current == no_block) left (retire_if_empty left a.current)
      (λ e. record { owned = closed; closed = refl; same = refl; blocks = refl })
      (λ e. record {
        owned = retire-IsOwned left a.current held closed;
        closed = kept.0;
        same = kept.1;
        blocks = kept.2;
      })

-- The next current block is open and unused.
pub record IsNext (a : Arena) (held : List Allocation) (b : Arena) : Type 0 where
  pub owned : IsOwned b held
  pub same : b.config.block_bytes ≡ a.config.block_bytes
  pub unused : (b.current ≡ no_block) ⊎ ((block_at b b.current).used ≡ 0)

-- The last spare block is the current one.
spare-IsNext :
    (a : Arena) (held : List Allocation)
    → IsOwned a held
    → is_empty a.spare ≡ false
    → IsNext a held (record a {
      current = last_or a.spare no_block;
      spare = drop_last a.spare;
      blocks =
          set a.blocks
            (last_or a.spare no_block)
            (record (block_at a (last_or a.spare no_block)) { spare = false });
      stats = record (a.stats) { spare_blocks = sub_u32 a.stats.spare_blocks 1 };
    })
spare-IsNext a held o e =
    let id = last_or a.spare no_block in
    let b = block_at a id in
    let c = record b { spare = false } in
    let parts = AllIds-last (IsSpareIn a.blocks) a.spare no_block e o.spares in
    let differ = AllDifferent-last a.spare no_block e o.spares_differ in
    let h = parts.0.0 in
    let was = parts.0.1 in
    let v = o.each id in
    let there : block_in (set a.blocks id c) id ≡ c =
      block-set a.blocks id id c h ∙ if_true (id == id) c b (ground arith) in
    let opened : IsOpen c = record { backed = was.backed; taken = refl; common = was.common } in
    record {
      owned = record {
        each =
            each-set (λ d j. IsBlock a.config.block_bytes d j held) a.blocks id c h
              (λ j n. o.each j)
              (record {
                counts = v.counts;
                ends = v.ends;
                backed = v.backed;
                idle = λ q. was.empty;
                room = v.room;
                sized = v.sized;
              });
        spares = spares-set a.blocks id c (drop_last a.spare) h differ.0 parts.1;
        spares_differ = differ.1;
        vacants =
            vacants-set a.blocks id c a.vacant h
              (vacants-Absent a.blocks a.vacant id was.backed o.vacants) o.vacants;
        vacants_differ = o.vacants_differ;
        current_in = inr (
          subst (λ k. id < k) (sym (length-set a.blocks id c)) h,
          subst IsOpen (sym there) opened,
        );
        apart = o.apart;
      };
      same = refl;
      unused = inr (ap (λ d. d.used) there ∙ was.unused);
    }

new-IsNext :
    (a : Arena) (held : List Allocation) (r : ℕ × Arena)
    → IsGiven a held a.config.block_bytes false r
    → IsNext a held (record (r.1) { current = r.0 })
new-IsNext a held r g =
    let o = g.owned in
    let current : IsCurrentIn r.1.blocks r.0 = elim g.given [
      | inl n ↦ inl n
      | inr p ↦
          inr (p.1, subst IsOpen (sym p.2) (record { backed = refl; taken = refl; common = refl }))
    ] in
    record {
      owned = record {
        each = o.each;
        spares = o.spares;
        spares_differ = o.spares_differ;
        vacants = o.vacants;
        vacants_differ = o.vacants_differ;
        current_in = current;
        apart = o.apart;
      };
      same = g.same;
      unused = elim g.given [ inl n ↦ inl n | inr p ↦ inr (ap (λ d. d.used) p.2) ];
    }

pub next_current-IsNext :
    (os_ok : Bool) (a : Arena) (held : List Allocation)
    → IsOwned a held
    → length a.blocks < no_block
    → IsNext a held (next_current os_ok a)
unfolding next_current
next_current-IsNext os_ok a held o few =
    let r = new_block os_ok a a.config.block_bytes false in
    let id = last_or a.spare no_block in
    by_cases (IsNext a held) (is_empty a.spare) (record (r.1) { current = r.0 })
      (record a {
        current = id;
        spare = drop_last a.spare;
        blocks = set a.blocks id (record (block_at a id) { spare = false });
        stats = record (a.stats) { spare_blocks = sub_u32 a.stats.spare_blocks 1 };
      })
      (λ e.
        new-IsNext a held r
          (new_block-IsGiven os_ok a a.config.block_bytes false held o few (λ q. refl)))
      (λ e. spare-IsNext a held o e)
