-- ===== src/Arena/Given.antt =====
-- What NewBlockLocked of src/frame-arena.cpp gives.
use obs_trigglow_dynamic_del.Prelude.{
  ℕ, ◌%◌, ◌<◌, ◌≡◌, ◌≢◌, ◌⊎◌, inl, inr, refl, sym, subst, ◌∙◌, List, [], ◌∷◌, ◌++◌, Bool, true,
  false, not, ◌==◌, ltb, if◌then◌else◌, length, set, length-set, if_true, u32_mod, add_u64,
  is_empty, last_or, drop_last, length-append, arith,
}
use obs_trigglow_dynamic_del.Arena.{
  Allocation, Arena, no_block, block_at, new_block, fail_allocation, count_block, fresh_block,
}
use obs_trigglow_dynamic_del.Arena.Held.{AllIds-last, block-set}
use obs_trigglow_dynamic_del.Arena.Blocks.{block_in, IsVacantIn, IsOwned}
use obs_trigglow_dynamic_del.Arena.Moves.{by_cases}
use obs_trigglow_dynamic_del.Arena.Fresh.{block-last, Owns-append, Owns-vacant}

-- What NewBlockLocked gives: an arena that owns what is held, and no block or a fresh one that is not
-- the current one.
pub record IsGiven (a : Arena) (held : List Allocation) (capacity : ℕ) (oversized : Bool)
    (r : ℕ × Arena) : Type 0 where
  pub owned : IsOwned r.1 held
  pub same : r.1.config.block_bytes ≡ a.config.block_bytes
  pub given :
      (r.0 ≡ no_block)
      ⊎ ((r.0 ≢ no_block)
          × (r.0 < length r.1.blocks)
          × (block_at r.1 r.0 ≡ fresh_block capacity oversized)
          × (r.0 ≢ r.1.current))

appended-IsGiven :
    (a : Arena) (capacity : ℕ) (oversized : Bool) (held : List Allocation)
    → IsOwned a held
    → length a.blocks < no_block
    → (oversized ≡ false → capacity ≡ a.config.block_bytes)
    → IsGiven a held capacity oversized (
      length a.blocks % u32_mod,
      record a {
        blocks = a.blocks ++ fresh_block capacity oversized ∷ [];
        stats = count_block a.stats capacity;
      },
    )
appended-IsGiven a capacity oversized held o few s =
    let b = fresh_block capacity oversized in
    let at : length a.blocks % u32_mod ≡ length a.blocks = ground (arith, few) in
    record {
      owned = Owns-append _ a.blocks a.spare a.vacant a.current held capacity oversized o s;
      same = refl;
      given = inr (
        λ q. omega (arith, at, few, q),
        omega (arith, at, length-append a.blocks (b ∷ [])),
        subst (λ i. block_in (a.blocks ++ b ∷ []) i ≡ b) (sym at) (block-last a.blocks b),
        λ q. elim o.current_in [
          | inl n ↦ omega (arith, few, at, q, n)
          | inr p ↦ omega (arith, at, q, p.0)
        ],
      );
    }

reused-IsGiven :
    (a : Arena) (capacity : ℕ) (oversized : Bool) (held : List Allocation)
    → IsOwned a held
    → length a.blocks < no_block
    → (oversized ≡ false → capacity ≡ a.config.block_bytes)
    → is_empty a.vacant ≡ false
    → IsGiven a held capacity oversized (
      last_or a.vacant no_block,
      record a {
        vacant = drop_last a.vacant;
        blocks = set a.blocks (last_or a.vacant no_block) (fresh_block capacity oversized);
        stats = count_block a.stats capacity;
      },
    )
reused-IsGiven a capacity oversized held o few s e =
    let id = last_or a.vacant no_block in
    let b = fresh_block capacity oversized in
    let h = (AllIds-last (IsVacantIn a.blocks) a.vacant no_block e o.vacants).0 in
    record {
      owned =
          Owns-vacant _ a.blocks a.spare a.vacant a.current held capacity oversized o
            (omega (arith, few)) e s;
      same = refl;
      given = inr (
        λ q. omega (arith, few, h.0, q),
        subst (λ k. id < k) (sym (length-set a.blocks id b)) h.0,
        block-set a.blocks id id b h.0 ∙ if_true (id == id) b (block_in a.blocks id) (ground arith),
        λ q. elim o.current_in [
          | inl n ↦ omega (arith, few, h.0, q, n)
          | inr p ↦ absurd (
              ground (
                arith,
                h.1,
                subst (λ i. (block_in a.blocks i).has_memory ≡ true) (sym q) p.1.backed,
              ))
        ],
      );
    }

pub new_block-IsGiven :
    (os_ok : Bool) (a : Arena) (capacity : ℕ) (oversized : Bool) (held : List Allocation)
    → IsOwned a held
    → length a.blocks < no_block
    → (oversized ≡ false → capacity ≡ a.config.block_bytes)
    → IsGiven a held capacity oversized (new_block os_ok a capacity oversized)
unfolding new_block
new_block-IsGiven os_ok a capacity oversized held o few s =
    let P : ℕ × Arena → Type 0 = IsGiven a held capacity oversized in
    let b = fresh_block capacity oversized in
    let failed : P (no_block, fail_allocation a) = record {
      owned = o;
      same = refl;
      given = inl refl;
    } in
    let grown : ℕ × Arena = (
      length a.blocks % u32_mod,
      record a { blocks = a.blocks ++ b ∷ []; stats = count_block a.stats capacity },
    ) in
    let taken : ℕ × Arena = (
      last_or a.vacant no_block,
      record a {
        vacant = drop_last a.vacant;
        blocks = set a.blocks (last_or a.vacant no_block) b;
        stats = count_block a.stats capacity;
      },
    ) in
    let given : ℕ × Arena = if is_empty a.vacant then grown else taken in
    by_cases P (ltb a.config.limit_bytes (add_u64 a.stats.committed_bytes capacity))
      (no_block, fail_allocation a) (if not os_ok then (no_block, fail_allocation a) else given)
      (λ e. failed)
      λ e.
        by_cases P (not os_ok) (no_block, fail_allocation a) given (λ e. failed)
          λ e.
            by_cases P (is_empty a.vacant) grown taken
              (λ e. appended-IsGiven a capacity oversized held o few s)
              (λ e. reused-IsGiven a capacity oversized held o few s e)
