-- ===== src/Arena/Blocks.antt =====
-- When the blocks of src/frame-arena.cpp's arena hold what they should, and a write to one of them.
use obs_trigglow_dynamic_del.Prelude.{
  ℕ, ◌≤◌, ◌<◌, ◌≡◌, ◌≢◌, ◌⊎◌, inl, inr, sym, subst, ap, ◌∙◌, List, true, false, ◌==◌, length,
  get_or, set, length-set, Bool-cases, if_true, if_false, arith,
}
use obs_trigglow_dynamic_del.Arena.{Allocation, Block, Arena, no_memory, no_block}
use obs_trigglow_dynamic_del.Arena.Held.{
  held_in, EndsBy, AllApart, Absent, AllDifferent, AllIds, AllIds-map_off, block-set,
}

-- A block counts the allocations held in it, which end where it is used up to; only a block with memory
-- that is not spare has any, and one that is not dedicated has the size of all.
pub record IsBlock (standard : ℕ) (b : Block) (j : ℕ) (held : List Allocation) : Type 0 where
  pub counts : b.live ≡ held_in j held
  pub ends : EndsBy j b.used held
  pub backed : b.has_memory ≡ false → b.live ≡ 0
  pub idle : b.spare ≡ true → b.live ≡ 0
  pub room : b.used ≤ b.capacity
  pub sized : b.has_memory ≡ true → b.oversized ≡ false → b.capacity ≡ standard

pub record IsSpare (b : Block) : Type 0 where
  pub flagged : b.spare ≡ true
  pub backed : b.has_memory ≡ true
  pub empty : b.live ≡ 0
  pub unused : b.used ≡ 0
  pub common : b.oversized ≡ false

pub record IsOpen (b : Block) : Type 0 where
  pub backed : b.has_memory ≡ true
  pub taken : b.spare ≡ false
  pub common : b.oversized ≡ false

abbrev pub block_in : List Block → ℕ → Block
block_in blocks j = get_or blocks j no_memory

abbrev pub IsSpareIn : List Block → ℕ → Type 0
IsSpareIn blocks i = (i < length blocks) × IsSpare (block_in blocks i)

abbrev pub IsVacantIn : List Block → ℕ → Type 0
IsVacantIn blocks i = (i < length blocks) × ((block_in blocks i).has_memory ≡ false)

abbrev pub IsCurrentIn : List Block → ℕ → Type 0
IsCurrentIn blocks i = (i ≡ no_block) ⊎ ((i < length blocks) × IsOpen (block_in blocks i))

-- The arena of these blocks and lists, with these allocations held.
pub record Owns (standard : ℕ) (blocks : List Block) (spare vacant : List ℕ) (current : ℕ)
    (held : List Allocation) : Type 0 where
  pub each : (j : ℕ) → IsBlock standard (block_in blocks j) j held
  pub spares : AllIds (IsSpareIn blocks) spare
  pub spares_differ : AllDifferent spare
  pub vacants : AllIds (IsVacantIn blocks) vacant
  pub vacants_differ : AllDifferent vacant
  pub current_in : IsCurrentIn blocks current
  pub apart : AllApart held

abbrev pub IsOwned : Arena → List Allocation → Type 0
IsOwned a held = Owns a.config.block_bytes a.blocks a.spare a.vacant a.current held

-- What holds of every block but `id`, and of what is written there, holds of every block.
pub each-set :
    (P : Block → ℕ → Type 0) (blocks : List Block) (id : ℕ) (b : Block)
    → id < length blocks
    → ((j : ℕ) → id ≢ j → P (block_in blocks j) j)
    → P b id
    → (j : ℕ) → P (block_in (set blocks id b) j) j
each-set P blocks id b h others here j = elim (Bool-cases (id == j)) [
  | inl e ↦
      let same : id ≡ j = ground (arith, e) in
      subst (λ c. P c j)
        (sym (block-set blocks id j b h ∙ if_true (id == j) b (block_in blocks j) e))
        (subst (P b) same here)
  | inr e ↦
      subst (λ c. P c j)
        (sym (block-set blocks id j b h ∙ if_false (id == j) b (block_in blocks j) e))
        (others j (λ q. ground (arith, e, q)))
]

block-set_ne :
    (blocks : List Block) (id j : ℕ) (b : Block)
    → id < length blocks
    → id ≢ j
    → block_in (set blocks id b) j ≡ block_in blocks j
block-set_ne blocks id j b h n =
    block-set blocks id j b h ∙ if_false (id == j) b (block_in blocks j) (ground (arith, n))

-- A write to a block that is not among these leaves what they are.
pub spares-set :
    (blocks : List Block) (id : ℕ) (b : Block) (spare : List ℕ)
    → id < length blocks
    → Absent id spare
    → AllIds (IsSpareIn blocks) spare
    → AllIds (IsSpareIn (set blocks id b)) spare
spares-set blocks id b spare h a s =
    AllIds-map_off (IsSpareIn blocks) (IsSpareIn (set blocks id b)) spare id
      (λ i n p. (
        subst (λ k. i < k) (sym (length-set blocks id b)) p.0,
        subst IsSpare (sym (block-set_ne blocks id i b h (λ q. n (sym q)))) p.1,
      ))
      a s

pub vacants-set :
    (blocks : List Block) (id : ℕ) (b : Block) (vacant : List ℕ)
    → id < length blocks
    → Absent id vacant
    → AllIds (IsVacantIn blocks) vacant
    → AllIds (IsVacantIn (set blocks id b)) vacant
vacants-set blocks id b vacant h a s =
    AllIds-map_off (IsVacantIn blocks) (IsVacantIn (set blocks id b)) vacant id
      (λ i n p. (
        subst (λ k. i < k) (sym (length-set blocks id b)) p.0,
        ap (λ c. c.has_memory) (block-set_ne blocks id i b h (λ q. n (sym q))) ∙ p.1,
      ))
      a s

pub current-set :
    (blocks : List Block) (id : ℕ) (b : Block) (current : ℕ)
    → id < length blocks
    → (id ≡ current → IsOpen b)
    → IsCurrentIn blocks current
    → IsCurrentIn (set blocks id b) current
current-set blocks id b current h f (inl e) = inl e
current-set blocks id b current h f (inr (l, o)) = inr (
  subst (λ k. current < k) (sym (length-set blocks id b)) l,
  elim (Bool-cases (id == current)) [
    | inl e ↦
        subst IsOpen (sym (block-set blocks id current b h ∙ if_true (id == current) b _ e))
          (f (ground (arith, e)))
    | inr e ↦
        subst IsOpen (sym (block-set blocks id current b h ∙ if_false (id == current) b _ e)) o
  ],
)
