-- ===== src/Arena.antt =====
-- src/frame-arena.hpp and src/frame-arena.cpp: the byte arena of the delay ring's payloads.
-- A vector is a list in its order. A payload's `data` pointer is its offset from the base of its
-- block, `none` for nullptr. Whether `new (std::nothrow)` succeeds is the argument `os_ok` of the
-- operations that may call it (at most once). The mutex makes each operation one step.
pub mod Limit
pub mod Sizing
pub mod Held
pub mod Blocks
pub mod Moves
pub mod Fresh
pub mod Given
pub mod Next
pub mod Place
pub mod Freed
pub mod Trimmed
pub mod Calls
pub mod Owned
mod Tests
use obs_trigglow_dynamic_del.Prelude.{
  ℕ, zero, suc, ◌+◌, ◌-◌, ◌*◌, ◌/◌, ◌%◌, ◌^◌, min, max, Bool, true, false, not, ◌&&◌, ◌||◌, Option,
  none, some, List, [], ◌∷◌, ◌++◌, ltb, ◌==◌, if◌then◌else◌, u64_mod, u32_mod, add_u64, sub_u64,
  add_u32, sub_u32, length, get_or, set, is_empty, last_or, drop_last,
}

-- kNoBlock and kAlignment.
abbrev pub no_block : ℕ
no_block = 2 ^ 32 - 1

abbrev pub alignment : ℕ
alignment = 64

-- FrameArena::Config.
pub record Config : Type 0 where
  pub block_bytes : ℕ
  pub limit_bytes : ℕ
  pub max_spare_blocks : ℕ

pub record Allocation : Type 0 where
  pub offset : Option ℕ
  pub block : ℕ
  pub bytes : ℕ

abbrev pub no_allocation : Allocation
no_allocation = record { offset = none; block = no_block; bytes = 0 }

pub record Stats : Type 0 where
  pub committed_bytes : ℕ
  pub peak_committed_bytes : ℕ
  pub live_bytes : ℕ
  pub blocks : ℕ
  pub spare_blocks : ℕ
  pub failed_allocations : ℕ
  pub released_blocks : ℕ

-- `memory` and `base` are one flag: whether the block has memory.
pub record Block : Type 0 where
  pub has_memory : Bool
  pub capacity : ℕ
  pub used : ℕ
  pub live : ℕ
  pub oversized : Bool
  pub spare : Bool

abbrev pub no_memory : Block
no_memory = record {
  has_memory = false;
  capacity = 0;
  used = 0;
  live = 0;
  oversized = false;
  spare = false;
}

pub record Arena : Type 0 where
  pub config : Config
  pub blocks : List Block
  pub spare : List ℕ
  pub vacant : List ℕ
  pub current : ℕ
  pub empty_oversized : ℕ
  pub stats : Stats

-- `blocks_[id]`.
abbrev pub block_at : Arena → ℕ → Block
block_at a id = get_or a.blocks id no_memory

pub round_up : ℕ → ℕ → ℕ
round_up bytes to = add_u64 bytes (to - 1) / to * to

abbrev pub mib : ℕ
mib = 2 ^ 20

-- kMinSizedBlockBytes and kMaxSizedBlockBytes.
abbrev pub min_sized_block_bytes : ℕ
min_sized_block_bytes = 4 * mib

abbrev pub max_sized_block_bytes : ℕ
max_sized_block_bytes = 8 * mib

-- The block size of SizedFor.
pub sized_block : ℕ → ℕ → ℕ
unfolding round_up
sized_block expected fixed =
    let whole = (expected / 64 + mib - 1) / mib * mib in
    let block = min (max whole min_sized_block_bytes) max_sized_block_bytes in
    let unit = round_up fixed alignment in
    if ltb 0 fixed then max 1 (block / unit) * unit % u64_mod else block

pub sized_for : ℕ → ℕ → ℕ → Config
unfolding sized_block
sized_for expected budget fixed =
    let block = sized_block expected fixed in
    record {
      block_bytes = block;
      limit_bytes = max budget ((expected + 2 * block) % u64_mod);
      max_spare_blocks = 1;
    }

abbrev pub no_stats : Stats
no_stats = record {
  committed_bytes = 0;
  peak_committed_bytes = 0;
  live_bytes = 0;
  blocks = 0;
  spare_blocks = 0;
  failed_allocations = 0;
  released_blocks = 0;
}

-- The constructor.
pub make : Config → Arena
unfolding round_up
make config = record {
  config = record config { block_bytes = round_up (max config.block_bytes alignment) alignment };
  blocks = [];
  spare = [];
  vacant = [];
  current = no_block;
  empty_oversized = 0;
  stats = no_stats;
}

abbrev pub fail_allocation : Arena → Arena
fail_allocation a = record a {
  stats = record (a.stats) { failed_allocations = add_u64 a.stats.failed_allocations 1 };
}

abbrev pub fresh_block : ℕ → Bool → Block
fresh_block capacity oversized = record {
  has_memory = true;
  capacity = capacity;
  used = 0;
  live = 0;
  oversized = oversized;
  spare = false;
}

abbrev pub count_block : Stats → ℕ → Stats
count_block s capacity =
    let committed = add_u64 s.committed_bytes capacity in
    record s {
      committed_bytes = committed;
      peak_committed_bytes = max s.peak_committed_bytes committed;
      blocks = add_u32 s.blocks 1;
    }

-- NewBlockLocked: the id of the new block, or `no_block`.
pub new_block : Bool → Arena → ℕ → Bool → ℕ × Arena
new_block os_ok a capacity oversized =
    let grown_stats = count_block a.stats capacity in
    let block = fresh_block capacity oversized in
    if ltb a.config.limit_bytes (add_u64 a.stats.committed_bytes capacity)
    then (no_block, fail_allocation a)
    else if not os_ok
    then (no_block, fail_allocation a)
    else if is_empty a.vacant
    then (
      length a.blocks % u32_mod,
      record a { blocks = a.blocks ++ block ∷ []; stats = grown_stats },
    )
    else (
      last_or a.vacant no_block,
      record a {
        vacant = drop_last a.vacant;
        blocks = set a.blocks (last_or a.vacant no_block) block;
        stats = grown_stats;
      },
    )

-- RetireIfEmptyLocked.
pub retire_if_empty : Arena → ℕ → Arena
retire_if_empty a id =
    let b = block_at a id in
    if not (b.live == 0) || id == a.current || b.spare || not b.has_memory
    then a
    else if b.oversized
    then record a {
      blocks = set a.blocks id (record b { used = 0 });
      empty_oversized = add_u32 a.empty_oversized 1;
    }
    else record a {
      blocks = set a.blocks id (record b { used = 0; spare = true });
      spare = a.spare ++ id ∷ [];
      stats = record (a.stats) { spare_blocks = add_u32 a.stats.spare_blocks 1 };
    }

-- The bump allocation of `size` bytes at the end of block `id`.
pub bump : Arena → ℕ → ℕ → Allocation × Arena
bump a id size =
    let b = block_at a id in
    (
      record { offset = some b.used; block = id; bytes = size % u32_mod },
      record a {
        blocks = set a.blocks id (record b { used = add_u64 b.used size; live = add_u32 b.live 1 });
        stats = record (a.stats) { live_bytes = add_u64 a.stats.live_bytes size };
      },
    )

-- The dedicated block of a payload bigger than a block.
pub allocate_oversized : Bool → Arena → ℕ → Allocation × Arena
unfolding new_block
allocate_oversized os_ok a size =
    let (id, b) = new_block os_ok a size true in
    if id == no_block then (no_allocation, b) else (
      record { offset = some 0; block = id; bytes = size % u32_mod },
      record b {
        blocks = set b.blocks id (record (block_at b id) { used = size; live = 1 });
        stats = record (b.stats) { live_bytes = add_u64 b.stats.live_bytes size };
      },
    )

-- `current_ == kNoBlock ||` the payload doesn't fit the current block.
abbrev pub must_move : Arena → ℕ → Bool
must_move a size =
    a.current == no_block
    || ltb (block_at a a.current).capacity (add_u64 (block_at a a.current).used size)

-- The current block is left behind: recycled right away if it is empty.
pub leave_current : Arena → Arena
unfolding retire_if_empty
leave_current a =
    let left = record a { current = no_block } in
    if a.current == no_block then left else retire_if_empty left a.current

-- Another current block: the last spare one, or a new one.
pub next_current : Bool → Arena → Arena
unfolding new_block
next_current os_ok a =
    let id = last_or a.spare no_block in
    let (fresh, b) = new_block os_ok a a.config.block_bytes false in
    if is_empty a.spare then record b { current = fresh } else record a {
      current = id;
      spare = drop_last a.spare;
      blocks = set a.blocks id (record (block_at a id) { spare = false });
      stats = record (a.stats) { spare_blocks = sub_u32 a.stats.spare_blocks 1 };
    }

-- Allocate of a payload that fits a block.
pub allocate_in_block : Bool → Arena → ℕ → Allocation × Arena
unfolding leave_current next_current bump
allocate_in_block os_ok a size =
    let moved = next_current os_ok (leave_current a) in
    if must_move a size
    then if moved.current == no_block then (no_allocation, moved) else bump moved moved.current size
    else bump a a.current size

-- Allocate.
pub allocate : Bool → Arena → ℕ → Allocation × Arena
unfolding round_up allocate_oversized allocate_in_block
allocate os_ok a bytes =
    let size = round_up (max bytes 1) alignment in
    if ltb a.config.block_bytes size
    then allocate_oversized os_ok a size
    else allocate_in_block os_ok a size

-- The counters of Free, for a live allocation of block `id`.
pub free_in_block : Arena → ℕ → ℕ → Arena
unfolding retire_if_empty
free_in_block a id bytes =
    let b = block_at a id in
    let live = b.live - 1 in
    let counted = record a {
      blocks = set a.blocks id (record b { live = live });
      stats = record (a.stats) { live_bytes = a.stats.live_bytes - min a.stats.live_bytes bytes };
    } in
    if not (live == 0)
    then counted
    else if id == a.current
    then record counted { blocks = set a.blocks id (record b { live = live; used = 0 }) }
    else retire_if_empty counted id

-- Free. The caller's handle becomes `no_allocation`.
pub free : Arena → Allocation → Arena
unfolding free_in_block
free a allocation = elim allocation.offset [
  | none ↦ a
  | some o ↦
      if ltb allocation.block (length a.blocks) && ltb 0 (block_at a allocation.block).live
      then free_in_block a allocation.block allocation.bytes
      else a
]

-- `releaseBlock` of Trim.
pub release_block : Arena → ℕ → Arena
release_block a id = record a {
  blocks = set a.blocks id no_memory;
  vacant = a.vacant ++ id ∷ [];
  stats = record (a.stats) {
    committed_bytes = sub_u64 a.stats.committed_bytes (block_at a id).capacity;
    blocks = sub_u32 a.stats.blocks 1;
    released_blocks = add_u64 a.stats.released_blocks 1;
  };
}

-- The `while` of Trim, over the spare list from its front: one block less each round, so its length
-- is fuel enough.
pub trim_spares : List ℕ → Arena → Arena
unfolding release_block
trim_spares [] a = a
trim_spares (id ∷ rest) a =
    let counted = record a {
      spare = rest;
      stats = record (a.stats) { spare_blocks = sub_u32 a.stats.spare_blocks 1 };
    } in
    let next = trim_spares rest (release_block counted id) in
    if ltb a.config.max_spare_blocks (length (id ∷ rest)) then next else a

-- The `for` of Trim, from block `id` on.
pub trim_oversized : ℕ → ℕ → Arena → Arena
unfolding release_block
trim_oversized zero id a = a
trim_oversized (suc rounds) id a =
    let b = block_at a id in
    let released = release_block a id in
    let dropped = record released { empty_oversized = sub_u32 released.empty_oversized 1 } in
    let next =
      trim_oversized rounds (id + 1)
        (if b.has_memory && b.oversized && b.live == 0 then dropped else a) in
    if ltb 0 a.empty_oversized then next else a

-- Trim.
pub trim : Arena → Arena
unfolding trim_spares trim_oversized
trim a = let b = trim_spares a.spare a in trim_oversized (length b.blocks) 0 b

-- TrimWanted.
pub trim_wanted : Arena → Bool
trim_wanted a = ltb a.config.max_spare_blocks (length a.spare) || ltb 0 a.empty_oversized
