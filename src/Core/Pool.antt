-- ===== src/Core/Pool.antt =====
-- include/core/pool_allocator.hpp: PoolAllocator. A pointer into the storage is the index of its block,
-- and the word that a free block starts with is modelled, as it holds the next free block; whether
-- `aligned_alloc` succeeds is an argument. `alignof(std::max_align_t)` is 16 and a pointer has 8 bytes.
pub mod FreeList
pub mod Blocks
mod Examples
use jisa.Prelude.{
  ℕ, zero, suc, ◌+◌, ◌-◌, ◌*◌, ◌%◌, ◌^◌, Bool, Option, none, some, List, [], ltb, ◌==◌,
  if◌then◌else◌, get_or, set, replicate,
}
use jisa.Prelude.Bits.{bit_and}

pub record Pool : Type 0 where
  pub links : List (Option ℕ)
  pub free_head : Option ℕ
  pub stride : ℕ
  pub block_count : ℕ
  pub storage_bytes : ℕ

unfoldable pub stride_of : ℕ → ℕ
stride_of block_size =
    let min_size = if ltb block_size 8 then 8 else block_size in
    bit_and ((min_size + 16 - 1) % 2 ^ 64) (2 ^ 64 - 16)

-- The loop that builds the free list, with `left` rounds to go.
unfoldable pub build : ℕ → Pool → Pool
build zero p = p
build (suc i) p = build i (record p { links = set p.links i p.free_head; free_head = some i })

-- The constructor; `storage_bytes` is what was asked of `aligned_alloc`, a product that can wrap. Of blocks that
-- lie past it the source has no storage: it writes out of bounds there.
unfoldable pub new_pool : Bool → ℕ → ℕ → Pool
new_pool allocated block_size block_count =
    let stride = stride_of block_size in
    let total = stride * block_count % 2 ^ 64 in
    let no_storage : Pool = record {
      links = [];
      free_head = none;
      stride = stride;
      block_count = block_count;
      storage_bytes = 0;
    } in
    let built =
      build block_count
        (record no_storage { links = replicate block_count none; storage_bytes = total }) in
    if total == 0
    then no_storage
    else if allocated
    then built
    else record no_storage { block_count = 0 }

abbrev link_at : Pool → ℕ → Option ℕ
link_at p b = get_or p.links b none

abbrev take_block : Option ℕ → Pool → Pool × Option ℕ
take_block none p = (p, none)
take_block (some block) p = (record p { free_head = link_at p block }, some block)

unfoldable pub allocate : Pool → Pool × Option ℕ
allocate p = take_block p.free_head p

unfoldable pub deallocate : Option ℕ → Pool → Pool
deallocate none p = p
deallocate (some block) p = record p {
  links = set p.links block p.free_head;
  free_head = some block;
}

-- A client that writes to a block, whatever the first word becomes.
unfoldable pub scribble : ℕ → Option ℕ → Pool → Pool
scribble block word p = record p { links = set p.links block word }
