-- ===== src/Core/Pool/Examples.antt =====
-- include/core/pool_allocator.hpp: tests, and the theorem at a concrete pool.
use jisa.Prelude.{◌≡◌, refl, true, [], ◌∷◌, arith}
use jisa.Core.Pool.{Pool, new_pool, allocate, build, stride_of}
use jisa.Core.Pool.Blocks.{Reach, took, made, Fits, Allocated, Inside, allocate-Allocated}

abbrev pair : Pool
pair = new_pool true 24 2

-- Blocks of 24 bytes are 32 bytes apart.
stride_of_24 : stride_of 24 ≡ 32
unfolding stride_of
stride_of_24 = refl

pair-Fits : Fits 24 2
unfolding stride_of
pair-Fits = (omega arith, omega arith)

one_taken : Reach 24 2 (allocate pair).0 (0 ∷ [])
unfolding new_pool build allocate stride_of
one_taken = took made refl

allocate-Allocated_example :
    Allocated 2 (0 ∷ []) (allocate (allocate pair).0).1
    × Inside (allocate pair).0.storage_bytes (stride_of 24) (allocate (allocate pair).0).1
allocate-Allocated_example = allocate-Allocated 24 2 (allocate pair).0 (0 ∷ []) pair-Fits one_taken
