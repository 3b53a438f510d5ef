-- ===== src/Core/Pool/Blocks.antt =====
-- include/core/pool_allocator.hpp: who has which block.
use jisa.Core.Pool.FreeList.{
  count, remove, count-remove, Chain, Chain-set, up_from, count-up_from, build-Chain,
}
use jisa.Prelude.{
  ℕ, zero, suc, ◌+◌, ◌*◌, ◌%◌, ◌^◌, ◌<◌, ◌≤◌, ◌≡◌, refl, sym, ap, subst, ◌∙◌, true, Option, none,
  some, List, [], ◌∷◌, arith, ltb, if◌then◌else◌, ne→==_false, length, get_or, replicate,
  length-set, length-replicate, get_or-set_self,
}
use native.Mathlib.Nat.{mod-eq_of_lt, mul-le-mul_left, mul-suc}
use jisa.Core.Pool.{Pool, build, new_pool, stride_of, take_block, allocate, deallocate, scribble}

-- Every block of the pool is either free or held, and only once.
pub record Owned (n : ℕ) (p : Pool) (held : List ℕ) : Type 0 where
  pub free : List ℕ
  pub chain : Chain p.links p.free_head free
  pub long : length p.links ≡ n
  pub partition : (b : ℕ) → count b free + count b held ≡ (if ltb b n then 1 else 0)

-- What a client can do with a new pool of `n` blocks: allocate, write to a block that it holds, and
-- give such a block back.
pub data Reach (block_size n : ℕ) : Pool → List ℕ → Type 0 where
  made : Reach block_size n (new_pool true block_size n) []
  took :
      {p : Pool} {held : List ℕ} {b : ℕ}
      → Reach block_size n p held
      → (allocate p).1 ≡ some b
      → Reach block_size n (allocate p).0 (b ∷ held)
  wrote :
      {p : Pool} {held : List ℕ} (b : ℕ) (word : Option ℕ)
      → Reach block_size n p held
      → 0 < count b held
      → Reach block_size n (scribble b word p) held
  gave :
      {p : Pool} {held : List ℕ} (b : ℕ)
      → Reach block_size n p held
      → 0 < count b held
      → Reach block_size n (deallocate (some b) p) (remove b held)

-- A pool that is not empty and whose size in bytes does not wrap.
abbrev pub Fits : ℕ → ℕ → Type 0
Fits block_size n = (0 < stride_of block_size * n) × (stride_of block_size * n < 2 ^ 64)

new_pool-Owned : (block_size n : ℕ) → Fits block_size n → Owned n (new_pool true block_size n) []
unfolding new_pool build
new_pool-Owned block_size n fits =
    rw (ne→==_false (stride_of block_size * n % 2 ^ 64) 0 (omega (arith, fits))) (record {
      free = up_from 0 n;
      chain =
          subst (λ m. Chain (build n empty).links (build n empty).free_head (up_from 0 m))
            {x = n + 0} (omega arith)
            (build-Chain n 0 empty (omega (arith, length-replicate {A = Option ℕ} n none)) refl);
      long = length-build n empty ∙ length-replicate {A = Option ℕ} n none;
      partition = λ b. ground (arith, count-up_from b 0 n);
    })
  where
    empty : Pool
    empty = record {
      links = replicate n none;
      free_head = none;
      stride = stride_of block_size;
      block_count = n;
      storage_bytes = stride_of block_size * n % 2 ^ 64;
    }

    length-build : (left : ℕ) (p : Pool) → length (build left p).links ≡ length p.links
    length-build zero p = refl
    length-build (suc i) p = length-build i _ ∙ length-set p.links i p.free_head

took-Owned :
    (n : ℕ) (p : Pool) (held : List ℕ) (b : ℕ)
    → Owned n p held
    → p.free_head ≡ some b
    → (Owned n (record p { free_head = get_or p.links b none }) (b ∷ held))
      × (b < n)
      × (count b held ≡ 0)
took-Owned n p held b v e = go v.free v.chain v.partition
  where
    go :
        (free : List ℕ)
        → Chain p.links p.free_head free
        → ((x : ℕ) → count x free + count x held ≡ (if ltb x n then 1 else 0))
        → (Owned n (record p { free_head = get_or p.links b none }) (b ∷ held))
          × (b < n)
          × (count b held ≡ 0)
    go [] c part = absurd (ground (arith, c, e))
    go (x ∷ rest) c part =
        let same : x ≡ b = ground (arith, c.0, e) in
        (
          record {
            free = rest;
            chain = subst (λ y. Chain p.links (get_or p.links y none) rest) same c.2;
            long = v.long;
            partition = λ y. ground (arith, part y, same);
          },
          ground (arith, part b, same),
          ground (arith, part b, same),
        )

held-absent :
    (n : ℕ) (p : Pool) (held : List ℕ) (b : ℕ) (v : Owned n p held)
    → 0 < count b held
    → (count b v.free ≡ 0) × (b < n)
held-absent n p held b v h = (ground (arith, v.partition b, h), ground (arith, v.partition b, h))

wrote-Owned :
    (n : ℕ) (p : Pool) (held : List ℕ) (b : ℕ) (word : Option ℕ)
    → Owned n p held
    → 0 < count b held
    → Owned n (scribble b word p) held
unfolding scribble
wrote-Owned n p held b word v h = record {
  free = v.free;
  chain = Chain-set p.links p.free_head v.free b word (held-absent n p held b v h).0 v.chain;
  long = length-set p.links b word ∙ v.long;
  partition = v.partition;
}

gave-Owned :
    (n : ℕ) (p : Pool) (held : List ℕ) (b : ℕ)
    → Owned n p held
    → 0 < count b held
    → Owned n (deallocate (some b) p) (remove b held)
unfolding deallocate
gave-Owned n p held b v h =
    let (absent, below) = held-absent n p held b v h in
    let inside : b < length p.links = omega (arith, v.long, below) in
    let long = length-set p.links b p.free_head in
    record {
      free = b ∷ v.free;
      chain = (
        refl,
        omega (arith, long, inside),
        rw (get_or-set_self p.links b p.free_head none inside)
            (Chain-set p.links p.free_head v.free b p.free_head absent v.chain),
      );
      long = long ∙ v.long;
      partition = λ x. omega (arith, v.partition x, count-remove b x held h);
    }

take_block-some :
    (head : Option ℕ) (p : Pool) (b : ℕ)
    → (take_block head p).1 ≡ some b
    → (head ≡ some b) × ((take_block head p).0 ≡ record p { free_head = get_or p.links b none })
take_block-some none p b e = absurd (ground (arith, e))
take_block-some (some c) p b e =
    let same : c ≡ b = ground (arith, e) in
    (ap some same, ap (λ (x : ℕ). record p { free_head = get_or p.links x none }) same)

Reach-Owned :
    (block_size n : ℕ) (p : Pool) (held : List ℕ)
    → Fits block_size n
    → Reach block_size n p held
    → Owned n p held
unfolding allocate
Reach-Owned block_size n _ _ fits made = new_pool-Owned block_size n fits
Reach-Owned block_size n _ _ fits (took {p} {held} {b} r e) =
    let (head, after) = take_block-some p.free_head p b e in
    subst (λ q. Owned n q (b ∷ held)) (sym after)
      (took-Owned n p held b (Reach-Owned block_size n p held fits r) head).0
Reach-Owned block_size n _ _ fits (wrote {p} {held} b word r h) =
    wrote-Owned n p held b word (Reach-Owned block_size n p held fits r) h
Reach-Owned block_size n _ _ fits (gave {p} {held} b r h) =
    gave-Owned n p held b (Reach-Owned block_size n p held fits r) h

build-storage : (left : ℕ) (p : Pool) → (build left p).storage_bytes ≡ p.storage_bytes
unfolding build
build-storage zero p = refl
build-storage (suc i) p = build-storage i _

take_block-storage :
    (head : Option ℕ) (p : Pool) → (take_block head p).0.storage_bytes ≡ p.storage_bytes
take_block-storage none p = refl
take_block-storage (some b) p = refl

-- The storage has room for all the blocks.
Reach-storage :
    (block_size n : ℕ) (p : Pool) (held : List ℕ)
    → Fits block_size n
    → Reach block_size n p held
    → p.storage_bytes ≡ stride_of block_size * n
unfolding new_pool allocate scribble deallocate
Reach-storage block_size n _ _ fits made =
    let whole : stride_of block_size * n % 2 ^ 64 ≡ stride_of block_size * n =
      mod-eq_of_lt fits.1 in
    rw (whole, ne→==_false (stride_of block_size * n) 0 (omega (arith, fits.0))) (build-storage n _)
Reach-storage block_size n _ _ fits (took {p} {held} {b} r e) =
    take_block-storage p.free_head p ∙ Reach-storage block_size n p held fits r
Reach-storage block_size n _ _ fits (wrote {p} {held} b word r h) =
    Reach-storage block_size n p held fits r
Reach-storage block_size n _ _ fits (gave {p} {held} b r h) =
    Reach-storage block_size n p held fits r

-- What `allocate` may return while `held` is out: a block of the pool that nobody holds, or nothing if
-- every block is held.
abbrev pub Allocated : ℕ → List ℕ → Option ℕ → Type 0
Allocated n held none = (b : ℕ) → b < n → count b held ≡ 1
Allocated n held (some b) = (b < n) × (count b held ≡ 0)

-- The block, if there is one, ends inside the storage.
abbrev pub Inside : ℕ → ℕ → Option ℕ → Type 0
Inside bytes stride none = Unit
Inside bytes stride (some b) = stride * b + stride ≤ bytes

Allocated-Inside :
    (bytes stride n : ℕ) (held : List ℕ) (o : Option ℕ)
    → bytes ≡ stride * n
    → Allocated n held o
    → Inside bytes stride o
Allocated-Inside bytes stride n held none e v = tt
Allocated-Inside bytes stride n held (some b) e v =
    let below : stride * suc b ≤ stride * n = mul-le-mul_left stride (omega (arith, v.0)) in
    omega (arith, below, e, mul-suc stride b)

-- Of a pool that is not empty, whose storage was allocated and whose size in bytes does not wrap, a block is
-- never handed out while it is held, whatever its holder writes to it; it ends inside the storage; and
-- `allocate` fails only when all blocks are held.
pub allocate-Allocated :
    (block_size n : ℕ) (p : Pool) (held : List ℕ)
    → Fits block_size n
    → Reach block_size n p held
    → Allocated n held (allocate p).1 × Inside p.storage_bytes (stride_of block_size) (allocate p).1
unfolding allocate
allocate-Allocated block_size n p held fits r =
    let v = Reach-Owned block_size n p held fits r in
    let out = go v p.free_head refl in
    (
      out,
      Allocated-Inside p.storage_bytes (stride_of block_size) n held _
          (Reach-storage block_size n p held fits r) out,
    )
  where
    all_held :
        (free : List ℕ)
        → Chain p.links p.free_head free
        → p.free_head ≡ none
        → ((x : ℕ) → count x free + count x held ≡ (if ltb x n then 1 else 0))
        → (b : ℕ) → b < n
        → count b held ≡ 1
    all_held [] c e part b lt = ground (arith, part b, lt)
    all_held (x ∷ xs) c e part b lt = absurd (ground (arith, c.0, e))

    go :
        Owned n p held
        → (head : Option ℕ) → p.free_head ≡ head
        → Allocated n held (take_block head p).1
    go v none e = all_held v.free v.chain e v.partition
    go v (some b) e = let (_, below, absent) = took-Owned n p held b v e in (below, absent)
