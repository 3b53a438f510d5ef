-- ===== src/Core/Pool/FreeList.antt =====
-- include/core/pool_allocator.hpp: the free list and the loop that builds it.
use jisa.Prelude.{
  ℕ, zero, suc, ◌+◌, ◌<◌, ◌≡◌, refl, subst, ◌≢◌, ◌&&◌, Option, none, some, List, [], ◌∷◌, arith,
  ltb, leb, ◌==◌, if◌then◌else◌, length, get_or, set, length-set, get_or-set_self, get_or-set_ne,
}
use jisa.Core.Pool.{Pool, build}

-- How often a block is in a list.
abbrev pub count : ℕ → List ℕ → ℕ
count b [] = 0
count b (x ∷ xs) = (if x == b then 1 else 0) + count b xs

abbrev pub remove : ℕ → List ℕ → List ℕ
remove b [] = []
remove b (x ∷ xs) = if x == b then xs else x ∷ remove b xs

pub count-remove :
    (b x : ℕ) (xs : List ℕ)
    → 0 < count b xs
    → count x (remove b xs) + (if b == x then 1 else 0) ≡ count x xs
count-remove b x [] h = absurd (omega arith)
count-remove b x (y ∷ ys) h = ground (arith, count-remove b x ys)

-- The free list runs through the blocks of `free`, in order.
abbrev pub Chain : List (Option ℕ) → Option ℕ → List ℕ → Type 0
Chain links head [] = head ≡ none
Chain links head (b ∷ bs) =
    (head ≡ some b) × (b < length links) × Chain links (get_or links b none) bs

pub Chain-set :
    (links : List (Option ℕ)) (head : Option ℕ) (free : List ℕ) (b : ℕ) (w : Option ℕ)
    → count b free ≡ 0
    → Chain links head free
    → Chain (set links b w) head free
Chain-set links head [] b w h v = v
Chain-set links head (c ∷ cs) b w h v =
    let other : b ≢ c = ground (arith, h) in
    let long = length-set links b w in
    (
      v.0,
      omega (arith, long, v.1),
      rw (get_or-set_ne links b c w none other)
          (Chain-set links (get_or links c none) cs b w (omega (arith, h)) v.2),
    )

-- The blocks from `i` on.
abbrev pub up_from : ℕ → ℕ → List ℕ
up_from i zero = []
up_from i (suc m) = i ∷ up_from (i + 1) m

pub count-up_from :
    (b i m : ℕ) → count b (up_from i m) ≡ (if leb i b && ltb b (i + m) then 1 else 0)
count-up_from b i zero = ground arith
count-up_from b i (suc m) = ground (arith, count-up_from b (i + 1) m)

pub build-Chain :
    (left m : ℕ) (p : Pool)
    → left + m ≡ length p.links
    → Chain p.links p.free_head (up_from left m)
    → Chain (build left p).links (build left p).free_head (up_from 0 (left + m))
unfolding build
build-Chain zero m p e v =
    subst (λ n. Chain p.links p.free_head (up_from 0 n)) {x = m} (omega arith) v
build-Chain (suc i) m p e v =
    let p' : Pool = record p { links = set p.links i p.free_head; free_head = some i } in
    let absent : count i (up_from (suc i) m) ≡ 0 = ground (arith, count-up_from i (suc i) m) in
    let below : i < length p.links = omega (arith, e) in
    let long = length-set p.links i p.free_head in
    let next : Chain (set p.links i p.free_head) (get_or (set p.links i p.free_head) i none)
        (up_from (i + 1) m) =
      rw (get_or-set_self p.links i p.free_head none below) (
        subst (λ n. Chain (set p.links i p.free_head) p.free_head (up_from n m)) {x = suc i}
          (omega arith)
          (Chain-set p.links p.free_head (up_from (suc i) m) i p.free_head absent v)) in
    subst (λ n. Chain (build i p').links (build i p').free_head (up_from 0 n)) {x = i + suc m}
      (omega arith)
      (build-Chain i (suc m) p' (omega (arith, long, e)) (refl, omega (arith, long, below), next))
