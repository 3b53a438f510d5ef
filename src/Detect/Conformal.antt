-- ===== src/Detect/Conformal.antt =====
-- include/detect/conformal.hpp: ConformalThreshold. The ring of each stream is modelled slot by slot;
-- `std::sort` is a sort by `<`, and `std::ceil` and the conversions are parameters. The scratch
-- buffer is overwritten before it is read, so it is no state.
pub mod Window
pub mod Quantile
pub mod Streams
use jisa.Prelude.{
  ℕ, zero, suc, ◌+◌, ◌-◌, ◌%◌, Bool, Option, none, some, List, [], ◌∷◌, ltb, ◌==◌, if◌then◌else◌,
  get_or, set, replicate,
}
use jisa.Prelude.Int.{ℤ, pos, negsuc}
use jisa.Prelude.Dict.{Dict, nat_key, bytes_key, find, put}
use jisa.Double.{Double, Arith, zero_d, one_d, infinity_d, lt_d}

pub record State : Type 0 where
  pub buf : List Double
  pub head : ℕ
  pub count : ℕ

pub record Conformal : Type 0 where
  pub capacity : ℕ
  pub state : Dict ℕ State

-- The state of a stream once its ring is allocated.
abbrev pub ready : ℕ → Option State → State
ready capacity none = record { buf = replicate capacity zero_d; head = 0; count = 0 }
ready capacity (some st) = st

-- The update of one stream's ring.
unfoldable pub append : ℕ → Double → State → State
append capacity score st =
    if capacity == 0
    then st
    else if ltb st.count capacity
    then record st {
      buf = set st.buf ((st.head + st.count) % capacity) score;
      count = st.count + 1;
    }
    else record st { buf = set st.buf st.head score; head = (st.head + 1) % capacity }

unfoldable pub update : ℕ → Double → Conformal → Conformal
update stream_id score c = record c {
  state =
      put stream_id (append c.capacity score (ready c.capacity (find stream_id c.state))) c.state;
}

-- The copy into the scratch buffer, from offset `i` with `left` rounds to go.
unfoldable pub window_from : ℕ → State → ℕ → ℕ → List Double
window_from capacity st zero i = []
window_from capacity st (suc left) i =
    get_or st.buf ((st.head + i) % capacity) zero_d ∷ window_from capacity st left (i + 1)

unfoldable pub window : ℕ → State → List Double
window capacity st = window_from capacity st st.count 0

-- `std::sort`
unfoldable pub insert : Double → List Double → List Double
insert x [] = x ∷ []
insert x (y ∷ ys) = if lt_d y x then y ∷ insert x ys else x ∷ y ∷ ys

unfoldable pub sort : List Double → List Double
sort [] = []
sort (x ∷ xs) = insert x (sort xs)

-- `idx` held between 0 and n - 1, for a positive n.
abbrev pub clamp_index : ℤ → ℕ → ℕ
clamp_index (negsuc _) n = 0
clamp_index (pos i) n = if ltb (n - 1) i then n - 1 else i

module _ (fp : Arith) where
  open fp use {sub, mul, ceil, of_int, to_int}

  unfoldable pub index_of : Double → ℕ → ℕ
  index_of alpha n =
      clamp_index (to_int (sub (ceil (mul (sub one_d alpha) (of_int (pos n)))) one_d)) n

  unfoldable pub threshold : ℕ → Double → Conformal → Double
  threshold stream_id alpha c = elim (find stream_id c.state) [
    | none ↦ infinity_d
    | some st ↦
        if st.count == 0
        then infinity_d
        else get_or (sort (window c.capacity st)) (index_of alpha st.count) zero_d
  ]

  unfoldable pub is_anomalous : ℕ → Double → Double → Conformal → Bool
  is_anomalous stream_id score alpha c = lt_d (threshold stream_id alpha c) score
