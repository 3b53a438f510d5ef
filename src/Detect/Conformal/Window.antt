-- ===== src/Detect/Conformal/Window.antt =====
-- include/detect/conformal.hpp: the ring of a stream holds its most recent scores, oldest first.
use jisa.Prelude.{
  ℕ, zero, suc, ◌+◌, ◌-◌, ◌%◌, ◌≤◌, ◌<◌, min, ◌≡◌, sym, ap, subst, ◌∙◌, none, List, [], ◌∷◌, ◌++◌,
  append-nil, append_assoc, arith, lt→ltb, le→ltb-false, ne→==_false, length, get_or, set, drop,
  length-append, length-set, length-replicate, get_or-set_self, get_or-set_ne, drop_all, drop_at,
  get_or-append_left, get_or-append_length,
}
use jisa.Double.{Double, zero_d}
use mathlib.Core.Path.{ap₂}
use native.Mathlib.Nat.{mod-lt, mod-eq_of_lt, mod-add-mod}
use native.Mathlib.Decide.{dec_lt}
use jisa.Core.Spsc.Counters.{position-ne}
use jisa.Detect.Conformal.{State, append, window_from, window, ready}

-- The ring after the scores of `all`: the latest `count` of them are in their slots.
pub record Holds (w : ℕ) (st : State) (all : List Double) : Type 0 where
  pub room : length st.buf ≡ w
  pub head_in : st.head < w
  pub few : st.count ≤ w
  pub slots :
      (i : ℕ)
      → i < st.count
      → get_or st.buf ((st.head + i) % w) zero_d ≡ get_or all (length all - st.count + i) zero_d
  pub counted : st.count ≡ min (length all) w

add-mod-suc : (h i w : ℕ) → ((h + 1) % w + i) % w ≡ (h + suc i) % w
add-mod-suc h i w = rw mod-add-mod (ap (λ k. k % w) (omega arith))

wrap_around : (h w : ℕ) → h < w → (h + w) % w ≡ h
wrap_around h w lt = grind arith

module _ (w : ℕ) (x : Double) (st : State) (all : List Double) (v : Holds w st all) where
  longer : length (all ++ (x ∷ [])) ≡ length all + 1
  longer = length-append all (x ∷ [])

  -- An older score, seen from the longer history.
  older : (i : ℕ) → i < length all → get_or (all ++ (x ∷ [])) i zero_d ≡ get_or all i zero_d
  older i lt = get_or-append_left all (x ∷ []) i zero_d lt

  newest : (i : ℕ) → i ≡ length all → get_or (all ++ (x ∷ [])) i zero_d ≡ x
  newest i e = rw e (get_or-append_length all x [] zero_d)

  abbrev grown : State
  grown = record st { buf = set st.buf ((st.head + st.count) % w) x; count = st.count + 1 }

  abbrev turned : State
  turned = record st { buf = set st.buf st.head x; head = (st.head + 1) % w }

  grown-Holds : 0 < w → st.count < w → Holds w grown (all ++ (x ∷ []))
  grown-Holds pos_w lt = record {
    room = length-set st.buf _ x ∙ v.room;
    head_in = v.head_in;
    few = omega arith;
    slots = λ i p. elim (dec_lt i st.count) [
      | yes old ↦
          get_or-set_ne st.buf ((st.head + st.count) % w) ((st.head + i) % w) x zero_d (λ e.
            position-ne w (st.head + i) (st.head + st.count) (omega arith) (omega arith) (sym e))
          ∙ v.slots i old
          ∙ sym (older _ (omega (arith, v.counted)))
          ∙ ap (λ n. get_or (all ++ (x ∷ [])) n zero_d) (omega (arith, longer, v.counted))
      | no new ↦
          let here : i ≡ st.count = omega arith in
          rw here (
            get_or-set_self st.buf ((st.head + st.count) % w) x zero_d
              (omega (arith, v.room, mod-lt (st.head + st.count) pos_w))
            ∙ sym (newest _ (omega (arith, longer, v.counted))))
    ];
    counted = omega (arith, longer, v.counted);
  }

  turned-Holds : 0 < w → st.count ≡ w → Holds w turned (all ++ (x ∷ []))
  turned-Holds pos_w full = record {
    room = length-set st.buf _ x ∙ v.room;
    head_in = mod-lt (st.head + 1) pos_w;
    few = v.few;
    slots = λ i p. rw (add-mod-suc st.head i w) (elim (dec_lt (suc i) w) [
      | yes old ↦
          get_or-set_ne st.buf st.head ((st.head + suc i) % w) x zero_d (λ e.
            position-ne w st.head (st.head + suc i) (omega arith) (omega arith)
              (mod-eq_of_lt v.head_in ∙ e))
          ∙ v.slots (suc i) (omega arith)
          ∙ sym (older _ (omega (arith, v.counted)))
          ∙ ap (λ n. get_or (all ++ (x ∷ [])) n zero_d) (omega (arith, longer, v.counted))
      | no new ↦
          let here : suc i ≡ w = omega arith in
          rw (here, wrap_around st.head w v.head_in)
            (get_or-set_self st.buf st.head x zero_d (omega (arith, v.room, v.head_in))
              ∙ sym (newest _ (omega (arith, longer, v.counted))))
    ]);
    counted = omega (arith, longer, v.counted);
  }

  -- A score that is added is the newest of the window; the oldest goes if the window was full.
  pub append-Holds : Holds w (append w x st) (all ++ (x ∷ []))
  unfolding append
  append-Holds = elim (dec_lt st.count w) [
    | yes lt ↦
        rw (ne→==_false w 0 (omega arith), lt→ltb st.count w lt) (grown-Holds (omega arith) lt)
    | no full ↦
        rw (ne→==_false w 0 (omega (arith, v.head_in)), le→ltb-false st.count w (omega arith))
          (turned-Holds (omega (arith, v.head_in)) (omega (arith, v.few)))
  ]

module _ (w : ℕ) (st : State) (all : List Double) (v : Holds w st all) where
  window_from-drop :
      (left i : ℕ) → i + left ≡ st.count → window_from w st left i ≡ drop (length all - left) all
  unfolding window_from
  window_from-drop zero i e = sym (drop_all (length all - 0) all (omega arith))
  window_from-drop (suc left) i e =
      ap₂ ◌∷◌ (v.slots i (omega arith) ∙ ap (λ n. get_or all n zero_d) (omega (arith, v.counted))) (
        window_from-drop left (i + 1) (omega arith)
        ∙ ap (λ n. drop n all) {y = suc (length all - suc left)} (omega (arith, v.counted)))
      ∙ sym (drop_at (length all - suc left) all zero_d (omega (arith, v.counted)))

  window-drop : window w st ≡ drop (length all - st.count) all
  unfolding window
  window-drop = window_from-drop st.count 0 (omega arith)

-- The scores of a stream, added one after the other.
unfoldable pub append_all : ℕ → List Double → State → State
append_all w [] st = st
append_all w (x ∷ xs) st = append_all w xs (append w x st)

append_all-Holds :
    (w : ℕ) (xs all : List Double) (st : State)
    → Holds w st all
    → Holds w (append_all w xs st) (all ++ xs)
unfolding append_all
append_all-Holds w [] all st v = rw (append-nil all) v
append_all-Holds w (x ∷ xs) all st v =
    subst (Holds w (append_all w xs (append w x st))) (append_assoc all (x ∷ []) xs)
      (append_all-Holds w xs (all ++ (x ∷ [])) (append w x st) (append-Holds w x st all v))

ready-Holds : (w : ℕ) → 0 < w → Holds w (ready w none) []
ready-Holds w h = record {
  room = length-replicate w zero_d;
  head_in = h;
  few = omega arith;
  slots = λ i p. absurd (omega arith);
  counted = omega arith;
}

-- After any number of scores the window of a stream holds exactly the most recent ones, oldest
-- first: all of them while they fit the capacity, and the last `w` of them from then on.
pub window-append_all :
    (w : ℕ) (xs : List Double)
    → 0 < w
    → window w (append_all w xs (ready w none)) ≡ drop (length xs - w) xs
window-append_all w xs h =
    let v = append_all-Holds w xs [] (ready w none) (ready-Holds w h) in
    window-drop w _ xs v ∙ ap (λ n. drop n xs) (omega (arith, v.counted))
