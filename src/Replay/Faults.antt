-- ===== src/Replay/Faults.antt =====
-- include/replay/fault_injector.hpp: the faults that FaultInjector puts into the messages it read. The
-- arithmetic of doubles is a parameter.
pub mod LabelLines
mod Places
pub mod Untouched
pub mod Labels
pub mod Files
mod Examples
use jisa.Prelude.{
  ℕ, zero, suc, ◌+◌, ◌-◌, ◌*◌, ◌/◌, ◌%◌, ◌^◌, Bool, true, false, ◌||◌, List, [], ◌∷◌, ◌++◌, map,
  leb, ◌==◌, if◌then◌else◌, length, get_or, set, replicate,
}
use jisa.Prelude.Int.{ℤ, pos}
use jisa.Double.{Double, Arith, zero_d}
use jisa.Prelude.Bits.{bit_xor}
use jisa.Core.Message.{Message}

pub data FaultType : Type 0 where
  spike drift stuck_at_value dropout : FaultType

abbrev pub auto_onset : ℕ
auto_onset = 2 ^ 64 - 1

pub record FaultSpec : Type 0 where
  pub type : FaultType
  pub stream_id : ℕ
  pub onset_index : ℕ
  pub duration : ℕ
  pub magnitude : Double

pub record FaultLabel : Type 0 where
  pub stream_id : ℕ
  pub type : FaultType
  pub t_start_ns : ℤ
  pub t_end_ns : ℤ

-- The messages as they are so far, which of them are dropped, the labels, and the generator's state.
pub record Injection : Type 0 where
  pub msgs : List Message
  pub dropped : List Bool
  pub labels : List FaultLabel
  pub rng_state : ℕ

-- SplitMix64
unfoldable pub next_rand : ℕ → ℕ × ℕ
next_rand rng_state =
    let s = (rng_state + 0x9E37_79B9_7F4A_7C15) % 2 ^ 64 in
    let a = bit_xor s (s / 2 ^ 30) * 0xBF58_476D_1CE4_E5B9 % 2 ^ 64 in
    let b = bit_xor a (a / 2 ^ 27) * 0x94D0_49BB_1331_11EB % 2 ^ 64 in (s, bit_xor b (b / 2 ^ 31))

abbrev pub no_message : Message
no_message = record { stream_id = 0; ts_ns = pos 0; value = zero_d; seq = 0 }

-- The indices, from `i` on, of a stream's messages.
unfoldable pub indices_of : ℕ → ℕ → List Message → List ℕ
indices_of stream_id i [] = []
indices_of stream_id i (m ∷ ms) =
    let rest = indices_of stream_id (i + 1) ms in
    if m.stream_id == stream_id then i ∷ rest else rest

unfoldable pub choose_onset : FaultSpec → ℕ → ℕ → ℕ × ℕ
unfolding next_rand
choose_onset spec n rng_state =
    let (s, r) = next_rand rng_state in
    let max_onset = if leb spec.duration n then n - spec.duration else 0 in
    if spec.onset_index == auto_onset
    then (s, r % (max_onset + 1))
    else (rng_state, spec.onset_index)

-- The last index of the fault: the sum wraps, and is cut to the stream's messages.
unfoldable pub last_of : FaultSpec → ℕ → ℕ → ℕ
last_of spec n onset =
    let last = (onset + spec.duration + 2 ^ 64 - 1) % 2 ^ 64 in if leb n last then n - 1 else last

module _ (fp : Arith) where
  open fp use {add, mul, div, of_int}

  abbrev pub set_value : ℕ → Double → Injection → Injection
  set_value g value st = record st {
    msgs = set st.msgs g (record (get_or st.msgs g no_message) { value = value });
  }

  -- One round of the loop over a fault's messages, `k` rounds after the onset.
  unfoldable pub apply_fault :
      FaultType → FaultSpec → List Double → Double → ℕ → ℕ → Injection → Injection
  apply_fault spike spec orig_value frozen g k st =
      set_value g (add (get_or orig_value g zero_d) spec.magnitude) st
  apply_fault drift spec orig_value frozen g k st =
      let frac = div (of_int (pos (k + 1))) (of_int (pos spec.duration)) in
      set_value g (add (get_or orig_value g zero_d) (mul spec.magnitude frac)) st
  apply_fault stuck_at_value spec orig_value frozen g k st = set_value g frozen st
  apply_fault dropout spec orig_value frozen g k st = record st { dropped = set st.dropped g true }

  -- The loop, with `left` rounds to go.
  unfoldable pub fault_loop :
      FaultSpec → List Double → List ℕ → Double → ℕ → ℕ → ℕ → Injection → Injection
  fault_loop spec orig_value idx frozen onset zero j st = st
  fault_loop spec orig_value idx frozen onset (suc left) j st =
      fault_loop spec orig_value idx frozen onset left (j + 1)
        (apply_fault spec.type spec orig_value frozen (get_or idx j 0) (j - onset) st)

  -- What follows the choice of the onset.
  unfoldable pub inject_at : FaultSpec → List Double → List ℕ → ℕ → Injection → Injection
  unfolding last_of
  inject_at spec orig_value idx onset st =
      let last = last_of spec (length idx) onset in
      let onset_global = get_or idx onset 0 in
      let last_global = get_or idx last 0 in
      let label : FaultLabel = record {
        stream_id = spec.stream_id;
        type = spec.type;
        t_start_ns = (get_or st.msgs onset_global no_message).ts_ns;
        t_end_ns = (get_or st.msgs last_global no_message).ts_ns;
      } in
      fault_loop spec orig_value idx (get_or orig_value onset_global zero_d) onset
        (last + 1 - onset) onset (record st { labels = st.labels ++ (label ∷ []) })

  unfoldable pub inject_spec : FaultSpec → List Double → Injection → Injection
  unfolding indices_of choose_onset inject_at
  inject_spec spec orig_value st =
      let idx = indices_of spec.stream_id 0 st.msgs in
      let (rng_state, onset) = choose_onset spec (length idx) st.rng_state in
      let drawn = record st { rng_state = rng_state } in
      let done = inject_at spec orig_value idx onset drawn in
      if length idx == 0 || spec.duration == 0
      then st
      else if leb (length idx) onset
      then drawn
      else done

  unfoldable pub inject_specs : List FaultSpec → List Double → Injection → Injection
  inject_specs [] orig_value st = st
  inject_specs (spec ∷ specs) orig_value st =
      inject_specs specs orig_value (inject_spec spec orig_value st)

  -- From the messages that were read to those that are kept and the labels.
  unfoldable pub inject : List Message → List FaultSpec → ℕ → Injection
  inject msgs specs rng_state = inject_specs specs (map (λ m. m.value) msgs) (record {
    msgs = msgs;
    dropped = replicate (length msgs) false;
    labels = [];
    rng_state = rng_state;
  })

-- The messages that are written.
unfoldable pub kept : List Message → List Bool → List Message
kept [] ds = []
kept (m ∷ ms) [] = m ∷ kept ms []
kept (m ∷ ms) (d ∷ ds) = let rest = kept ms ds in if d then rest else m ∷ rest
