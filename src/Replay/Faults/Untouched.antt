-- ===== src/Replay/Faults/Untouched.antt =====
-- include/replay/fault_injector.hpp: what fault injection leaves alone.
use jisa.Replay.Faults.Places.{indices_of-stream}
use jisa.Prelude.{
  ℕ, zero, suc, ◌+◌, ◌-◌, ◌≤◌, ◌<◌, ◌≡◌, refl, sym, ap, subst, ◌∙◌, ◌≢◌, inl, inr, Bool, true,
  false, ◌||◌, List, [], ◌∷◌, arith, leb, ◌==◌, if◌then◌else◌, Bool-cases, ==_iff, length, get_or,
  set, replicate, All, length-set, length-replicate, get_or-set_self, get_or-set_ne,
}
use jisa.Double.{Double, Arith}
use jisa.Core.Message.{Message}
use jisa.Replay.Faults.{
  FaultType, spike, drift, stuck_at_value, dropout, FaultSpec, Injection, no_message, indices_of,
  choose_onset, last_of, set_value, apply_fault, fault_loop, inject_at, inject_spec, inject_specs,
  inject,
}

-- Two messages that differ in their value at most.
pub record SameSample (a b : Message) : Type 0 where
  pub stream_id : a.stream_id ≡ b.stream_id
  pub ts_ns : a.ts_ns ≡ b.ts_ns
  pub seq : a.seq ≡ b.seq

SameSample-refl : (a : Message) → SameSample a a
SameSample-refl a = record { stream_id = refl; ts_ns = refl; seq = refl }

-- Beside the original messages: each is still the same sample, and those of stream `s` are as they
-- were and are not dropped.
pub record Untouched (s : ℕ) (original : List Message) (st : Injection) : Type 0 where
  pub long : length st.msgs ≡ length original
  pub flags : length st.dropped ≡ length original
  pub samples :
      (i : ℕ)
      → i < length original
      → SameSample (get_or st.msgs i no_message) (get_or original i no_message)
  pub others :
      (i : ℕ)
      → i < length original
      → (get_or original i no_message).stream_id ≡ s
      → (get_or st.msgs i no_message ≡ get_or original i no_message)
        × (get_or st.dropped i false ≡ false)

module _ (s : ℕ) (original : List Message) (g : ℕ) (st : Injection) where
  -- A place that is another stream's, or none.
  abbrev Foreign : Type 0
  Foreign = g < length original → (get_or original g no_message).stream_id ≢ s

  set_value-Untouched :
      (value : Double) (fp : Arith)
      → Foreign
      → Untouched s original st
      → Untouched s original (set_value fp g value st)
  set_value-Untouched value fp foreign v =
      let new = record (get_or st.msgs g no_message) { value = value } in
      record {
        long = length-set st.msgs g new ∙ v.long;
        flags = v.flags;
        samples = λ i lt. elim (Bool-cases (g == i)) [
          | inl e ↦
              let same : g ≡ i = (==_iff g i).0 e in
              subst
                (λ k.
                  SameSample (get_or (set st.msgs g new) k no_message)
                    (get_or original k no_message))
                same
                (rw (get_or-set_self st.msgs g new no_message (omega (arith, v.long, same, lt)))
                  (kept_sample (v.samples g (omega (arith, same, lt)))))
          | inr e ↦
              rw (get_or-set_ne st.msgs g i new no_message (ground (arith, e))) (v.samples i lt)
        ];
        others = λ i lt mine.
            rw
              (get_or-set_ne st.msgs g i new no_message (λ same.
                foreign (omega (arith, same, lt))
                  (ap (λ k. (get_or original k no_message).stream_id) same ∙ mine)))
              (v.others i lt mine);
      }
    where
      kept_sample :
          SameSample (get_or st.msgs g no_message) (get_or original g no_message)
          → SameSample
              (record (get_or st.msgs g no_message) { value = value })
              (get_or original g no_message)
      kept_sample a = record { stream_id = a.stream_id; ts_ns = a.ts_ns; seq = a.seq }

  drop-Untouched :
      Foreign
      → Untouched s original st
      → Untouched s original (record st { dropped = set st.dropped g true })
  drop-Untouched foreign v = record {
    long = v.long;
    flags = length-set st.dropped g true ∙ v.flags;
    samples = v.samples;
    others = λ i lt mine. (
      (v.others i lt mine).0,
      get_or-set_ne st.dropped g i true false (λ same.
            foreign (omega (arith, same, lt))
              (ap (λ k. (get_or original k no_message).stream_id) same ∙ mine))
          ∙ (v.others i lt mine).1,
    );
  }

module _ (fp : Arith) (s : ℕ) (original : List Message) where
  apply_fault-Untouched :
      (type : FaultType) (spec : FaultSpec) (orig_value : List Double) (frozen : Double) (g k : ℕ)
      (st : Injection)
      → Foreign s original g st
      → Untouched s original st
      → Untouched s original (apply_fault fp type spec orig_value frozen g k st)
  unfolding apply_fault
  apply_fault-Untouched spike spec orig_value frozen g k st f v =
      set_value-Untouched s original g st _ fp f v
  apply_fault-Untouched drift spec orig_value frozen g k st f v =
      set_value-Untouched s original g st _ fp f v
  apply_fault-Untouched stuck_at_value spec orig_value frozen g k st f v =
      set_value-Untouched s original g st _ fp f v
  apply_fault-Untouched dropout spec orig_value frozen g k st f v =
      drop-Untouched s original g st f v

  abbrev AllForeign : List ℕ → Type 0
  AllForeign idx =
      (j : ℕ)
      → j < length idx
      → get_or idx j 0 < length original
      → (get_or original (get_or idx j 0) no_message).stream_id ≢ s

  fault_loop-Untouched :
      (spec : FaultSpec) (orig_value : List Double) (idx : List ℕ) (frozen : Double)
      (onset left j : ℕ) (st : Injection)
      → AllForeign idx
      → j + left ≤ length idx
      → Untouched s original st
      → Untouched s original (fault_loop fp spec orig_value idx frozen onset left j st)
  unfolding fault_loop
  fault_loop-Untouched spec orig_value idx frozen onset zero j st f le v = v
  fault_loop-Untouched spec orig_value idx frozen onset (suc left) j st f le v =
      fault_loop-Untouched spec orig_value idx frozen onset left (j + 1) _ f (omega (arith, le)) (
        apply_fault-Untouched spec.type spec orig_value frozen (get_or idx j 0) (j - onset) st
          (f j (omega (arith, le))) v)

  inject_at-Untouched :
      (spec : FaultSpec) (orig_value : List Double) (idx : List ℕ) (onset : ℕ) (st : Injection)
      → AllForeign idx
      → onset < length idx
      → Untouched s original st
      → Untouched s original (inject_at fp spec orig_value idx onset st)
  unfolding inject_at last_of
  inject_at-Untouched spec orig_value idx onset st f lt v =
      fault_loop-Untouched spec orig_value idx _ onset (last_of spec (length idx) onset + 1 - onset)
        onset _ f (omega (arith, last_of-lt spec (length idx) onset (omega (arith, lt)), lt))
        (record { long = v.long; flags = v.flags; samples = v.samples; others = v.others })
    where
      last_of-lt : (spec : FaultSpec) (n onset : ℕ) → 0 < n → last_of spec n onset < n
      last_of-lt spec n onset h = ground (arith, h)

  inject_spec-Untouched :
      (spec : FaultSpec) (orig_value : List Double) (st : Injection)
      → spec.stream_id ≢ s
      → Untouched s original st
      → Untouched s original (inject_spec fp spec orig_value st)
  unfolding inject_spec
  inject_spec-Untouched spec orig_value st ne v =
      cases (length idx == 0 || spec.duration == 0) (leb (length idx) onset) refl
    where
      idx : List ℕ
      idx = indices_of spec.stream_id 0 st.msgs

      drawing : ℕ × ℕ
      drawing = choose_onset spec (length idx) st.rng_state

      onset : ℕ
      onset = drawing.1

      drawn : Injection
      drawn = record st { rng_state = drawing.0 }

      drawn-Untouched : Untouched s original drawn
      drawn-Untouched = record {
        long = v.long;
        flags = v.flags;
        samples = v.samples;
        others = v.others;
      }

      foreign : AllForeign idx
      foreign j lt inside mine =
          let (_, stream) = indices_of-stream spec.stream_id 0 st.msgs j lt in
          let g = get_or idx j 0 in
          ne (
            sym stream
            ∙ ap (λ k. (get_or st.msgs k no_message).stream_id) {y = g} (omega arith)
            ∙ (v.samples g inside).stream_id
            ∙ mine)

      cases :
          (a b : Bool)
          → leb (length idx) onset ≡ b
          → Untouched s original
              (if a then st else if b then drawn else inject_at fp spec orig_value idx onset drawn)
      cases true b e = v
      cases false true e = drawn-Untouched
      cases false false e =
          inject_at-Untouched spec orig_value idx onset drawn foreign (ground (arith, e))
            drawn-Untouched

  inject_specs-Untouched :
      (specs : List FaultSpec) (orig_value : List Double) (st : Injection)
      → All (λ spec. spec.stream_id ≢ s) specs
      → Untouched s original st
      → Untouched s original (inject_specs fp specs orig_value st)
  unfolding inject_specs
  inject_specs-Untouched [] orig_value st ne v = v
  inject_specs-Untouched (spec ∷ specs) orig_value st ne v =
      inject_specs-Untouched specs orig_value _ ne.1
        (inject_spec-Untouched spec orig_value st ne.0 v)

get_or-replicate : (n i : ℕ) → get_or (replicate n false) i false ≡ false
get_or-replicate zero i = refl
get_or-replicate (suc n) zero = refl
get_or-replicate (suc n) (suc i) = get_or-replicate n i

-- Fault injection changes nothing but values: every message keeps its place, stream, timestamp and
-- sequence number, and the messages of a stream that no fault names are neither changed nor dropped.
pub inject-Untouched :
    (fp : Arith) (s : ℕ) (msgs : List Message) (specs : List FaultSpec) (rng_state : ℕ)
    → All (λ spec. spec.stream_id ≢ s) specs
    → Untouched s msgs (inject fp msgs specs rng_state)
unfolding inject
inject-Untouched fp s msgs specs rng_state ne =
    inject_specs-Untouched fp s msgs specs _ _ ne (record {
      long = refl;
      flags = length-replicate (length msgs) false;
      samples = λ i lt. SameSample-refl _;
      others = λ i lt mine. (refl, get_or-replicate (length msgs) i);
    })
