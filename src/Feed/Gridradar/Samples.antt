-- ===== src/Feed/Gridradar/Samples.antt =====
-- include/feed/gridradar.hpp: the samples that a response emits.
use jisa.Prelude.{
  ℕ, ◌+◌, ◌%◌, ◌^◌, ◌≡◌, refl, ap, ◌∙◌, subst, inl, inr, ◌&&◌, Option, none, some, List, [], ◌∷◌,
  ◌++◌, arith, if◌then◌else◌, Bool-cases, need-cases,
}
use jisa.Prelude.Int.{ℤ, ◌-ℤ◌, ◌<ℤ◌, ltb_ℤ, leb_ℤ, IsInt64, of_u64-to_u64}
use jisa.Double.{Double}
use jisa.Core.Message.{Message}
use jisa.Feed.Json.{Json, string_at, double_at, array_at}
use jisa.Feed.Gridradar.Time.{parse_rfc3339_ns}
use jisa.Feed.Gridradar.{
  sub_i64, Handler, TimeGap, Response, cadence_ns, nothing, emit_sample, take_sample, sample_step,
  sample_loop, parse_response, data_key, ts_key, value_key,
}

abbrev pub Later : Option ℤ → ℤ → Type 0
Later none ts_ns = Unit
Later (some last) ts_ns = last <ℤ ts_ns

-- The gap that a sample shows, on the machine's integers.
abbrev gap_seen : Handler → Option ℤ → ℤ → List TimeGap
gap_seen h none ts_ns = []
gap_seen h (some last) ts_ns =
    if h.on_gap && ltb_ℤ cadence_ns (sub_i64 ts_ns last)
    then record { stream_id = h.stream_id; from = last; to = ts_ns } ∷ []
    else []

-- The gap that a sample is, more than a second after the one before it.
abbrev pub gap_at : Handler → Option ℤ → ℤ → List TimeGap
gap_at h none ts_ns = []
gap_at h (some last) ts_ns =
    if h.on_gap && ltb_ℤ cadence_ns (ts_ns -ℤ last)
    then record { stream_id = h.stream_id; from = last; to = ts_ns } ∷ []
    else []

-- The handler after message `m`.
abbrev pub after : Handler → Message → Handler
after h m = record h { seq = m.seq; last = some m.ts_ns }

-- Messages that follow the handler's state: its stream, the next sequence number, a later time.
abbrev pub Follows : Handler → List Message → Type 0
Follows h [] = Unit
Follows h (m ∷ ms) =
    (m.stream_id ≡ h.stream_id)
    × (m.seq ≡ (h.seq + 1) % 2 ^ 64)
    × Later h.last m.ts_ns
    × Follows (after h m) ms

abbrev pub gaps_of : Handler → List Message → List TimeGap
gaps_of h [] = []
gaps_of h (m ∷ ms) = gap_at h h.last m.ts_ns ++ gaps_of (after h m) ms

abbrev gaps_seen : Handler → List Message → List TimeGap
gaps_seen h [] = []
gaps_seen h (m ∷ ms) = gap_seen h h.last m.ts_ns ++ gaps_seen (after h m) ms

-- Successive times whose difference fits `int64_t`.
abbrev pub NearTo : Option ℤ → ℤ → Type 0
NearTo none ts_ns = Unit
NearTo (some last) ts_ns = IsInt64 (ts_ns -ℤ last)

abbrev pub Near : Option ℤ → List Message → Type 0
Near last [] = Unit
Near last (m ∷ ms) = NearTo last m.ts_ns × Near (some m.ts_ns) ms

gap_seen-near :
    (h : Handler) (last : Option ℤ) (ts_ns : ℤ)
    → NearTo last ts_ns
    → gap_seen h last ts_ns ≡ gap_at h last ts_ns
gap_seen-near h none ts_ns v = refl
gap_seen-near h (some last) ts_ns v = rw (of_u64-to_u64 (ts_ns -ℤ last) v) refl

gaps_seen-Near : (h : Handler) (ms : List Message) → Near h.last ms → gaps_seen h ms ≡ gaps_of h ms
gaps_seen-Near h [] v = refl
gaps_seen-Near h (m ∷ ms) v =
    rw (gap_seen-near h h.last m.ts_ns v.0, gaps_seen-Near (after h m) ms v.1) refl

abbrev pub after_all : Handler → List Message → Handler
after_all h [] = h
after_all h (m ∷ ms) = after_all (after h m) ms

record Seen (h : Handler) (r : Response) : Type 0 where
  follows : Follows h r.emitted
  reported : r.gaps ≡ gaps_seen h r.emitted
  ended : r.state ≡ after_all h r.emitted

pub record Answered (h : Handler) (r : Response) : Type 0 where
  pub follows : Follows h r.emitted
  pub reported : r.gaps ≡ gaps_of h r.emitted
  pub ended : r.state ≡ after_all h r.emitted

data Sampled (h : Handler) : Response → Type 0 where
  dropped : Sampled h (nothing h)
  kept :
      (ts_ns : ℤ) (value : Double)
      → Later h.last ts_ns
      → Sampled h (emit_sample ts_ns value (gap_seen h h.last ts_ns) h)

abbrev and_then : Response → Response → Response
and_then one rest = record rest {
  emitted = one.emitted ++ rest.emitted;
  gaps = one.gaps ++ rest.gaps;
}

and_then-Seen :
    (h : Handler) (one rest : Response)
    → Sampled h one
    → Seen one.state rest
    → Seen h (and_then one rest)
and_then-Seen h _ rest dropped v = record {
  follows = v.follows;
  reported = v.reported;
  ended = v.ended;
}
and_then-Seen h _ rest (kept ts_ns value later) v = record {
  follows = (refl, refl, later, v.follows);
  reported = ap (λ gs. gap_seen h h.last ts_ns ++ gs) v.reported;
  ended = v.ended;
}

take_sample-Sampled :
    (last : Option ℤ) (ts_ns : ℤ) (value : Double) (h : Handler)
    → h.last ≡ last
    → Sampled h (take_sample last ts_ns value h)
take_sample-Sampled none ts_ns value h e =
    subst (λ gs. Sampled h (emit_sample ts_ns value gs h)) (ap (λ l. gap_seen h l ts_ns) e)
      (kept ts_ns value (rw e tt))
take_sample-Sampled (some last) ts_ns value h e = elim (Bool-cases (leb_ℤ ts_ns last)) [
  | inl stale ↦ rw stale dropped
  | inr new ↦ rw new (
      subst (λ gs. Sampled h (emit_sample ts_ns value gs h)) (ap (λ l. gap_seen h l ts_ns) e)
        (kept ts_ns value (rw e (ground arith))))
]

module _ (json : Json) where
  open json use {Elem}

  sample_step-Sampled : (sample : Elem) (h : Handler) → Sampled h (sample_step json sample h)
  unfolding sample_step
  sample_step-Sampled sample h =
      need-cases (Sampled h) (string_at json sample ts_key) _ _ dropped (λ ts_sv _.
        need-cases (Sampled h) (double_at json sample value_key) _ _ dropped (λ value _.
          need-cases (Sampled h) (parse_rfc3339_ns ts_sv) _ _ dropped
            (λ ts_ns _. take_sample-Sampled h.last ts_ns value h refl)))

  nothing-Seen : (h : Handler) → Seen h (nothing h)
  nothing-Seen h = record { follows = tt; reported = refl; ended = refl }

  sample_loop-Seen : (samples : List Elem) (h : Handler) → Seen h (sample_loop json samples h)
  unfolding sample_loop
  sample_loop-Seen [] h = nothing-Seen h
  sample_loop-Seen (sample ∷ samples) h =
      and_then-Seen h _ _ (sample_step-Sampled sample h)
        (sample_loop-Seen samples (sample_step json sample h).state)

  parse_response-Seen : (raw : List ℕ) (h : Handler) → Seen h (parse_response json raw h)
  unfolding parse_response
  parse_response-Seen raw h = need-cases (Seen h) (json.parse raw) _ _ (nothing-Seen h) (λ doc _.
      need-cases (Seen h) (array_at json doc data_key) _ _ (nothing-Seen h)
        (λ samples _. sample_loop-Seen samples h))

  -- Whatever a poll returns, if the times of successive samples emitted differ by less than 2 ^ 63
  -- nanoseconds, the samples it emits go to the handler's stream with the next sequence
  -- numbers, each later than the one before it and than the last of earlier polls; the gaps that
  -- are reported are those between successive samples more than one second apart, if a callback
  -- is set; and the handler remembers the last sample.
  pub parse_response-Answered :
      (raw : List ℕ) (h : Handler)
      → Near h.last (parse_response json raw h).emitted
      → Answered h (parse_response json raw h)
  parse_response-Answered raw h near =
      let v = parse_response-Seen raw h in
      record {
        follows = v.follows;
        reported = v.reported ∙ gaps_seen-Near h (parse_response json raw h).emitted near;
        ended = v.ended;
      }
