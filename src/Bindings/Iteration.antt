-- ===== src/Bindings/Iteration.antt =====
-- src/bindings/bindings.cpp: a stream that Python records and reads back.
use jisa.Prelude.{
  ℕ, zero, suc, ◌≤◌, ◌<◌, ◌^◌, ◌≡◌, refl, ap, subst, ◌∙◌, inl, inr, true, Option, none, some, List,
  [], ◌∷◌, arith, length, take, false, ◌⊎◌, Option-cases, All,
}
use jisa.Prelude.Int.{ℤ, IsInt64}
use jisa.Double.{Double}
use jisa.Feed.Time.{◌>>=◌}
use jisa.Core.Message.{Message, IsMessage}
use jisa.Replay.Format.{header_size}
use jisa.Replay.Recorder.{Flush, Recorder, open_recorder, close, record_stream}
use jisa.Replay.Replayer.{Replayer, next, drain, replay, push_front, open_replayer}
use jisa.Replay.RoundTrip.{Replayed, replay-record_stream}
use jisa.Replay.Replayer.End.{next_stays}
use jisa.Bindings.{Casts, CastsInRange, new_message, stop_iteration, replayer_next, for_loop}

for_loop-drain : (fuel : ℕ) (r : Replayer) → for_loop fuel r ≡ drain fuel r
unfolding for_loop drain replayer_next
for_loop-drain zero r = refl
for_loop-drain (suc fuel) r = ground (arith, for_loop-drain fuel (next r).1)

new_message-IsMessage :
    {PyObject : Type 0} (casts : Casts PyObject)
    → CastsInRange casts
    → (a b c d : PyObject) (m : Message) → new_message casts (a, b, c, d) ≡ some m
    → IsMessage m
unfolding new_message
new_message-IsMessage casts fits a b c d m e =
    go (casts.to_u32 a) (casts.to_i64 b) (casts.to_double c) (casts.to_u64 d) (fits.u32 a)
      (fits.i64 b) (fits.double c) (fits.u64 d) e
  where
    go :
        (s : Option ℕ) (t : Option ℤ) (v : Option Double) (n : Option ℕ)
        → ((x : ℕ) → s ≡ some x → x < 2 ^ 32)
        → ((x : ℤ) → t ≡ some x → IsInt64 x)
        → ((x : Double) → v ≡ some x → x < 2 ^ 64)
        → ((x : ℕ) → n ≡ some x → x < 2 ^ 64)
        → (s >>= (λ s. t >>= (λ t. v >>= (λ v.
            n >>= (λ n. some (record { stream_id = s; ts_ns = t; value = v; seq = n }))))))
          ≡ some m
        → IsMessage m
    go none t v n p q w x e = cc
    go (some s) none v n p q w x e = cc
    go (some s) (some t) none n p q w x e = cc
    go (some s) (some t) (some v) none p q w x e = cc
    go (some s) (some t) (some v) (some n) p q w x e =
        let made : Message = record { stream_id = s; ts_ns = t; value = v; seq = n } in
        let same : made ≡ m = cc in
        let fit : IsMessage made = record {
          stream_id = p s refl;
          ts_ns = q t refl;
          value = w v refl;
          seq = x n refl;
        } in
        subst IsMessage same fit

replayer_next-end : (r : Replayer) → next r ≡ (none, r) → replayer_next r ≡ (stop_iteration, r)
unfolding replayer_next
replayer_next-end r e = rw e refl

for_loop-stop :
    (fuel : ℕ) (r : Replayer) → (next r).0 ≡ none → for_loop (suc fuel) r ≡ some ([], (next r).1)
unfolding for_loop replayer_next
for_loop-stop fuel r e = ground (arith, e)

for_loop-more :
    (fuel : ℕ) (r : Replayer) (m : Message)
    → (next r).0 ≡ some m
    → for_loop (suc fuel) r ≡ push_front m (for_loop fuel (next r).1)
unfolding for_loop replayer_next
for_loop-more fuel r m e = ground (arith, e)

for_loop-zero : (r : Replayer) → for_loop zero r ≡ none
unfolding for_loop
for_loop-zero r = refl

-- What a loop leaves behind stays at its end.
for_loop-ends :
    (fuel : ℕ) (r last : Replayer) (ms : List Message)
    → for_loop fuel r ≡ some (ms, last)
    → next last ≡ (none, last)
for_loop-ends zero r last ms e = cc (for_loop-zero r, e)
for_loop-ends (suc fuel) r last ms e = elim (Option-cases (next r).0) [
  | inl stop ↦
      let same : (next r).1 ≡ last = cc (for_loop-stop fuel r stop, e) in
      subst (λ x. next x ≡ (none, x)) same (next_stays r stop)
  | inr (m, more) ↦ elim (Option-cases (for_loop fuel (next r).1)) [
    | inl out ↦ cc (for_loop-more fuel r m more, ap (push_front m) out, e)
    | inr ((rest, end), run) ↦
        let same : end ≡ last = cc (for_loop-more fuel r m more, ap (push_front m) run, e) in
        for_loop-ends fuel (next r).1 last rest (run ∙ ap (λ x. some (rest, x)) same)
  ]
]

-- The arguments of a call of `Message` in Python.
abbrev pub Args : Type 0 → Type 0
Args PyObject = PyObject × PyObject × PyObject × PyObject

-- The messages that a program constructs, if no call raises TypeError, each beside what the stream
-- does in its write.
unfoldable pub construct :
    {PyObject : Type 0}
    → Casts PyObject
    → List (Flush × Args PyObject)
    → Option (List (Flush × Message))
construct casts [] = some []
construct casts ((io, args) ∷ rest) = do
  m ← new_message casts args
  ms ← construct casts rest
  some ((io, m) ∷ ms)

construct-IsMessage :
    {PyObject : Type 0} (casts : Casts PyObject)
    → CastsInRange casts
    → (calls : List (Flush × Args PyObject)) (ms : List (Flush × Message))
    → construct casts calls ≡ some ms
    → All (λ p. IsMessage p.1) ms
unfolding construct
construct-IsMessage casts fits [] ms e = subst (All (λ p. IsMessage p.1)) {x = []} (cc) tt
construct-IsMessage casts fits ((io, (a, b, c, d)) ∷ rest) ms e =
    elim (Option-cases (new_message casts (a, b, c, d))) [
      | inl bad ↦ absurd (failed bad)
      | inr (m, made) ↦ elim (Option-cases (construct casts rest)) [
        | inl bad ↦ absurd (rest_failed m made bad)
        | inr (more, built) ↦
            subst (All (λ p. IsMessage p.1)) {x = (io, m) ∷ more} (whole m more made built) (
              new_message-IsMessage casts fits a b c d m made,
              construct-IsMessage casts fits rest more built,
            )
      ]
    ]
  where
    failed : new_message casts (a, b, c, d) ≡ none → ⊥
    failed bad = ground (arith, bad, e)

    rest_failed :
        (m : Message) → new_message casts (a, b, c, d) ≡ some m → construct casts rest ≡ none → ⊥
    rest_failed m made bad = ground (arith, made, bad, e)

    whole :
        (m : Message) (more : List (Flush × Message))
        → new_message casts (a, b, c, d) ≡ some m
        → construct casts rest ≡ some more
        → (io, m) ∷ more ≡ ms
    whole m more made built = ground (arith, made, built, e)

-- What a loop over a replayer of the closed file comes to: the first of the messages whose `write` returned
-- True; all of them, unless the device refused bytes; and `__next__` has no more.
pub record Looped (kept : List Message) (last : Recorder) (room : ℕ) : Type 0 where
  pub number : ℕ
  pub replayer : Replayer
  pub loop :
      let bytes = (close room last).file.bytes in
      for_loop (suc (length bytes)) (open_replayer (some bytes)) ≡ some (take number kept, replayer)
  pub counted : replayer.messages_replayed ≡ number
  pub inside : number ≤ last.count
  pub recorded : last.count ≡ length kept
  pub whole :
      (number ≡ length kept) ⊎ ((last.file.good ≡ false) ⊎ (room < length last.file.pending))
  pub ended : replayer_next replayer ≡ (stop_iteration, replayer)

Replayed-Looped :
    (kept : List Message) (last : Recorder) (room : ℕ)
    → Replayed kept last room
    → Looped kept last room
unfolding replay
Replayed-Looped kept last room v =
    let bytes = (close room last).file.bytes in
    let fuel = suc (length bytes) in
    let loop = for_loop-drain fuel (open_replayer (some bytes)) ∙ v.yields in
    record {
      number = v.number;
      replayer = v.replayer;
      loop = loop;
      counted = v.counted;
      inside = v.inside;
      recorded = v.recorded;
      whole = v.whole;
      ended =
          replayer_next-end v.replayer
            (for_loop-ends fuel (open_replayer (some bytes)) v.replayer (take v.number kept) loop);
    }

pub for_loop-recorded :
    {PyObject : Type 0} (casts : Casts PyObject) (io : Flush) (calls : List (Flush × Args PyObject))
    (ms : List (Flush × Message)) (room : ℕ)
    → CastsInRange casts
    → construct casts calls ≡ some ms
    → let (last, kept) = record_stream ms (open_recorder true io) in
      header_size ≤ length (close room last).file.bytes → Looped kept last room
for_loop-recorded casts io calls ms room fits built enough =
    let (last, kept) = record_stream ms (open_recorder true io) in
    Replayed-Looped kept last room
      (replay-record_stream io ms room (construct-IsMessage casts fits calls ms built) enough)
