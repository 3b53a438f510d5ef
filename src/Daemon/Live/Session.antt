-- ===== src/Daemon/Live/Session.antt =====
-- src/feed/coinbase_live_main.cpp: at the end of a session every pushed message is counted.
use jisa.Prelude.{
  ℕ, zero, suc, ◌+◌, ◌%◌, ◌^◌, ◌≤◌, ◌≡◌, refl, sym, ap, subst, ◌∙◌, inl, inr, none, some, List, [],
  ◌∷◌, ◌++◌, append-nil, append_assoc, arith, ◌==◌, if◌then◌else◌, length, get_or, take, drop,
  length-append,
}
use jisa.Core.Message.{Message}
use jisa.Core.Spsc.{Ring, try_pop}
use jisa.Core.Spsc.Threads.Invariant.{Shape}
use jisa.Core.Spsc.Calls.{try_pop-Popped}
use jisa.Feed.Handler.{Parser, handle, empty_message}
use jisa.Daemon.Drain.{drain, work_all, drain-work_all}
use jisa.Prelude.Int.{ℤ}
use jisa.Daemon.Events.{Event, opened, other, message, dropped}
use jisa.Daemon.Events.Counts.{sent_on, dispatch-Received}
use jisa.Daemon.EndToEnd.{new_ring-Shape}
use jisa.Daemon.Live.{
  Ticks, count_tick, Live, Act, event, poll, receive, act, act_all, run_session, new_live,
}

-- How many messages of a list are on a stream.
abbrev pub count_of : ℕ → List Message → ℕ
count_of s [] = 0
count_of s (m ∷ ms) = (if m.stream_id == s then 1 else 0) + count_of s ms

count_of-append :
    (s : ℕ) (xs ys : List Message) → count_of s (xs ++ ys) ≡ count_of s xs + count_of s ys
count_of-append s [] ys = omega arith
count_of-append s (m ∷ xs) ys = omega (arith, count_of-append s xs ys)

take-drop : {A : Type 0} (n : ℕ) (xs : List A) → take n xs ++ drop n xs ≡ xs
take-drop zero xs = refl
take-drop (suc n) [] = refl
take-drop (suc n) (x ∷ xs) = ap (λ l. x ∷ l) (take-drop n xs)

-- Ticks that count the messages of a list.
record Tallied (ms : List Message) (t : Ticks) : Type 0 where
  btc : t.btc % 2 ^ 64 ≡ count_of 1 ms % 2 ^ 64
  eth : t.eth % 2 ^ 64 ≡ count_of 2 ms % 2 ^ 64

count_tick-Tallied :
    (ms : List Message) (m : Message) (t : Ticks)
    → Tallied ms t
    → Tallied (ms ++ (m ∷ [])) (count_tick m t)
unfolding count_tick
count_tick-Tallied ms m t v = record {
  btc = ground (arith, v.btc, count_of-append 1 ms (m ∷ []));
  eth = ground (arith, v.eth, count_of-append 2 ms (m ∷ []));
}

work_all-Tallied :
    (done ms : List Message) (t : Ticks)
    → Tallied done t
    → Tallied (done ++ ms) (work_all count_tick ms t)
work_all-Tallied done [] t v = subst (λ l. Tallied l t) (sym (append-nil done)) v
work_all-Tallied done (m ∷ ms) t v =
    subst (λ l. Tallied l (work_all count_tick ms (count_tick m t))) (append_assoc done (m ∷ []) ms)
      (work_all-Tallied (done ++ (m ∷ [])) ms (count_tick m t) (count_tick-Tallied done m t v))

-- The messages whose push returned true in a session.
module _ (k : ℕ) (parse : Parser) where
  unfoldable pub pushed_in : List Act → Live → List Message
  pushed_in [] s = []
  pushed_in (event e ∷ acts) s =
      sent_on k parse e s.handler s.ring ++ pushed_in acts (act k parse (event e) s)
  pushed_in (poll ∷ acts) s = pushed_in acts (act k parse poll s)

-- What holds between the calls of a session.
record Going (k : ℕ) (pushed : List Message) (s : Live) : Type 0 where
  popped : List Message
  shape : Shape k empty_message s.ring pushed popped
  counted : s.stats.pushed % 2 ^ 64 ≡ length pushed % 2 ^ 64
  tallied : Tallied popped s.ticks

-- The ring is empty, and every message that went into it is counted.
pub record Settled (k : ℕ) (s : Live) (pushed : List Message) : Type 0 where
  pub empty : Shape k empty_message s.ring pushed pushed
  pub counted : s.stats.pushed % 2 ^ 64 ≡ length pushed % 2 ^ 64
  pub btc : s.ticks.btc % 2 ^ 64 ≡ count_of 1 pushed % 2 ^ 64
  pub eth : s.ticks.eth % 2 ^ 64 ≡ count_of 2 pushed % 2 ^ 64

module _ (k : ℕ) (small : k ≤ 63) (parse : Parser) where
  receive-Going :
      (now_ms : ℤ) (raw : List ℕ) (s : Live) (pushed : List Message)
      → Going k pushed s
      → Going k
          (pushed ++ sent_on k parse (message now_ms raw) s.handler s.ring)
          (receive k parse raw s)
  unfolding receive handle sent_on
  receive-Going now_ms raw s pushed v =
      let r =
        dispatch-Received k small pushed v.popped (parse raw empty_message) s.handler s.ring
          v.shape in
      record {
        popped = v.popped;
        shape =
            subst (λ l. Shape k empty_message (receive k parse raw s).ring (pushed ++ l) v.popped)
              r.these r.shape;
        counted = omega (
          arith,
          r.one,
          v.counted,
          length-append pushed (sent_on k parse (message now_ms raw) s.handler s.ring),
          ap length r.these,
        );
        tallied = v.tallied;
      }

  act-poll_some :
      (s : Live) (m : Message)
      → (try_pop k empty_message s.ring).1 ≡ some m
      → act k parse poll s
        ≡ record s { ring = (try_pop k empty_message s.ring).0; ticks = count_tick m s.ticks }
  unfolding act
  act-poll_some s m e = ground (arith, e)

  act-poll_none : (s : Live) → (try_pop k empty_message s.ring).1 ≡ none → act k parse poll s ≡ s
  unfolding act
  act-poll_none s e = ground (arith, e)

  poll-Going :
      (s : Live) (pushed : List Message) → Going k pushed s → Going k pushed (act k parse poll s)
  unfolding act
  poll-Going s pushed v =
      elim (try_pop-Popped k empty_message small s.ring pushed v.popped v.shape) [
        | inl (waiting, got, shape) ↦
            let m = get_or pushed (length v.popped) empty_message in
            subst (Going k pushed) (sym (act-poll_some s m got)) (record {
              popped = v.popped ++ (m ∷ []);
              shape = shape;
              counted = v.counted;
              tallied = count_tick-Tallied v.popped m s.ticks v.tallied;
            })
        | inr (same, stuck) ↦ subst (Going k pushed) (sym (act-poll_none s (ap (λ p. p.1) stuck))) v
      ]

  quiet :
      (s t : Live) (pushed : List Message)
      → t.ring ≡ s.ring
      → t.stats.pushed ≡ s.stats.pushed
      → t.ticks ≡ s.ticks
      → Going k pushed s
      → Going k (pushed ++ []) t
  quiet s t pushed ring count ticks v =
      subst (λ l. Going k l t) (sym (append-nil pushed))
        (record {
          popped = v.popped;
          shape = subst (λ r. Shape k empty_message r pushed v.popped) (sym ring) v.shape;
          counted = omega (arith, count, v.counted);
          tallied = subst (Tallied v.popped) (sym ticks) v.tallied;
        })

  event-Going :
      (e : Event) (s : Live) (pushed : List Message)
      → Going k pushed s
      → Going k (pushed ++ sent_on k parse e s.handler s.ring) (act k parse (event e) s)
  unfolding act sent_on
  event-Going opened s pushed v = quiet s _ pushed refl refl refl v
  event-Going other s pushed v = quiet s _ pushed refl refl refl v
  event-Going (message now_ms raw) s pushed v = receive-Going now_ms raw s pushed v
  event-Going (dropped _) s pushed v = quiet s _ pushed refl refl refl v

  act_all-Going :
      (acts : List Act) (s : Live) (pushed : List Message)
      → Going k pushed s
      → Going k (pushed ++ pushed_in k parse acts s) (act_all k parse acts s)
  unfolding act_all pushed_in
  act_all-Going [] s pushed v = subst (λ l. Going k l s) (sym (append-nil pushed)) v
  act_all-Going (event e ∷ acts) s pushed v =
      let s' = act k parse (event e) s in
      let sent = sent_on k parse e s.handler s.ring in
      subst (λ l. Going k l (act_all k parse acts s'))
        (append_assoc pushed sent (pushed_in k parse acts s'))
        (act_all-Going acts s' (pushed ++ sent) (event-Going e s pushed v))
  act_all-Going (poll ∷ acts) s pushed v =
      act_all-Going acts (act k parse poll s) pushed (poll-Going s pushed v)

run_session-some :
    (k : ℕ) (parse : Parser) (fuel : ℕ) (acts : List Act) (s : Live) (ring : Ring Message)
    (ticks : Ticks)
    → drain k count_tick fuel (act_all k parse acts s).ring (act_all k parse acts s).ticks
      ≡ some (ring, ticks)
    → run_session k parse fuel acts s
      ≡ some (record (act_all k parse acts s) { ring = ring; ticks = ticks })
unfolding run_session
run_session-some k parse fuel acts s ring ticks e = ground (arith, e)

-- Whatever a new client's two threads do, in any order, the drain at the end of the session ends on
-- fuel 2 ^ k + 1; the ring is then empty, and the counts of pushed messages and of ticks on streams 1
-- and 2, modulo 2 ^ 64, are those of the messages whose push returned true.
pub run_session-Settled :
    (k : ℕ) (parse : Parser) (acts : List Act) (storage : List Message)
    → k ≤ 63
    → length storage ≡ 2 ^ k
    → (last : Live) × (run_session k parse (2 ^ k + 1) acts (new_live storage) ≡ some last)
      × Settled k last (pushed_in k parse acts (new_live storage))
run_session-Settled k parse acts storage small room =
    let stopped = act_all k parse acts (new_live storage) in
    let pushed = pushed_in k parse acts (new_live storage) in
    let v = act_all-Going k small parse acts (new_live storage) [] (record {
      popped = [];
      shape = new_ring-Shape k storage room;
      counted = omega arith;
      tallied = record { btc = omega arith; eth = omega arith };
    }) in
    let (ring, run, empty) =
      drain-work_all k count_tick (2 ^ k + 1) stopped.ring stopped.ticks pushed v.popped small
        v.shape (omega (arith, v.shape.fits)) in
    let ticks = work_all count_tick (drop (length v.popped) pushed) stopped.ticks in
    let whole : v.popped ++ drop (length v.popped) pushed ≡ pushed =
      ap (λ l. l ++ drop (length v.popped) pushed) v.shape.order
      ∙ take-drop (length v.popped) pushed in
    let t =
      subst (λ l. Tallied l ticks) whole
        (work_all-Tallied v.popped (drop (length v.popped) pushed) stopped.ticks v.tallied) in
    (
      record stopped { ring = ring; ticks = ticks },
      run_session-some k parse (2 ^ k + 1) acts (new_live storage) ring ticks run,
      record { empty = empty; counted = v.counted; btc = t.btc; eth = t.eth },
    )
