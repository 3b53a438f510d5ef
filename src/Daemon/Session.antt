-- ===== src/Daemon/Session.antt =====
-- src/feed/coinbase_daemon_main.cpp: the feed and the consumer at once. A session is the sequence of what
-- the two threads do: an event of the WebSocket client, or a `try_pop` of the consumer with the work on
-- what it returns.
use jisa.Prelude.{
  ℕ, ◌+◌, ◌%◌, ◌^◌, ◌≤◌, ◌≡◌, refl, sym, ap, subst, ◌∙◌, inl, inr, none, some, List, [], ◌∷◌, ◌++◌,
  arith, length, get_or, take, length-append, append-nil, append_assoc,
}
use jisa.Double.{Arith}
use jisa.Core.Message.{Message}
use jisa.Core.Spsc.{try_pop}
use jisa.Core.Spsc.Threads.Invariant.{Shape}
use jisa.Core.Spsc.Calls.{try_pop-Popped}
use jisa.Feed.Handler.{Parser, empty_message}
use jisa.Daemon.Pipeline.{Detectors, Worker, work}
use jisa.Daemon.Drain.{work_all}
use jisa.Daemon.Events.{Event, Feeder, on_event}
use jisa.Daemon.Events.Counts.{sent_on, on_event-Fed}
use jisa.Daemon.EndToEnd.{Worked, work_all-Worked, new_feeder, new_worker, new_ring-Shape}

pub record Daemon : Type 0 where
  pub feeder : Feeder
  pub worker : Worker

pub data Turn : Type 0 where
  event : (e : Event) → Turn
  poll : Turn

module _ (k : ℕ) (fp : Arith) (parse : Parser) where
  unfoldable pub turn : Turn → Daemon → Daemon
  turn (event e) s = record s { feeder = on_event k parse e s.feeder }
  turn poll s =
      let (ring, out) = try_pop k empty_message s.feeder.ring in
      elim out [
        | none ↦ s
        | some m ↦ record {
          feeder = record (s.feeder) { ring = ring };
          worker = work fp m s.worker;
        }
      ]

  unfoldable pub turns : List Turn → Daemon → Daemon
  turns [] s = s
  turns (t ∷ ts) s = turns ts (turn t s)

work_all-append :
    {S : Type 0} (f : Message → S → S) (ms : List Message) (m : Message) (s : S)
    → work_all f (ms ++ (m ∷ [])) s ≡ f m (work_all f ms s)
work_all-append f [] m s = refl
work_all-append f (x ∷ ms) m s = work_all-append f ms m (f x s)

-- The messages whose push returned true in a session.
module _ (k : ℕ) (fp : Arith) (parse : Parser) where
  unfoldable pub pushed_in : List Turn → Daemon → List Message
  pushed_in [] s = []
  pushed_in (event e ∷ ts) s =
      sent_on k parse e s.feeder.handler s.feeder.ring ++ pushed_in ts (turn k fp parse (event e) s)
  pushed_in (poll ∷ ts) s = pushed_in ts (turn k fp parse poll s)

-- What holds between the calls of a session, for the messages pushed and popped so far.
pub record Running (k : ℕ) (fp : Arith) (d : Detectors) (pushed : List Message) (s : Daemon)
    : Type 0 where
  pub popped : List Message
  pub shape : Shape k empty_message s.feeder.ring pushed popped
  pub counted : s.feeder.counters.pushed % 2 ^ 64 ≡ length pushed % 2 ^ 64
  pub gaps : s.feeder.counters.gaps % 2 ^ 64 ≡ length s.feeder.written % 2 ^ 64
  pub alarms : s.feeder.counters.alerts % 2 ^ 64 ≡ length s.feeder.written % 2 ^ 64
  pub worker : s.worker ≡ work_all (work fp) popped (new_worker d)

-- The consumer is behind the feed by what waits in the ring.
pub record Behind (k : ℕ) (fp : Arith) (d : Detectors) (pushed : List Message) (s : Daemon)
    : Type 0 where
  pub popped : List Message
  pub holds : Shape k empty_message s.feeder.ring pushed popped
  pub order : popped ≡ take (length popped) pushed
  pub waiting : length pushed ≤ length popped + 2 ^ k
  pub counted : s.feeder.counters.pushed % 2 ^ 64 ≡ length pushed % 2 ^ 64
  pub worked : Worked fp popped (new_worker d) s.worker

module _ (k : ℕ) (small : k ≤ 63) (fp : Arith) (parse : Parser) (d : Detectors) where
  pub turn-poll_some :
      (s : Daemon) (m : Message)
      → (try_pop k empty_message s.feeder.ring).1 ≡ some m
      → turn k fp parse poll s ≡ record {
        feeder = record (s.feeder) { ring = (try_pop k empty_message s.feeder.ring).0 };
        worker = work fp m s.worker;
      }
  unfolding turn
  turn-poll_some s m e = ground (arith, e)

  pub turn-poll_none :
      (s : Daemon) → (try_pop k empty_message s.feeder.ring).1 ≡ none → turn k fp parse poll s ≡ s
  unfolding turn
  turn-poll_none s e = ground (arith, e)

  pub turn-event :
      (e : Event) (s : Daemon) (pushed : List Message)
      → Running k fp d pushed s
      → Running k fp d
          (pushed ++ sent_on k parse e s.feeder.handler s.feeder.ring)
          (turn k fp parse (event e) s)
  unfolding turn
  turn-event e s pushed v =
      let fed = on_event-Fed k small parse e s.feeder pushed v.popped v.shape in
      let sent = sent_on k parse e s.feeder.handler s.feeder.ring in
      let written = ap length fed.reported ∙ length-append s.feeder.written fed.alerts in
      record {
        popped = v.popped;
        shape =
            subst
              (λ l. Shape k empty_message (on_event k parse e s.feeder).ring (pushed ++ l) v.popped)
              fed.these fed.shape;
        counted =
            omega (arith, fed.counted, v.counted, length-append pushed sent, ap length fed.these);
        gaps = omega (arith, fed.gaps, v.gaps, written);
        alarms = omega (arith, fed.alarms, v.alarms, written);
        worker = v.worker;
      }

  pub turn-poll :
      (s : Daemon) (pushed : List Message)
      → Running k fp d pushed s
      → Running k fp d pushed (turn k fp parse poll s)
  turn-poll s pushed v =
      elim (try_pop-Popped k empty_message small s.feeder.ring pushed v.popped v.shape) [
        | inl (waiting, got, shape) ↦
            let m = get_or pushed (length v.popped) empty_message in
            subst (Running k fp d pushed) (sym (turn-poll_some s m got)) (record {
              popped = v.popped ++ (m ∷ []);
              shape = shape;
              counted = v.counted;
              gaps = v.gaps;
              alarms = v.alarms;
              worker =
                  ap (work fp m) v.worker
                  ∙ sym (work_all-append (work fp) v.popped m (new_worker d));
            })
        | inr (same, stuck) ↦
            subst (Running k fp d pushed) (sym (turn-poll_none s (ap (λ p. p.1) stuck))) v
      ]

  pub turns-Running :
      (ts : List Turn) (s : Daemon) (pushed : List Message)
      → Running k fp d pushed s
      → Running k fp d (pushed ++ pushed_in k fp parse ts s) (turns k fp parse ts s)
  unfolding turns pushed_in
  turns-Running [] s pushed v = subst (λ l. Running k fp d l s) (sym (append-nil pushed)) v
  turns-Running (event e ∷ ts) s pushed v =
      let s' = turn k fp parse (event e) s in
      let sent = sent_on k parse e s.feeder.handler s.feeder.ring in
      subst (λ l. Running k fp d l (turns k fp parse ts s'))
        (append_assoc pushed sent (pushed_in k fp parse ts s'))
        (turns-Running ts s' (pushed ++ sent) (turn-event e s pushed v))
  turns-Running (poll ∷ ts) s pushed v =
      turns-Running ts (turn k fp parse poll s) pushed (turn-poll s pushed v)

pub new_daemon-Running :
    (k : ℕ) (fp : Arith) (storage : List Message) (d : Detectors)
    → length storage ≡ 2 ^ k
    → Running k fp d [] (record { feeder = new_feeder storage; worker = new_worker d })
new_daemon-Running k fp storage d room = record {
  popped = [];
  shape = new_ring-Shape k storage room;
  counted = omega arith;
  gaps = omega arith;
  alarms = omega arith;
  worker = refl;
}

pub Running-Behind :
    (k : ℕ) (fp : Arith) (d : Detectors) (pushed : List Message) (s : Daemon)
    → Running k fp d pushed s
    → Behind k fp d pushed s
Running-Behind k fp d pushed s v = record {
  popped = v.popped;
  holds = v.shape;
  order = v.shape.order;
  waiting = v.shape.fits;
  counted = v.counted;
  worked =
      subst (Worked fp v.popped (new_worker d)) (sym v.worker)
        (work_all-Worked fp v.popped (new_worker d));
}

-- At every moment of a new daemon's run, in whatever order its two threads take turns: the messages that
-- went through the detection layers are the first of those whose push returned true, in order, the ring
-- holds the others, at most 2 ^ k, the counters `pushed` and `processed` count the two modulo 2 ^ 64, and the consumer's
-- alerts and detectors are those of running the layers over the messages that are through.
pub turns-Behind :
    (k : ℕ) (fp : Arith) (parse : Parser) (ts : List Turn) (storage : List Message) (d : Detectors)
    → k ≤ 63
    → length storage ≡ 2 ^ k
    → let start : Daemon = record { feeder = new_feeder storage; worker = new_worker d } in
      Behind k fp d (pushed_in k fp parse ts start) (turns k fp parse ts start)
turns-Behind k fp parse ts storage d small room =
    let start : Daemon = record { feeder = new_feeder storage; worker = new_worker d } in
    Running-Behind k fp d (pushed_in k fp parse ts start) (turns k fp parse ts start)
      (turns-Running k small fp parse d ts start [] (new_daemon-Running k fp storage d room))
