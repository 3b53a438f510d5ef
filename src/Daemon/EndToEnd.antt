-- ===== src/Daemon/EndToEnd.antt =====
-- src/feed/coinbase_daemon_main.cpp: a feed and a consumer together.
use jisa.Prelude.{
  ℕ, ◌+◌, ◌%◌, ◌^◌, ◌≤◌, ◌≡◌, refl, ◌∙◌, true, Option, some, List, [], ◌∷◌, ◌++◌, append-nil, subst,
  ap, append_assoc, arith, length, length-append,
}
use jisa.Double.{Arith}
use jisa.Core.Message.{Message}
use jisa.Core.Spsc.{Ring}
use jisa.Core.Spsc.Threads.Invariant.{Shape}
use jisa.Feed.Handler.{Parser, empty_message}
use jisa.Daemon.Alerts.{Alert}
use jisa.Daemon.Pipeline.{no_counts, Detectors, Worker, detect, work}
use jisa.Daemon.Drain.{drain, work_all, drain-work_all}
use jisa.Daemon.Events.{Event, Feeder, on_events}
use jisa.Daemon.Events.Counts.{sent_in, on_events-Fed}

-- What messages do to the detectors, and the alerts they raise, in order.
unfoldable pub detect_all : Arith → List Message → Detectors → Detectors × List Alert
detect_all fp [] d = (d, [])
detect_all fp (m ∷ ms) d =
    let (d', alerts) = detect fp m d in
    let (d'', more) = detect_all fp ms d' in (d'', alerts ++ more)

-- The consumer's state after it has worked on some messages.
pub record Worked (fp : Arith) (ms : List Message) (w w' : Worker) : Type 0 where
  pub detectors : w'.detectors ≡ (detect_all fp ms w.detectors).0
  pub written : w'.written ≡ w.written ++ (detect_all fp ms w.detectors).1
  pub processed : w'.counters.processed % 2 ^ 64 ≡ (w.counters.processed + length ms) % 2 ^ 64
  pub alerts :
      w'.counters.alerts % 2 ^ 64
      ≡ (w.counters.alerts + length (detect_all fp ms w.detectors).1) % 2 ^ 64

pub work_all-Worked :
    (fp : Arith) (ms : List Message) (w : Worker) → Worked fp ms w (work_all (work fp) ms w)
unfolding detect_all work
work_all-Worked fp [] w = record {
  detectors = refl;
  written = rw (append-nil w.written) refl;
  processed = omega arith;
  alerts = omega arith;
}
work_all-Worked fp (m ∷ ms) w =
    let rest = work_all-Worked fp ms (work fp m w) in
    let now = (detect fp m w.detectors).1 in
    let later = (detect_all fp ms (detect fp m w.detectors).0).1 in
    record {
      detectors = rest.detectors;
      written = rest.written ∙ append_assoc w.written now later;
      processed = omega (arith, rest.processed);
      alerts = omega (arith, rest.alerts, length-append now later);
    }

-- A daemon as it starts, with the storage of its ring.
abbrev pub new_feeder : List Message → Feeder
new_feeder storage = record {
  handler = record { last_seq = []; on_gap = true };
  ring = record { head = 0; tail = 0; storage = storage };
  counters = no_counts;
  written = [];
  sent = 0;
}

abbrev pub new_worker : Detectors → Worker
new_worker d = record { detectors = d; counters = no_counts; written = [] }

pub new_ring-Shape :
    (k : ℕ) (storage : List Message)
    → length storage ≡ 2 ^ k
    → Shape k empty_message (record { head = 0; tail = 0; storage = storage }) [] []
new_ring-Shape k storage room = record {
  room = room;
  head_at = omega arith;
  tail_at = omega arith;
  ahead = omega arith;
  fits = omega arith;
  holds = λ i p q. absurd (omega (arith, q));
  order = refl;
}

-- What a feed of events and then a drain of the ring come to.
pub record Complete (k : ℕ) (fp : Arith) (d : Detectors) (messages : List Message) (f : Feeder)
    (run : Option (Ring Message × Worker)) : Type 0 where
  pub last : Ring Message
  pub worker : Worker
  pub ends : run ≡ some (last, worker)
  pub empty : Shape k empty_message last messages messages
  pub waited : Shape k empty_message f.ring messages []
  pub worked : Worked fp messages (new_worker d) worker
  pub balanced : worker.counters.processed % 2 ^ 64 ≡ f.counters.pushed % 2 ^ 64

-- Whatever events a new daemon has seen before its consumer runs, the consumer's loop ends with fuel
-- above the ring's size: every message whose push returned true has gone through the detection layers, once
-- and in order, and `processed` is `pushed`.
pub drain-Complete :
    (k : ℕ) (fp : Arith) (parse : Parser) (es : List Event) (storage : List Message) (d : Detectors)
    → k ≤ 63
    → length storage ≡ 2 ^ k
    → let f = on_events k parse es (new_feeder storage) in
      Complete k fp d
        (sent_in k parse es (new_feeder storage))
        f
        (drain k (work fp) (2 ^ k + 1) f.ring (new_worker d))
drain-Complete k fp parse es storage d small room =
    let fed =
      on_events-Fed k small parse es (new_feeder storage) [] [] (new_ring-Shape k storage room) in
    let f = on_events k parse es (new_feeder storage) in
    let sent = sent_in k parse es (new_feeder storage) in
    let waited = subst (λ l. Shape k empty_message f.ring l []) fed.these fed.shape in
    let (last, run, empty) =
      drain-work_all k (work fp) (2 ^ k + 1) f.ring (new_worker d) sent [] small waited
        (omega (arith, waited.fits)) in
    let worked = work_all-Worked fp sent (new_worker d) in
    record {
      last = last;
      worker = work_all (work fp) sent (new_worker d);
      ends = run;
      empty = empty;
      waited = waited;
      worked = worked;
      balanced = omega (arith, worked.processed, fed.counted, ap length fed.these);
    }
