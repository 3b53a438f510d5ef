-- ===== src/Daemon/Shutdown.antt =====
-- src/feed/coinbase_daemon_main.cpp: the end of main. When the threads have stopped, the counters that they
-- shared are printed into stats.json a last time, beside the alerts that they wrote.
mod Examples
use jisa.Prelude.{
  ℕ, ◌+◌, ◌-◌, ◌%◌, ◌^◌, ◌≤◌, ◌≡◌, refl, sym, ap, subst, ◌∙◌, ◌≢◌, true, Option, some, List,
  if◌then◌else◌, [], ◌∷◌, ◌++◌, map, arith, length, length-append, take, length-take, All,
  All-append, min,
}
use jisa.Prelude.Int.{ℤ}
use jisa.Prelude.Text.{WholeLines}
use jisa.Double.{Double, Arith}
use jisa.Core.Message.{Message}
use jisa.Core.Spsc.{Ring, sub_size}
use jisa.Core.Spsc.Counters.{capacity-le}
use jisa.Feed.Handler.{Parser}
use jisa.Daemon.Clock.{Tm, iso8601_utc}
use jisa.Daemon.Alerts
use jisa.Daemon.Alerts.{Alert}
use jisa.Daemon.Alerts.Sink.{
  AlertWriter, Call, Interleaved, done, left, right, open_writer, write_all,
}
use jisa.Daemon.Alerts.Lines.{PrintsPlain, alert_fields}
use jisa.Daemon.Alerts.Logged.{Logged, IsWhole, write_all-Logged}
use jisa.Daemon.Pipeline.{Counters, Detectors, add_count}
use jisa.Daemon.Events.Counts.{length-map}
use jisa.Daemon.EndToEnd.{Worked, work_all-Worked, new_feeder, new_worker}
use jisa.Daemon.Session.{Daemon, Turn, turns, pushed_in, Running, turns-Running, new_daemon-Running}
use jisa.Daemon.Stats
use jisa.Daemon.Stats.{Disk, dst_name, tmp_name, stats_text}
use jisa.Daemon.Stats.Atomic.{final}
use jisa.Daemon.Stats.Thread.{Round, run_stats, last_text, run_stats-Atomic}

-- The one `Counters` of the program, of which each thread adds to some, and both to `alerts`.
unfoldable pub shared_counters : Daemon → Counters
shared_counters s = record (s.feeder.counters) {
  processed = s.worker.counters.processed;
  alerts = add_count s.feeder.counters.alerts s.worker.counters.alerts;
  last_message_ts_ns = s.worker.counters.last_message_ts_ns;
}

-- The last call of write_stats, for a disk that has room for its text.
unfoldable pub final_snapshot : Stats.Prints → Double → Double → List ℕ → Daemon → Round
unfolding shared_counters
final_snapshot stats start now streams s =
    let text = stats_text stats (shared_counters s) start now streams in
    record { opens = true; room = length text; text = text }

length-Interleaved :
    {A : Type 0} {xs ys zs : List A} → Interleaved xs ys zs → length zs ≡ length xs + length ys
length-Interleaved done = omega arith
length-Interleaved (left v) = omega (arith, length-Interleaved v)
length-Interleaved (right v) = omega (arith, length-Interleaved v)

last_text-append :
    (rounds : List Round) (r : Round) (was : Option (List ℕ))
    → last_text (rounds ++ (r ∷ [])) was ≡ last_text (r ∷ []) (last_text rounds was)
last_text-append [] r was = refl
last_text-append (x ∷ rounds) r was =
    last_text-append rounds r (if x.opens then some x.text else was)

-- What is left in a ring, by its counters.
abbrev pub left_in : Ring Message → ℕ
left_in r = sub_size r.tail r.head

-- What the two files say at the end, for the calls `xs` of the gap callback and `ys` of the consumer.
pub record Agrees (k : ℕ) (prints : Alerts.Prints) (gmtime : ℤ → Tm) (s : Daemon)
    (xs ys : List Call) (old : List ℕ) (w : AlertWriter) : Type 0 where
  pub logged : Logged prints gmtime xs ys old w
  pub alerts : (shared_counters s).alerts ≡ length logged.added % 2 ^ 64
  pub gaps : (shared_counters s).gaps % 2 ^ 64 ≡ length xs % 2 ^ 64
  pub waiting : left_in s.feeder.ring ≤ 2 ^ k
  pub pushed :
      (shared_counters s).pushed % 2 ^ 64
      ≡ ((shared_counters s).processed + left_in s.feeder.ring) % 2 ^ 64

-- The calls on alerts.jsonl that a daemon's two threads have made.
pub record MadeBy (s : Daemon) (xs ys : List Call) : Type 0 where
  pub feed : map (λ c. c.alert) xs ≡ s.feeder.written
  pub consumer : map (λ c. c.alert) ys ≡ s.worker.written

module _ (k : ℕ) (fp : Arith) (d : Detectors) (prints : Alerts.Prints) (plain : PrintsPlain prints)
    (gmtime : ℤ → Tm) where
  Running-Agrees :
      (pushed : List Message) (s : Daemon) (old : List ℕ) (xs ys zs : List Call)
      → k ≤ 63
      → Running k fp d pushed s
      → MadeBy s xs ys
      → All (IsWhole prints gmtime) zs
      → WholeLines old
      → Interleaved xs ys zs
      → Agrees k prints gmtime s xs ys old (write_all prints gmtime zs (open_writer true old).0)
  unfolding shared_counters
  Running-Agrees pushed s old xs ys zs small v made taken whole mixed =
      let logged = write_all-Logged prints plain gmtime old xs ys zs taken whole mixed in
      let worked : Worked fp v.popped (new_worker d) s.worker =
        subst (Worked fp v.popped (new_worker d)) (sym v.worker)
          (work_all-Worked fp v.popped (new_worker d)) in
      let feed : length xs ≡ length s.feeder.written =
        sym (length-map (λ c. c.alert) xs) ∙ ap length made.feed in
      let consumer : length ys ≡ length s.worker.written =
        sym (length-map (λ c. c.alert) ys) ∙ ap length made.consumer in
      let left : left_in s.feeder.ring ≡ length pushed - length v.popped = omega (
        arith,
        capacity-le k small,
        v.shape.ahead,
        v.shape.fits,
        v.shape.head_at,
        v.shape.tail_at,
      ) in
      let call_fields = λ (c : Call). alert_fields prints (iso8601_utc gmtime c.now) c.alert in
      record {
        logged = logged;
        alerts = omega (
          arith,
          v.alarms,
          worked.alerts,
          ap length worked.written,
          length-Interleaved logged.order,
          length-map call_fields xs,
          length-map call_fields ys,
        );
        gaps = omega (arith, v.gaps);
        waiting = omega (arith, left, v.shape.fits);
        pushed = omega (arith, v.counted, worked.processed, v.shape.ahead, left);
      }

empty_path : (dir : List ℕ) (c : ℕ) (name : List ℕ) → [] ≢ dir ++ (c ∷ name)
empty_path [] c name e = cc
empty_path (b ∷ dir) c name e = cc

abbrev pub run_daemon : ℕ → Arith → Parser → List Turn → List Message → Detectors → Daemon
run_daemon k fp parse ts storage d =
    turns k fp parse ts (record { feeder = new_feeder storage; worker = new_worker d })

-- However a new daemon's two threads took turns until both had stopped, and in whatever order their calls
-- on alerts.jsonl took the mutex: if alerts.jsonl held whole lines at the start, the device took the whole line
-- in every call on it, printed numbers hold no quote and no newline, and every text of the stats thread and
-- the last one reached its file, then
-- stats.json holds the text of the shared counters; in them `alerts` is the number of objects that
-- alerts.jsonl has gained, `gaps` the number of those that the gap callback wrote, and `pushed` is
-- `processed` and what the ring's counters say is left in it, at most 2 ^ k messages (k at most 63), each modulo 2 ^ 64; and alerts.jsonl
-- holds what it held and the objects of the two threads, each thread's in its order.
pub finish-Agrees :
    (k : ℕ) (fp : Arith) (parse : Parser) (ts : List Turn) (storage : List Message) (d : Detectors)
    (prints : Alerts.Prints) (stats : Stats.Prints) (gmtime : ℤ → Tm) (old : List ℕ)
    (xs ys zs : List Call) (dir : List ℕ) (rounds : List Round) (start now : Double)
    (streams : List ℕ) (disk : Disk)
    → k ≤ 63
    → length storage ≡ 2 ^ k
    → PrintsPlain prints
    → MadeBy (run_daemon k fp parse ts storage d) xs ys
    → All (IsWhole prints gmtime) zs
    → WholeLines old
    → Interleaved xs ys zs
    → All (λ r. length r.text ≤ r.room) rounds
    → let s = run_daemon k fp parse ts storage d in
      Agrees k prints gmtime s xs ys old (write_all prints gmtime zs (open_writer true old).0)
      × (final disk
            (run_stats dir (rounds ++ (final_snapshot stats start now streams s ∷ [])) disk)
            (dir ++ dst_name)
          ≡ some (stats_text stats (shared_counters s) start now streams))
unfolding final_snapshot
finish-Agrees k fp parse ts storage d prints stats gmtime old xs ys zs dir rounds start now streams
      disk small room plain made taken whole mixed fits =
    let s0 : Daemon = record { feeder = new_feeder storage; worker = new_worker d } in
    let s : Daemon = run_daemon k fp parse ts storage d in
    let last = final_snapshot stats start now streams s in
    let v = turns-Running k small fp parse d ts s0 [] (new_daemon-Running k fp storage d room) in
    let fits_all = All-append _ rounds (last ∷ []) fits (omega arith, tt) in
    let (_, ends, _) =
      run_stats-Atomic dir (rounds ++ (last ∷ [])) disk [] fits_all (empty_path dir _ _)
        (empty_path dir _ _) in
    (
      Running-Agrees k fp d prints plain gmtime (pushed_in k fp parse ts s0) s old xs ys zs small v
          made taken whole mixed,
      ends ∙ last_text-append rounds last (disk (dir ++ dst_name)),
    )
