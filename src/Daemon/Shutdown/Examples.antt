-- ===== src/Daemon/Shutdown/Examples.antt =====
-- src/feed/coinbase_daemon_main.cpp: the end of a short run.
use jisa.Prelude.{
  ◌≡◌, refl, ap, inl, true, some, List, [], ◌∷◌, ◌++◌, map, arith, length, All, All-append,
}
use jisa.Prelude.Int.{ℤ, pos}
use jisa.Double.Whole.{whole}
use jisa.Daemon.Alerts.{Alert, alert_line}
use jisa.Daemon.Alerts.Logged.{IsWhole}
use jisa.Daemon.Alerts.Examples.{digits, digits-PrintsPlain, midnight}
use jisa.Daemon.Alerts.Sink.{Call, Interleaved, done, left, right, open_writer, write_all}
use jisa.Daemon.Args.{data_dir_flag}
use jisa.Daemon.Clock.{decimal, year_text, iso8601_utc}
use jisa.Daemon.Examples.{toy, storage, session, detectors, old_stats}
use jisa.Daemon.Session.{Daemon}
use jisa.Daemon.Stats
use jisa.Daemon.Stats.{dst_name, stats_text}
use jisa.Daemon.Stats.Atomic.{final}
use jisa.Daemon.Stats.Thread.{Round, run_stats}
use jisa.Daemon.Shutdown.{Agrees, run_daemon, shared_counters, final_snapshot, finish-Agrees}

-- A thread's calls, all at one time, on a device that takes their lines.
abbrev calls_at : ℤ → List Alert → List Call
calls_at now alerts =
    map
      (λ a. record {
        now = now;
        room = length (alert_line digits (iso8601_utc midnight now) a);
        alert = a;
      })
      alerts

calls_at-IsWhole :
    (now : ℤ) (alerts : List Alert) → All (IsWhole digits midnight) (calls_at now alerts)
calls_at-IsWhole now [] = tt
calls_at-IsWhole now (a ∷ alerts) = (omega arith, calls_at-IsWhole now alerts)

map-calls_at : (now : ℤ) (alerts : List Alert) → map (λ c. c.alert) (calls_at now alerts) ≡ alerts
map-calls_at now [] = refl
map-calls_at now (a ∷ alerts) = ap (λ l. a ∷ l) (map-calls_at now alerts)

one_after_the_other : (xs ys : List Call) → Interleaved xs ys (xs ++ ys)
one_after_the_other [] [] = done
one_after_the_other [] (y ∷ ys) = right (one_after_the_other [] ys)
one_after_the_other (x ∷ xs) ys = left (one_after_the_other xs ys)

abbrev numbers : Stats.Prints
numbers = record {
  print_fixed3 = decimal 20;
  print_u64 = decimal 20;
  print_i64 = year_text;
  print_u32 = decimal 20;
}

abbrev stopped : Daemon
stopped = run_daemon 1 whole toy session storage detectors

abbrev feed_calls : List Call
feed_calls = calls_at (pos 2) stopped.feeder.written

abbrev consumer_calls : List Call
consumer_calls = calls_at (pos 3) stopped.worker.written

abbrev rounds : List Round
rounds = record { opens = true; room = 9; text = b'0' ∷ b'1' ∷ [] } ∷ []

finish-Agrees_example :
    Agrees 1 digits midnight stopped feed_calls consumer_calls []
      (write_all digits midnight (feed_calls ++ consumer_calls) (open_writer true []).0)
    × (final old_stats
          (run_stats data_dir_flag
            (rounds ++ (final_snapshot numbers 1 2 (7 ∷ []) stopped ∷ []))
            old_stats)
          (data_dir_flag ++ dst_name)
        ≡ some (stats_text numbers (shared_counters stopped) 1 2 (7 ∷ [])))
finish-Agrees_example =
    finish-Agrees 1 whole toy session storage detectors digits numbers midnight [] feed_calls
      consumer_calls (feed_calls ++ consumer_calls) data_dir_flag rounds 1 2 (7 ∷ []) old_stats
      (omega arith) refl digits-PrintsPlain
      (record {
        feed = map-calls_at (pos 2) stopped.feeder.written;
        consumer = map-calls_at (pos 3) stopped.worker.written;
      })
      (All-append _ feed_calls consumer_calls (calls_at-IsWhole (pos 2) stopped.feeder.written)
        (calls_at-IsWhole (pos 3) stopped.worker.written))
      (inl refl) (one_after_the_other feed_calls consumer_calls) (omega arith)
