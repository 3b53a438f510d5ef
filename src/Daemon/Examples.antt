-- ===== src/Daemon/Examples.antt =====
-- src/feed/coinbase_daemon_main.cpp on a ring of two messages: tests, and the theorems at concrete inputs.
use jisa.Daemon.Session.{Daemon, Turn, turns, pushed_in, Behind, turns-Behind}
use jisa.Prelude.{
  ℕ, ◌+◌, ◌-◌, ◌≡◌, refl, inl, inr, true, false, some, List, [], ◌∷◌, arith, All, ◌++◌, none, ◌⊎◌,
  if◌then◌else◌,
}
use jisa.Prelude.Int.{ℤ, pos, pos_part}
use jisa.Prelude.Dict.{nat_key, bytes_key, find, put}
use jisa.Double.{Double}
use jisa.Prelude.Text.{Lacks}
use jisa.Core.Message.{Message}
use jisa.Double.Whole.{whole}
use jisa.Core.Spsc.{Ring}
use jisa.Feed.Handler.{Parser, ok, skipped, malformed, empty_message, handle, handle_ok, accept_seq}
use jisa.Detect.Rules.{RuleConfig, add_rule}
use jisa.Daemon.Args.{Options, requires_value, parse_args, parse_loop, data_dir_flag, btc_usd}
use jisa.Daemon.Args.Laws.{Digits, command_line, parse_args-command_line}
use jisa.Daemon.Pipeline.{Detectors, new_detectors, work}
use jisa.Daemon.Pipeline.Isolation.{Agree}
use jisa.Daemon.Drain.{drain}
use jisa.Daemon.Events.{Event, opened, message, dropped, on_events, on_event, on_message}
use jisa.Daemon.Events.Counts.{Fed, messages_in, sent_in, on_events-Fed}
use jisa.Daemon.EndToEnd.{
  detect_all, new_feeder, new_worker, Complete, drain-Complete, new_ring-Shape,
}
use jisa.Daemon.Streams.{messages_of, alerts_of, alerts_of-detect_all}
use jisa.Daemon.Live.{seconds_flag, parse_seconds, Live, Act, event, poll, new_live, run_session}
use jisa.Daemon.Live.Session
use jisa.Daemon.Live.Session.{Settled, run_session-Settled}
use jisa.Detect.Config.Printed.{config_lines}
use jisa.Daemon.Stats.{Disk, store, dst_name}
use jisa.Daemon.Stats.Atomic.{final}
use jisa.Daemon.Stats.Thread.{Round, Shows, run_stats, run_stats-Atomic}
use jisa.Daemon.Startup.{Environment, bad_arguments, load_rules, start}
use jisa.Daemon.Startup.Loaded.{Loading, load_rules-Loading}

-- Texts of one digit.
abbrev digits : Digits
digits = record { print_u32 = λ n. (48 + n) ∷ []; print_int = λ z. (48 + pos_part z) ∷ [] }

abbrev read_digit : List ℕ → ℕ
read_digit [] = 0
read_digit (c ∷ _) = c - 48

abbrev read_int : List ℕ → ℤ
read_int s = pos (read_digit s)

abbrev options : Options
options = record {
  data_dir = b'd' ∷ [];
  endpoint = b'e' ∷ [];
  rule_paths = (b'r' ∷ []) ∷ [];
  products = (btc_usd, 7) ∷ [];
  stats_interval_ms = pos 5;
}

parse_args-command_line_example :
    parse_args read_digit read_int (command_line digits options) ≡ inr options
unfolding find
parse_args-command_line_example =
    parse_args-command_line digits read_digit read_int options (omega arith)
      (refl, btc_usd_lacks, refl, omega arith, tt) refl
  where
    btc_usd_lacks : Lacks b'=' btc_usd
    btc_usd_lacks = (
      omega arith,
      (omega arith, (omega arith, (omega arith, (omega arith, (omega arith, (omega arith, tt)))))),
    )

flag_without_value :
    parse_args read_digit read_int (data_dir_flag ∷ []) ≡ inl (requires_value data_dir_flag)
unfolding parse_args parse_loop
flag_without_value = refl

abbrev tick : ℕ → Double → Message
tick seq value = record { stream_id = 7; ts_ns = pos seq; value = value; seq = seq }

abbrev two_ticks : Ring Message
two_ticks = record { head = 0; tail = 2; storage = tick 1 4 ∷ tick 2 5 ∷ [] }

-- A text is a sequence number and a value; no text is malformed but the empty one.
abbrev pub toy : Parser
toy [] out = (malformed, out)
toy (seq ∷ []) out = (skipped, out)
toy (seq ∷ value ∷ _) out = (ok, tick seq value)

abbrev pub storage : List Message
storage = empty_message ∷ empty_message ∷ []

-- The third tick finds the ring full, and comes after a gap.
abbrev events : List Event
events =
    opened
    ∷ message (pos 1) (1 ∷ 4 ∷ [])
    ∷ message (pos 2) (2 ∷ 5 ∷ [])
    ∷ message (pos 3) []
    ∷ message (pos 4) (5 ∷ 6 ∷ [])
    ∷ dropped true
    ∷ []

on_events-Fed_example :
    Fed 1
      (new_feeder storage)
      (on_events 1 toy events (new_feeder storage))
      []
      []
      (messages_in events)
      (sent_in 1 toy events (new_feeder storage))
on_events-Fed_example =
    on_events-Fed 1 (omega arith) toy events (new_feeder storage) [] []
      (new_ring-Shape 1 storage refl)

counted_events : (on_events 1 toy events (new_feeder storage)).counters.gaps ≡ 1
unfolding on_events on_event on_message handle handle_ok accept_seq find put
counted_events = refl

abbrev rule : ℕ → RuleConfig
rule stream_id = record { stream_id = stream_id; min = 3; max = 5; max_rate_of_change = 3 }

abbrev pub detectors : Detectors
detectors = new_detectors (add_rule (rule 7) [])

drain-Complete_example :
    let f = on_events 1 toy events (new_feeder storage) in
    Complete 1 whole detectors
      (sent_in 1 toy events (new_feeder storage))
      f
      (drain 1 (work whole) 3 f.ring (new_worker detectors))
drain-Complete_example = drain-Complete 1 whole toy events storage detectors (omega arith) refl

-- Detectors that have a rule for another stream too.
abbrev more_rules : Detectors
more_rules = new_detectors (add_rule (rule 8) (add_rule (rule 7) []))

abbrev mixed : List Message
mixed = tick 1 9 ∷ record (tick 1 9) { stream_id = 8 } ∷ tick 2 9 ∷ []

alerts_of-detect_all_example :
    alerts_of 7 (detect_all whole mixed more_rules).1
    ≡ (detect_all whole (messages_of 7 mixed) detectors).1
unfolding add_rule find put
alerts_of-detect_all_example = alerts_of-detect_all whole 7 mixed more_rules detectors agree
  where
    agree : Agree 7 more_rules detectors
    agree = record {
      rules = refl;
      baseline = refl;
      cusum = refl;
      conformal = refl;
      alpha = refl;
      capacity = refl;
    }

-- Streams 1 and 2.
abbrev two_streams : Parser
two_streams [] out = (malformed, out)
two_streams (s ∷ []) out = (skipped, out)
two_streams (s ∷ seq ∷ _) out = (ok, record (tick seq 4) { stream_id = s })

abbrev acts : List Act
acts =
    event opened
    ∷ event (message (pos 1) (1 ∷ 1 ∷ []))
    ∷ event (message (pos 2) (2 ∷ 1 ∷ []))
    ∷ poll
    ∷ event (message (pos 3) (1 ∷ 2 ∷ []))
    ∷ []

run_session-Settled_example :
    (last : Live) × (run_session 1 two_streams 3 acts (new_live storage) ≡ some last)
    × Settled 1 last (Session.pushed_in 1 two_streams acts (new_live storage))
run_session-Settled_example = run_session-Settled 1 two_streams acts storage (omega arith) refl

seconds_given :
    parse_seconds read_int (data_dir_flag ∷ seconds_flag ∷ (b'9' ∷ []) ∷ []) (pos 15) ≡ pos 9
unfolding parse_seconds
seconds_given = refl

abbrev pub old_stats : Disk
old_stats = store (data_dir_flag ++ dst_name) (some (b'0' ∷ [])) (λ path. none)

-- The first call cannot open its file, and the second prints `12`.
abbrev calls : List Round
calls =
    record { opens = false; room = 64; text = b'7' ∷ [] }
    ∷ record { opens = true; room = 64; text = b'1' ∷ b'2' ∷ [] }
    ∷ []

run_stats-Atomic_example :
    let steps = run_stats data_dir_flag calls old_stats in
    let dst = data_dir_flag ++ dst_name in
    All (λ d. (d dst ≡ old_stats dst) ⊎ Shows calls (d dst)) steps
    × (final old_stats steps dst ≡ some (b'1' ∷ b'2' ∷ []))
    × All (λ d. d btc_usd ≡ old_stats btc_usd) steps
run_stats-Atomic_example =
    run_stats-Atomic data_dir_flag calls old_stats btc_usd (omega arith) (λ e. cc) (λ e. cc)

-- One file holds a rule, and no other can be opened.
abbrev environment : Environment
environment = record {
  strtoul = read_digit;
  atoi = read_int;
  from_chars = λ s. some (read_digit s, 1);
  strtod = λ s. (read_digit s, 1);
  read_file = λ path.
      if bytes_key.same path btc_usd
      then some (
          config_lines [] (record {
            stream_id = b'7' ∷ [];
            min = b'2' ∷ [];
            max = b'5' ∷ [];
            max_rate = b'3' ∷ [];
          }))
      else none;
  opens = λ path. true;
}

load_rules-Loading_example :
    Loading environment
      (btc_usd ∷ data_dir_flag ∷ [])
      []
      (load_rules environment (btc_usd ∷ data_dir_flag ∷ []) [])
load_rules-Loading_example = load_rules-Loading environment (btc_usd ∷ data_dir_flag ∷ []) []

no_daemon :
    start environment (data_dir_flag ∷ []) ≡ inl (bad_arguments (requires_value data_dir_flag))
unfolding start parse_args parse_loop
no_daemon = refl

abbrev pub session : List Turn
session =
    Turn.event opened
    ∷ Turn.event (message (pos 1) (1 ∷ 4 ∷ []))
    ∷ Turn.poll
    ∷ Turn.event (message (pos 2) (4 ∷ 9 ∷ []))
    ∷ Turn.poll
    ∷ []

turns-Behind_example :
    let start : Daemon = record { feeder = new_feeder storage; worker = new_worker detectors } in
    Behind 1 whole detectors (pushed_in 1 whole toy session start) (turns 1 whole toy session start)
turns-Behind_example = turns-Behind 1 whole toy session storage detectors (omega arith) refl
