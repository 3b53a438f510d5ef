-- ===== src/Daemon/Consumer/Examples.antt =====
-- src/feed/coinbase_daemon_main.cpp: a run that a signal ends.
use jisa.Prelude.{◌+◌, ◌^◌, ◌≡◌, refl, true, List, [], ◌∷◌, ◌++◌, arith}
use jisa.Prelude.Int.{pos}
use jisa.Double.Whole.{whole}
use jisa.Daemon.Events.{opened, message, dropped, on_event, on_message}
use jisa.Daemon.Examples.{toy, storage, detectors}
use jisa.Daemon.Session.{turn}
use jisa.Daemon.Consumer.{
  inner, Move, event, consume, signal, with_flag, consume_at, move, moves, pushed_in, consumes,
  new_program,
}
use jisa.Daemon.Consumer.Exit.{Exits, signal-Exits}

abbrev before : List Move
before = event opened ∷ event (message (pos 1) (1 ∷ 4 ∷ [])) ∷ consume ∷ []

-- The connection drops while the program stops.
abbrev after : List Move
after = event (message (pos 2) (2 ∷ 5 ∷ [])) ∷ event (dropped true) ∷ []

signal-Exits_example :
    let p = moves 1 whole toy (before ++ (signal ∷ after)) (new_program storage detectors) in
    Exits 1 whole detectors
      (pushed_in 1 whole toy (before ++ (signal ∷ after)) (new_program storage detectors))
      p
      (consumes 1 whole toy (2 ^ 1 + 2) p)
signal-Exits_example = signal-Exits 1 whole toy before after storage detectors (omega arith) refl

-- The drop is no reconnect, as the flag is clear.
no_reconnect :
    (moves 1 whole toy
      (before ++ (signal ∷ after))
      (new_program storage detectors)).daemon.feeder.counters.reconnects
    ≡ 0
unfolding moves move turn on_event with_flag consume_at on_message
no_reconnect = refl

-- The consumer had tested the flag before the signal came.
still_inside :
    (moves 1 whole toy (before ++ (signal ∷ after)) (new_program storage detectors)).at ≡ inner
unfolding moves move consume_at
still_inside = refl
