-- ===== src/Daemon/Consumer.antt =====
-- src/feed/coinbase_daemon_main.cpp: the flag `g_running`, the signal that clears it, and the two loops of
-- the consumer thread. Where that thread stands is part of the state; its sleep changes nothing.
pub mod Runs
pub mod Exit
mod Examples
use jisa.Prelude.{ℕ, zero, suc, Bool, true, false, none, some, List, [], ◌∷◌, ◌++◌}
use jisa.Double.{Arith}
use jisa.Core.Message.{Message}
use jisa.Core.Spsc.{try_pop}
use jisa.Feed.Handler.{Parser, empty_message}
use jisa.Daemon.Pipeline.{Detectors}
use jisa.Daemon.EndToEnd.{new_feeder, new_worker}
use jisa.Daemon.Events.{Event, opened, other, message, dropped}
use jisa.Daemon.Events.Counts.{sent_on}
use jisa.Daemon.Session.{Daemon, Turn, turn}

-- The consumer is about to test `g_running`, or about to call `try_pop`, or has left its loops.
pub data At : Type 0 where
  outer inner exited : At

pub record Program : Type 0 where
  pub daemon : Daemon
  pub running : Bool
  pub at : At

-- What the threads and the system do: an event of the client, a step of the consumer, SIGINT or SIGTERM.
pub data Move : Type 0 where
  event : (e : Event) → Move
  consume : Move
  signal : Move

-- A drop of the connection reads `g_running`.
unfoldable pub with_flag : Bool → Event → Event
with_flag running opened = opened
with_flag running other = other
with_flag running (message now_ms raw) = message now_ms raw
with_flag running (dropped _) = dropped running

module _ (k : ℕ) (fp : Arith) (parse : Parser) where
  unfoldable pub consume_at : At → Program → Program
  consume_at outer p = elim p.running [
    | true ↦ record p { at = inner }
    | false ↦ record p { at = exited }
  ]
  consume_at inner p = record p {
    at = elim (try_pop k empty_message p.daemon.feeder.ring).1 [ none ↦ outer | some _ ↦ inner ];
    daemon = turn k fp parse Turn.poll p.daemon;
  }
  consume_at exited p = p

  unfoldable pub move : Move → Program → Program
  unfolding with_flag consume_at
  move (event e) p = record p {
    daemon = turn k fp parse (Turn.event (with_flag p.running e)) p.daemon;
  }
  move consume p = consume_at p.at p
  move signal p = record p { running = false }

  unfoldable pub moves : List Move → Program → Program
  moves [] p = p
  moves (m ∷ ms) p = moves ms (move m p)

  -- The messages whose push returned true in a run.
  unfoldable pub pushed_in : List Move → Program → List Message
  pushed_in [] p = []
  pushed_in (event e ∷ ms) p =
      sent_on k parse (with_flag p.running e) p.daemon.feeder.handler p.daemon.feeder.ring
      ++ pushed_in ms (move (event e) p)
  pushed_in (consume ∷ ms) p = pushed_in ms (move consume p)
  pushed_in (signal ∷ ms) p = pushed_in ms (move signal p)

  -- Steps of the consumer alone.
  unfoldable pub consumes : ℕ → Program → Program
  consumes zero p = p
  consumes (suc n) p = consumes n (move consume p)

abbrev pub new_program : List Message → Detectors → Program
new_program storage d = record {
  daemon = record { feeder = new_feeder storage; worker = new_worker d };
  running = true;
  at = outer;
}
