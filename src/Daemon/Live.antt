-- ===== src/Daemon/Live.antt =====
-- src/feed/coinbase_live_main.cpp: the client that runs for some seconds and counts ticks. A session is the
-- sequence of what its two threads do: an event of the WebSocket client, or a `try_pop` of the consumer.
pub mod Session
use jisa.Prelude.{
  ℕ, ◌+◌, true, Option, none, some, List, [], ◌∷◌, ◌++◌, ◌==◌, if◌then◌else◌, length,
}
use jisa.Prelude.Int.{ℤ}
use jisa.Prelude.Dict.{bytes_key}
use jisa.Core.Message.{Message}
use jisa.Core.Spsc.{Ring, try_push, try_pop}
use jisa.Feed.Handler.{Handler, Parser, Gap, handle, on_disconnect, on_reconnect, empty_message}
use jisa.Daemon.Pipeline.{add_count}
use jisa.Daemon.Drain.{drain}
use jisa.Daemon.Events.{Event, opened, other, message, dropped, is_malformed}

abbrev pub seconds_flag : List ℕ
seconds_flag = b'-' ∷ b'-' ∷ b's' ∷ b'e' ∷ b'c' ∷ b'o' ∷ b'n' ∷ b'd' ∷ b's' ∷ []

-- The arguments after the program's name.
unfoldable pub parse_seconds : (List ℕ → ℤ) → List (List ℕ) → ℤ → ℤ
parse_seconds atoi [] seconds = seconds
parse_seconds atoi (a ∷ []) seconds = seconds
parse_seconds atoi (a ∷ v ∷ rest) seconds =
    let given = parse_seconds atoi rest (atoi v) in
    let passed = parse_seconds atoi (v ∷ rest) seconds in
    if bytes_key.same a seconds_flag then given else passed

pub record Stats : Type 0 where
  pub received : ℕ
  pub pushed : ℕ
  pub parse_failures : ℕ
  pub gaps : ℕ
  pub reconnects : ℕ

-- `btc_ticks` and `eth_ticks`
pub record Ticks : Type 0 where
  pub btc : ℕ
  pub eth : ℕ

unfoldable pub count_tick : Message → Ticks → Ticks
count_tick m t =
    if m.stream_id == 1
    then record t { btc = add_count t.btc 1 }
    else if m.stream_id == 2
    then record t { eth = add_count t.eth 1 }
    else t

-- The shared state; `reported` holds the gaps that were printed.
pub record Live : Type 0 where
  pub handler : Handler
  pub ring : Ring Message
  pub stats : Stats
  pub reported : List Gap
  pub ticks : Ticks
  pub sent : ℕ

pub data Act : Type 0 where
  event : (e : Event) → Act
  poll : Act

module _ (k : ℕ) (parse : Parser) where
  unfoldable pub receive : List ℕ → Live → Live
  receive raw s =
      let h = handle (try_push k) parse raw s.handler s.ring in
      record s {
        handler = h.state;
        ring = h.buffer;
        stats = record (s.stats) {
          received = add_count s.stats.received 1;
          parse_failures =
              add_count s.stats.parse_failures (is_malformed (parse raw empty_message).0);
          pushed = add_count s.stats.pushed (if h.pushed then 1 else 0);
          gaps = add_count s.stats.gaps (length h.gaps);
        };
        reported = s.reported ++ h.gaps;
      }

  unfoldable pub act : Act → Live → Live
  unfolding receive count_tick
  act (event opened) s = record s { sent = s.sent + 1 }
  act (event other) s = s
  act (event (message _ raw)) s = receive raw s
  act (event (dropped _)) s = record s {
    stats = record (s.stats) { reconnects = add_count s.stats.reconnects 1 };
    handler = on_reconnect (on_disconnect s.handler);
  }
  act poll s =
      let (ring, out) = try_pop k empty_message s.ring in
      elim out [ none ↦ s | some m ↦ record s { ring = ring; ticks = count_tick m s.ticks } ]

  unfoldable pub act_all : List Act → Live → Live
  act_all [] s = s
  act_all (a ∷ rest) s = act_all rest (act a s)

  -- A whole session: after the last event the consumer drains the ring, on fuel.
  unfoldable pub run_session : ℕ → List Act → Live → Option Live
  run_session fuel acts s =
      let stopped = act_all acts s in
      elim (drain k count_tick fuel stopped.ring stopped.ticks) [
        | none ↦ none
        | some p ↦ some (record stopped { ring = p.0; ticks = p.1 })
      ]

abbrev pub new_live : List Message → Live
new_live storage = record {
  handler = record { last_seq = []; on_gap = true };
  ring = record { head = 0; tail = 0; storage = storage };
  stats = record { received = 0; pushed = 0; parse_failures = 0; gaps = 0; reconnects = 0 };
  reported = [];
  ticks = record { btc = 0; eth = 0 };
  sent = 0;
}
