-- ===== src/Daemon/Events.antt =====
-- src/feed/coinbase_daemon_main.cpp: what the callback of the WebSocket client does, event by event, and
-- what the callback for gaps does. The handler's `parse` is a parameter; a time comes with its event,
-- and so does what `g_running` is when the connection drops.
pub mod Counts
use jisa.Prelude.{ℕ, ◌+◌, Bool, List, [], ◌∷◌, ◌++◌, map, if◌then◌else◌, length}
use jisa.Prelude.Int.{ℤ, pos}
use jisa.Core.Message.{Message}
use jisa.Core.Spsc.{Ring, try_push}
use jisa.Feed.Handler.{
  Handler, Parser, ParseResult, ok, heartbeat, skipped, malformed, Gap, handle, on_disconnect,
  on_reconnect, empty_message,
}
use jisa.Daemon.Alerts.{Layer, Detail, Alert}
use jisa.Daemon.Pipeline.{Counters, add_count}

pub data Event : Type 0 where
  opened other : Event
  message : (now_ms : ℤ) (raw : List ℕ) → Event
  dropped : (running : Bool) → Event

-- The producer's part of the state: `sent` counts the subscriptions that were sent.
pub record Feeder : Type 0 where
  pub handler : Handler
  pub ring : Ring Message
  pub counters : Counters
  pub written : List Alert
  pub sent : ℕ

abbrev pub gap_alert : Gap → Alert
gap_alert g = record {
  stream_id = g.stream_id;
  ts_ns = pos 0;
  layer = Layer.feed;
  detail = Detail.gap g.from g.to;
}

-- The calls of the gap callback that a message makes.
unfoldable pub count_gaps : List Gap → Feeder → Feeder
count_gaps gaps f = record f {
  counters = record (f.counters) {
    gaps = add_count f.counters.gaps (length gaps);
    alerts = add_count f.counters.alerts (length gaps);
  };
  written = f.written ++ map gap_alert gaps;
}

abbrev pub is_malformed : ParseResult → ℕ
is_malformed ok = 0
is_malformed heartbeat = 0
is_malformed skipped = 0
is_malformed malformed = 1

module _ (k : ℕ) (parse : Parser) where
  unfoldable pub on_message : ℤ → List ℕ → Feeder → Feeder
  unfolding count_gaps
  on_message now_ms raw f =
      let h = handle (try_push k) parse raw f.handler f.ring in
      let g = count_gaps h.gaps f in
      record g {
        handler = h.state;
        ring = h.buffer;
        counters = record (g.counters) {
          received = add_count g.counters.received 1;
          last_message_unix_ms = now_ms;
          parse_failures =
              add_count g.counters.parse_failures (is_malformed (parse raw empty_message).0);
          pushed = add_count g.counters.pushed (if h.pushed then 1 else 0);
        };
      }

  unfoldable pub on_event : Event → Feeder → Feeder
  unfolding on_message
  on_event opened f = record f { sent = f.sent + 1 }
  on_event other f = f
  on_event (message now_ms raw) f = on_message now_ms raw f
  on_event (dropped running) f = record f {
    counters = record (f.counters) {
      reconnects = add_count f.counters.reconnects (if running then 1 else 0);
    };
    handler = on_reconnect (on_disconnect f.handler);
  }

  unfoldable pub on_events : List Event → Feeder → Feeder
  on_events [] f = f
  on_events (e ∷ es) f = on_events es (on_event e f)
