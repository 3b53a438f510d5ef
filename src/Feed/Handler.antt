-- ===== src/Feed/Handler.antt =====
-- include/feed/handler.hpp: FeedHandler. `parse` is a virtual method, hence a parameter; the calls of
-- `on_gap` that a step makes are returned beside the new state, and the ring buffer that `handle`
-- pushes to is any type with a `try_push`.
pub mod Gaps
pub mod Pushes
use jisa.Prelude.{
  ℕ, ◌+◌, Bool, true, false, ◌&&◌, none, some, List, [], ◌∷◌, ltb, leb, if◌then◌else◌,
}
use jisa.Prelude.Dict.{Dict, nat_key, bytes_key, find, put}
use jisa.Prelude.Int.{pos}
use jisa.Core.Message.{Message}

pub data ParseResult : Type 0 where
  ok heartbeat skipped malformed : ParseResult

-- A call `on_gap(stream_id, from, to)`.
pub record Gap : Type 0 where
  pub stream_id : ℕ
  pub from : ℕ
  pub to : ℕ

-- `last_seq_`, and whether a callback was given.
pub record Handler : Type 0 where
  pub last_seq : Dict ℕ ℕ
  pub on_gap : Bool

-- What an event does: the new state, whether the sequence number was accepted, and the gaps that
-- were reported.
pub record Outcome : Type 0 where
  pub state : Handler
  pub accepted : Bool
  pub gaps : List Gap

abbrev gap_between : Bool → ℕ → ℕ → ℕ → List Gap
gap_between on_gap stream_id last seq =
    if ltb (last + 1) seq && on_gap
    then record { stream_id = stream_id; from = last; to = seq } ∷ []
    else []

unfoldable pub accept_seq : ℕ → ℕ → Handler → Outcome
accept_seq stream_id seq h = elim (find stream_id h.last_seq) [
  | none ↦ record {
    state = record h { last_seq = put stream_id seq h.last_seq };
    accepted = true;
    gaps = [];
  }
  | some last ↦ if leb seq last then record { state = h; accepted = false; gaps = [] } else record {
    state = record h { last_seq = put stream_id seq h.last_seq };
    accepted = true;
    gaps = gap_between h.on_gap stream_id last seq;
  }
]

abbrev pub empty_message : Message
empty_message = record { stream_id = 0; ts_ns = pos 0; value = 0; seq = 0 }

-- A parse gives its result and what it wrote into `out`.
abbrev pub Parser : Type 0
Parser = List ℕ → Message → ParseResult × Message

module _ {B : Type 0} (try_push : Message → B → B × Bool) where
  -- What `handle` does: beside the outcome above the buffer, and whether a message went into it.
  pub record Handled : Type 0 where
    pub state : Handler
    pub buffer : B
    pub pushed : Bool
    pub gaps : List Gap

  unfoldable pub handle_ok : Message → Handler → B → Handled
  handle_ok out h buffer =
      let o = accept_seq out.stream_id out.seq h in
      let (buffer', done) = try_push out buffer in
      if o.accepted
      then record { state = o.state; buffer = buffer'; pushed = done; gaps = o.gaps }
      else record { state = o.state; buffer = buffer; pushed = false; gaps = o.gaps }

  unfoldable pub handle_heartbeat : Message → Handler → B → Handled
  handle_heartbeat out h buffer =
      let o = accept_seq out.stream_id out.seq h in
      record { state = o.state; buffer = buffer; pushed = false; gaps = o.gaps }

  abbrev pub dispatch : ParseResult × Message → Handler → B → Handled
  dispatch (ok, out) h buffer = handle_ok out h buffer
  dispatch (heartbeat, out) h buffer = handle_heartbeat out h buffer
  dispatch (skipped, out) h buffer = record {
    state = h;
    buffer = buffer;
    pushed = false;
    gaps = [];
  }
  dispatch (malformed, out) h buffer = record {
    state = h;
    buffer = buffer;
    pushed = false;
    gaps = [];
  }

  unfoldable pub handle : Parser → List ℕ → Handler → B → Handled
  unfolding handle_ok handle_heartbeat
  handle parse raw h buffer = dispatch (parse raw empty_message) h buffer

-- The lifecycle: only a reconnect forgets the sequence numbers.
unfoldable pub reset : Handler → Handler
reset h = record h { last_seq = [] }

unfoldable pub on_disconnect : Handler → Handler
on_disconnect h = h

unfoldable pub on_reconnect : Handler → Handler
unfolding reset
on_reconnect h = reset h

-- Sequence numbers that arrive on a stream, and a reset in between.
pub data Event : Type 0 where
  arrive : (stream_id : ℕ) (seq : ℕ) → Event
  reconnect : Event

unfoldable pub step : Event → Handler → Outcome
unfolding on_reconnect
step (arrive stream_id seq) h = accept_seq stream_id seq h
step reconnect h = record { state = on_reconnect h; accepted = false; gaps = [] }
