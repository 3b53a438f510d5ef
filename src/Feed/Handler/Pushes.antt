-- ===== src/Feed/Handler/Pushes.antt =====
-- include/feed/handler.hpp: what `handle` lets through to the ring buffer.
use jisa.Prelude.{ℕ, ◌<◌, ◌≡◌, refl, ◌⊎◌, Bool, true, none, some, List, arith, ==_iff}
use jisa.Prelude.Dict.{nat_key, bytes_key, find, find-put}
use jisa.Core.Message.{Message}
use jisa.Feed.Handler.{
  Handler, ParseResult, ok, heartbeat, skipped, malformed, Parser, accept_seq, handle, Handled,
  handle_ok, handle_heartbeat, dispatch, empty_message,
}

module _ {B : Type 0} (try_push : Message → B → B × Bool) (parse : Parser) (raw : List ℕ) where
  abbrev Pushes : ParseResult × Message → Handler → B → Handled try_push → Type 0
  Pushes (r, out) h buffer after =
      (r ≡ ok)
      × ((find out.stream_id h.last_seq ≡ none)
          ⊎ ((last : ℕ) × (find out.stream_id h.last_seq ≡ some last) × (last < out.seq)))
      × (find out.stream_id after.state.last_seq ≡ some out.seq)
      × (try_push out buffer ≡ (after.buffer, true))

  dispatch-Pushes :
      (pr : ParseResult × Message) (h : Handler) (buffer : B)
      → (dispatch try_push pr h buffer).pushed ≡ true
      → Pushes pr h buffer (dispatch try_push pr h buffer)
  unfolding handle_ok handle_heartbeat accept_seq
  dispatch-Pushes (ok, out) h buffer p = ground (
    arith,
    find-put out.stream_id out.stream_id out.seq h.last_seq,
    (==_iff out.stream_id out.stream_id).1 refl,
  )
  dispatch-Pushes (heartbeat, out) h buffer p = cc
  dispatch-Pushes (skipped, out) h buffer p = cc
  dispatch-Pushes (malformed, out) h buffer p = cc

  -- A message that `handle` pushes was parsed as a tick, is newer than the last one of its stream,
  -- becomes that last one, and is what went into the buffer.
  pub handle_pushes :
      (h : Handler) (buffer : B)
      → (handle try_push parse raw h buffer).pushed ≡ true
      → let (r, out) = parse raw empty_message in
        let after = handle try_push parse raw h buffer in
        (r ≡ ok)
        × ((find out.stream_id h.last_seq ≡ none)
            ⊎ ((last : ℕ) × (find out.stream_id h.last_seq ≡ some last) × (last < out.seq)))
        × (find out.stream_id after.state.last_seq ≡ some out.seq)
        × (try_push out buffer ≡ (after.buffer, true))
  unfolding handle
  handle_pushes h buffer p = dispatch-Pushes (parse raw empty_message) h buffer p
