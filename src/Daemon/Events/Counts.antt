-- ===== src/Daemon/Events/Counts.antt =====
-- src/feed/coinbase_daemon_main.cpp: the counters of the feed's side, and what reaches the ring.
use jisa.Prelude.{
  ℕ, suc, ◌+◌, ◌%◌, ◌^◌, ◌≤◌, ◌≡◌, refl, sym, ap, subst, ◌∙◌, inl, inr, Bool, List, [], ◌∷◌, ◌++◌,
  map, append-nil, append_assoc, arith, if◌then◌else◌, Bool-cases, length, length-append,
}
use jisa.Prelude.Int.{ℤ}
use jisa.Core.Message.{Message}
use jisa.Core.Spsc.{Ring, try_push}
use jisa.Core.Spsc.Threads.Invariant.{Shape}
use jisa.Core.Spsc.Calls.{try_push-Pushed}
use jisa.Feed.Handler.{
  Handler, Parser, ParseResult, ok, heartbeat, skipped, malformed, Handled, handle, dispatch,
  handle_ok, handle_heartbeat, accept_seq, empty_message,
}
use jisa.Daemon.Alerts.{Alert}
use jisa.Daemon.Events.{
  Event, opened, other, message, dropped, Feeder, gap_alert, count_gaps, on_message, on_event,
  on_events,
}

-- The message that a call of `handle` has pushed: what was parsed, if the call returned true.
abbrev pub if_pushed : Bool → Message → List Message
if_pushed done m = if done then m ∷ [] else []

-- The messages whose push returned true, event by event.
module _ (k : ℕ) (parse : Parser) where
  unfoldable pub sent_on : Event → Handler → Ring Message → List Message
  sent_on opened h r = []
  sent_on other h r = []
  sent_on (message now_ms raw) h r =
      if_pushed (handle (try_push k) parse raw h r).pushed (parse raw empty_message).1
  sent_on (dropped running) h r = []

  unfoldable pub sent_in : List Event → Feeder → List Message
  sent_in [] f = []
  sent_in (e ∷ es) f = sent_on e f.handler f.ring ++ sent_in es (on_event k parse e f)

-- The messages that reached the ring are counted, whatever the ring had no room for.
pub record Fed (k : ℕ) (f f' : Feeder) (pushed popped : List Message) (received : ℕ)
    (sent : List Message) : Type 0 where
  pub added : List Message
  pub these : added ≡ sent
  pub shape : Shape k empty_message f'.ring (pushed ++ added) popped
  pub counted : f'.counters.pushed % 2 ^ 64 ≡ (f.counters.pushed + length added) % 2 ^ 64
  pub seen : f'.counters.received % 2 ^ 64 ≡ (f.counters.received + received) % 2 ^ 64
  pub alerts : List Alert
  pub reported : f'.written ≡ f.written ++ alerts
  pub gaps : f'.counters.gaps % 2 ^ 64 ≡ (f.counters.gaps + length alerts) % 2 ^ 64
  pub alarms : f'.counters.alerts % 2 ^ 64 ≡ (f.counters.alerts + length alerts) % 2 ^ 64

pub length-map : {A B : Type 0} (f : A → B) (xs : List A) → length (map f xs) ≡ length xs
length-map f [] = refl
length-map f (x ∷ xs) = ap suc (length-map f xs)

-- What a message does to the ring.
pub record Received (k : ℕ) (h : Handled (try_push {T = Message} k)) (pushed popped : List Message)
    (out : Message) : Type 0 where
  pub added : List Message
  pub these : added ≡ if_pushed h.pushed out
  pub shape : Shape k empty_message h.buffer (pushed ++ added) popped
  pub one : length added ≡ (if h.pushed then 1 else 0)

module _ (k : ℕ) (small : k ≤ 63) (pushed popped : List Message) where
  pub unmoved :
      (r : Ring Message)
      → Shape k empty_message r pushed popped
      → Shape k empty_message r (pushed ++ []) popped
  unmoved r v = subst (λ l. Shape k empty_message r l popped) (sym (append-nil pushed)) v

  pub dispatch-Received :
      (pr : ParseResult × Message) (h : Handler) (r : Ring Message)
      → Shape k empty_message r pushed popped
      → Received k (dispatch (try_push k) pr h r) pushed popped pr.1
  unfolding handle_ok handle_heartbeat
  dispatch-Received (ok, out) h r v =
      elim (Bool-cases (accept_seq out.stream_id out.seq h).accepted) [
        | inr old ↦ rw old (record { added = []; these = refl; shape = unmoved r v; one = refl })
        | inl new ↦ rw new (elim (try_push-Pushed k empty_message small r pushed popped out v) [
          | inl (_, done, shape) ↦
              rw done (record { added = out ∷ []; these = refl; shape = shape; one = refl })
          | inr (_, full) ↦
              rw full (record { added = []; these = refl; shape = unmoved r v; one = refl })
        ])
      ]
  dispatch-Received (heartbeat, out) h r v = record {
    added = [];
    these = refl;
    shape = unmoved r v;
    one = refl;
  }
  dispatch-Received (skipped, out) h r v = record {
    added = [];
    these = refl;
    shape = unmoved r v;
    one = refl;
  }
  dispatch-Received (malformed, out) h r v = record {
    added = [];
    these = refl;
    shape = unmoved r v;
    one = refl;
  }

abbrev pub messages_in : List Event → ℕ
messages_in [] = 0
messages_in (opened ∷ es) = messages_in es
messages_in (other ∷ es) = messages_in es
messages_in (message _ _ ∷ es) = suc (messages_in es)
messages_in (dropped _ ∷ es) = messages_in es

module _ (k : ℕ) (small : k ≤ 63) (parse : Parser) where
  on_message-Fed :
      (now_ms : ℤ) (raw : List ℕ) (f : Feeder) (pushed popped : List Message)
      → Shape k empty_message f.ring pushed popped
      → Fed k f
          (on_message k parse now_ms raw f)
          pushed
          popped
          1
          (sent_on k parse (message now_ms raw) f.handler f.ring)
  unfolding on_message count_gaps handle sent_on
  on_message-Fed now_ms raw f pushed popped v =
      let h = dispatch (try_push k) (parse raw empty_message) f.handler f.ring in
      let r =
        dispatch-Received k small pushed popped (parse raw empty_message) f.handler f.ring v in
      record {
        added = r.added;
        these = r.these;
        shape = r.shape;
        counted = omega (arith, r.one);
        seen = omega arith;
        alerts = map gap_alert h.gaps;
        reported = refl;
        gaps = omega (arith, length-map gap_alert h.gaps);
        alarms = omega (arith, length-map gap_alert h.gaps);
      }

  unseen :
      (f : Feeder) (handler : Handler) (reconnects sent : ℕ) (pushed popped : List Message)
      → Shape k empty_message f.ring pushed popped
      → Fed k f
          (record f {
            handler = handler;
            counters = record (f.counters) { reconnects = reconnects };
            sent = sent;
          })
          pushed
          popped
          0
          []
  unseen f handler reconnects sent pushed popped v = record {
    added = [];
    these = refl;
    shape = unmoved k small pushed popped f.ring v;
    counted = omega arith;
    seen = omega arith;
    alerts = [];
    reported = rw (append-nil f.written) refl;
    gaps = omega arith;
    alarms = omega arith;
  }

  pub on_event-Fed :
      (e : Event) (f : Feeder) (pushed popped : List Message)
      → Shape k empty_message f.ring pushed popped
      → Fed k f
          (on_event k parse e f)
          pushed
          popped
          (messages_in (e ∷ []))
          (sent_on k parse e f.handler f.ring)
  unfolding on_event sent_on
  on_event-Fed opened f pushed popped v =
      unseen f f.handler f.counters.reconnects (f.sent + 1) pushed popped v
  on_event-Fed other f pushed popped v =
      unseen f f.handler f.counters.reconnects f.sent pushed popped v
  on_event-Fed (message now_ms raw) f pushed popped v = on_message-Fed now_ms raw f pushed popped v
  on_event-Fed (dropped running) f pushed popped v = unseen f _ _ f.sent pushed popped v

  Fed-trans :
      (f g h : Feeder) (pushed popped : List Message) (a b : ℕ) (xs ys : List Message)
      (v : Fed k f g pushed popped a xs)
      → Fed k g h (pushed ++ v.added) popped b ys
      → Fed k f h pushed popped (a + b) (xs ++ ys)
  Fed-trans f g h pushed popped a b xs ys v w = record {
    added = v.added ++ w.added;
    these = rw (v.these, w.these) refl;
    shape =
        subst (λ l. Shape k empty_message h.ring l popped) (append_assoc pushed v.added w.added)
          w.shape;
    counted = omega (arith, v.counted, w.counted, length-append v.added w.added);
    seen = omega (arith, v.seen, w.seen);
    alerts = v.alerts ++ w.alerts;
    reported =
        w.reported ∙ ap (λ l. l ++ w.alerts) v.reported ∙ append_assoc f.written v.alerts w.alerts;
    gaps = omega (arith, v.gaps, w.gaps, length-append v.alerts w.alerts);
    alarms = omega (arith, v.alarms, w.alarms, length-append v.alerts w.alerts);
  }

  messages_in-cons :
      (e : Event) (es : List Event) → messages_in (e ∷ []) + messages_in es ≡ messages_in (e ∷ es)
  messages_in-cons opened es = omega arith
  messages_in-cons other es = omega arith
  messages_in-cons (message _ _) es = omega arith
  messages_in-cons (dropped _) es = omega arith

  pub on_events-Fed :
      (es : List Event) (f : Feeder) (pushed popped : List Message)
      → Shape k empty_message f.ring pushed popped
      → Fed k f (on_events k parse es f) pushed popped (messages_in es) (sent_in k parse es f)
  unfolding on_events sent_in
  on_events-Fed [] f pushed popped v =
      unseen f f.handler f.counters.reconnects f.sent pushed popped v
  on_events-Fed (e ∷ es) f pushed popped v =
      let one = on_event-Fed e f pushed popped v in
      let sent = sent_on k parse e f.handler f.ring in
      let later = sent_in k parse es (on_event k parse e f) in
      let last = on_events k parse es (on_event k parse e f) in
      subst (λ n. Fed k f last pushed popped n (sent ++ later)) (messages_in-cons e es)
        (Fed-trans f (on_event k parse e f) last pushed popped (messages_in (e ∷ []))
          (messages_in es) sent later one
          (on_events-Fed es (on_event k parse e f) (pushed ++ one.added) popped one.shape))
