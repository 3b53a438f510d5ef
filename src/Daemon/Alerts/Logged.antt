-- ===== src/Daemon/Alerts/Logged.antt =====
-- src/feed/coinbase_daemon_main.cpp: alerts.jsonl after the calls of two threads, read again.
use jisa.Prelude.{
  ℕ, ◌≡◌, sym, ap, ◌∙◌, inr, true, some, List, [], ◌∷◌, ◌++◌, map, append-nil, append_assoc, arith,
  All, length, ◌≤◌, take_all,
}
use mathlib.Core.List.{map-append}
use jisa.Prelude.Int.{ℤ}
use jisa.Prelude.Text.{WholeLines, lines, lines_from, lines-append, lines-WholeLines, split_all}
use jisa.Daemon.Clock.{Tm, iso8601_utc}
use jisa.Daemon.Clock.Bytes.{iso8601_utc-Lacks}
use jisa.Daemon.Alerts.{Prints, alert_text, alert_line}
use jisa.Daemon.Alerts.Sink.{
  AlertWriter, Call, open_writer, write_all, Interleaved, done, left, right,
}
use jisa.Daemon.Alerts.Lines.{
  Plain, PrintsPlain, alert_fields, split_all-alert_text, alert_text-Lacks,
}

-- What a text holds, line by line, between the quotes.
abbrev pub objects : List ℕ → List (List ℕ × List (List ℕ))
objects bytes = map (split_all b'"') (lines bytes)

Interleaved-map :
    {A B : Type 0} (f : A → B) {xs ys zs : List A}
    → Interleaved xs ys zs
    → Interleaved (map f xs) (map f ys) (map f zs)
Interleaved-map f done = done
Interleaved-map f (left v) = left (Interleaved-map f v)
Interleaved-map f (right v) = right (Interleaved-map f v)

-- The device takes the whole line of a call.
abbrev pub IsWhole : Prints → (ℤ → Tm) → Call → Type 0
IsWhole prints gmtime c = length (alert_line prints (iso8601_utc gmtime c.now) c.alert) ≤ c.room

module _ (prints : Prints) (plain : PrintsPlain prints) (gmtime : ℤ → Tm) where
  time-Plain : (now : ℤ) → Plain (iso8601_utc gmtime now)
  time-Plain now = (
    iso8601_utc-Lacks 10 (omega arith) gmtime now,
    iso8601_utc-Lacks b'"' (omega arith) gmtime now,
  )

  abbrev call_fields : Call → List ℕ × List (List ℕ)
  call_fields c = alert_fields prints (iso8601_utc gmtime c.now) c.alert

  -- The bytes that a call appends.
  abbrev line_of : Call → List ℕ
  line_of c = alert_line prints (iso8601_utc gmtime c.now) c.alert

  -- A call appends one object.
  objects-line :
      (c : Call) (old : List ℕ)
      → WholeLines old
      → objects (old ++ line_of c) ≡ objects old ++ (call_fields c ∷ [])
  unfolding alert_line lines lines_from
  objects-line c old whole =
      let text : List ℕ = alert_text prints (iso8601_utc gmtime c.now) c.alert in
      ap (map (split_all b'"')) (
        lines-WholeLines old (text ++ (10 ∷ [])) whole
        ∙ ap (λ l. lines old ++ l)
            (lines-append text [] (alert_text-Lacks prints plain _ (time-Plain c.now) c.alert)))
      ∙ map-append (split_all b'"') (lines old) (text ∷ lines [])
      ∙ ap (λ o. objects old ++ (o ∷ objects []))
          (split_all-alert_text prints plain _ (time-Plain c.now) c.alert)

  line_of-WholeLines : (c : Call) (old : List ℕ) → WholeLines (old ++ line_of c)
  unfolding alert_line
  line_of-WholeLines c old =
      let text : List ℕ = alert_text prints (iso8601_utc gmtime c.now) c.alert in
      inr (old ++ text, sym (append_assoc old text (10 ∷ [])))

  -- What a file is that holds `old` and then these calls.
  record Appended (cs : List Call) (old : List ℕ) (w : AlertWriter) : Type 0 where
    more : List ℕ
    bytes : w.file ≡ some (old ++ more)
    read : objects (old ++ more) ≡ objects old ++ map call_fields cs

  write_all-Appended :
      (cs : List Call) (old : List ℕ)
      → All (IsWhole prints gmtime) cs
      → WholeLines old
      → Appended cs old (write_all prints gmtime cs (record { file = some old }))
  unfolding write_all
  write_all-Appended [] old fits whole = record {
    more = [];
    bytes = ap some (sym (append-nil old));
    read = ap objects (append-nil old) ∙ sym (append-nil (objects old));
  }
  write_all-Appended (c ∷ cs) old fits whole =
      let rest = write_all-Appended cs (old ++ line_of c) fits.1 (line_of-WholeLines c old) in
      let assoc = append_assoc old (line_of c) rest.more in
      record {
        more = line_of c ++ rest.more;
        bytes =
            ap (λ l. (write_all prints gmtime cs (record { file = some (old ++ l) })).file)
              (take_all c.room (line_of c) fits.0)
            ∙ rest.bytes
            ∙ ap some assoc;
        read =
            ap objects (sym assoc)
            ∙ rest.read
            ∙ ap (λ o. o ++ map call_fields cs) (objects-line c old whole)
            ∙ append_assoc (objects old) (call_fields c ∷ []) (map call_fields cs);
      }

-- What alerts.jsonl is, read again, after the calls `xs` of one thread and `ys` of another.
pub record Logged (prints : Prints) (gmtime : ℤ → Tm) (xs ys : List Call) (old : List ℕ)
    (w : AlertWriter) : Type 0 where
  pub more : List ℕ
  pub bytes : w.file ≡ some (old ++ more)
  pub added : List (List ℕ × List (List ℕ))
  pub order :
      Interleaved
        (map (λ c. alert_fields prints (iso8601_utc gmtime c.now) c.alert) xs)
        (map (λ c. alert_fields prints (iso8601_utc gmtime c.now) c.alert) ys)
        added
  pub read : objects (old ++ more) ≡ objects old ++ added

-- If alerts.jsonl held whole lines when it was opened, the device took the whole line in every call, and
-- printed numbers hold no quote and no newline:
-- after the calls of the two threads, in whatever order they took the mutex, the file holds what it held,
-- and behind it, read line by line and quote by quote, one object for each call, with the fields of that
-- call and those of each thread in that thread's order.
pub write_all-Logged :
    (prints : Prints)
    → PrintsPlain prints
    → (gmtime : ℤ → Tm) (old : List ℕ) (xs ys zs : List Call) → All (IsWhole prints gmtime) zs
    → WholeLines old
    → Interleaved xs ys zs
    → Logged prints gmtime xs ys old (write_all prints gmtime zs (open_writer true old).0)
unfolding open_writer
write_all-Logged prints plain gmtime old xs ys zs fits whole mixed =
    let all = write_all-Appended prints plain gmtime zs old fits whole in
    record {
      more = all.more;
      bytes = all.bytes;
      added = map (λ c. alert_fields prints (iso8601_utc gmtime c.now) c.alert) zs;
      order = Interleaved-map (λ c. alert_fields prints (iso8601_utc gmtime c.now) c.alert) mixed;
      read = all.read;
    }
