-- ===== src/Daemon/Alerts/Examples.antt =====
-- src/feed/coinbase_daemon_main.cpp: alerts.jsonl after three calls of two threads.
use jisa.Prelude.{refl, inl, true, [], ◌∷◌, arith}
use jisa.Prelude.Int.{ℤ, pos}
use jisa.Daemon.Clock.{Tm, decimal, year_text, iso8601_utc}
use jisa.Daemon.Clock.Bytes.{decimal-Lacks, year_text-Lacks}
use jisa.Daemon.Alerts.{
  rules, feed, conformal, gap, out_of_bounds, score_above, Prints, alert_line, alert_text,
  detail_text,
}
use jisa.Daemon.Alerts.Sink.{Call, Interleaved, left, right, done, open_writer, write_all}
use jisa.Daemon.Alerts.Lines.{PrintsPlain}
use jisa.Daemon.Alerts.Logged.{Logged, write_all-Logged}

-- Scores are printed as if they were whole numbers.
abbrev pub digits : Prints
digits = record {
  print_u32 = decimal 20;
  print_u64 = decimal 20;
  print_i64 = year_text;
  print_fixed4 = decimal 20;
}

pub digits-PrintsPlain : PrintsPlain digits
digits-PrintsPlain = record {
  u32 = λ n. (decimal-Lacks 10 (omega arith) 20 n, decimal-Lacks b'"' (omega arith) 20 n);
  u64 = λ n. (decimal-Lacks 10 (omega arith) 20 n, decimal-Lacks b'"' (omega arith) 20 n);
  i64 = λ z. (year_text-Lacks 10 (omega arith) z, year_text-Lacks b'"' (omega arith) z);
  fixed4 = λ x. (decimal-Lacks 10 (omega arith) 20 x, decimal-Lacks b'"' (omega arith) 20 x);
}

abbrev pub midnight : ℤ → Tm
midnight z = record { year = pos 1970; month = 1; day = 1; hour = 0; minute = 0; second = 0 }

abbrev lost : Call
lost = record {
  now = pos 7;
  room = 200;
  alert = record { stream_id = 10; ts_ns = pos 0; layer = feed; detail = gap 3 5 };
}

abbrev outside : Call
outside = record {
  now = pos 5;
  room = 200;
  alert = record { stream_id = 10; ts_ns = pos 42; layer = rules; detail = out_of_bounds };
}

abbrev strange : Call
strange = record {
  now = pos 9;
  room = 200;
  alert = record { stream_id = 11; ts_ns = pos 43; layer = conformal; detail = score_above 8 2 };
}

-- The gap was written between the two alerts of the consumer.
mixed : Interleaved (lost ∷ []) (outside ∷ strange ∷ []) (outside ∷ lost ∷ strange ∷ [])
mixed = right (left (right done))

write_all-Logged_example :
    Logged digits midnight
      (lost ∷ [])
      (outside ∷ strange ∷ [])
      []
      (write_all digits midnight (outside ∷ lost ∷ strange ∷ []) (open_writer true []).0)
unfolding alert_line alert_text decimal year_text detail_text iso8601_utc
write_all-Logged_example =
    write_all-Logged digits digits-PrintsPlain midnight [] (lost ∷ []) (outside ∷ strange ∷ [])
      (outside ∷ lost ∷ strange ∷ []) (omega arith, (omega arith, (omega arith, tt))) (inl refl)
      mixed
