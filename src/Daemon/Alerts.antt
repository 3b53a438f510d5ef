-- ===== src/Daemon/Alerts.antt =====
-- src/feed/coinbase_daemon_main.cpp: the alerts and AlertWriter::write. How numbers and the time are
-- printed is a parameter.
pub mod Sink
pub mod Lines
pub mod Logged
pub mod Examples
use jisa.Prelude.{ℕ, List, [], ◌∷◌, ◌++◌, take}
use jisa.Prelude.Int.{ℤ}
use jisa.Double.{Double}

pub data Layer : Type 0 where
  feed rules cusum conformal : Layer

pub data Detail : Type 0 where
  gap : (from to : ℕ) → Detail
  out_of_bounds rate_violation changepoint : Detail
  score_above : (score threshold : Double) → Detail

pub record Alert : Type 0 where
  pub stream_id : ℕ
  pub ts_ns : ℤ
  pub layer : Layer
  pub detail : Detail

-- `%u`, `std::to_string`, `%lld` and `%.4f`
pub record Prints : Type 0 where
  pub print_u32 : ℕ → List ℕ
  pub print_u64 : ℕ → List ℕ
  pub print_i64 : ℤ → List ℕ
  pub print_fixed4 : Double → List ℕ

abbrev pub layer_name : Layer → List ℕ
layer_name feed = b'f' ∷ b'e' ∷ b'e' ∷ b'd' ∷ []
layer_name rules = b'r' ∷ b'u' ∷ b'l' ∷ b'e' ∷ b's' ∷ []
layer_name cusum = b'c' ∷ b'u' ∷ b's' ∷ b'u' ∷ b'm' ∷ []
layer_name conformal = b'c' ∷ b'o' ∷ b'n' ∷ b'f' ∷ b'o' ∷ b'r' ∷ b'm' ∷ b'a' ∷ b'l' ∷ []

abbrev pub gap_text : List ℕ
gap_text = b'g' ∷ b'a' ∷ b'p' ∷ b' ' ∷ b's' ∷ b'e' ∷ b'q' ∷ b' ' ∷ []

abbrev pub arrow_text : List ℕ
arrow_text = b'-' ∷ b'>' ∷ []

abbrev pub bounds_text : List ℕ
bounds_text =
    b'o' ∷ b'u' ∷ b't' ∷ b'_' ∷ b'o' ∷ b'f' ∷ b'_' ∷ b'b' ∷ b'o' ∷ b'u' ∷ b'n' ∷ b'd' ∷ b's' ∷ []

abbrev pub rate_text : List ℕ
rate_text =
    b'r' ∷ b'a' ∷ b't' ∷ b'e' ∷ b'_' ∷ b'v' ∷ b'i' ∷ b'o' ∷ b'l' ∷ b'a' ∷ b't' ∷ b'i' ∷ b'o' ∷ b'n'
    ∷ []

abbrev pub change_text : List ℕ
change_text = b'c' ∷ b'h' ∷ b'a' ∷ b'n' ∷ b'g' ∷ b'e' ∷ b'p' ∷ b'o' ∷ b'i' ∷ b'n' ∷ b't' ∷ []

abbrev pub score_text : List ℕ
score_text = b's' ∷ b'c' ∷ b'o' ∷ b'r' ∷ b'e' ∷ b'=' ∷ []

abbrev pub above_text : List ℕ
above_text = b'>' ∷ b't' ∷ b'h' ∷ b'r' ∷ b'=' ∷ []

abbrev pub stream_field : List ℕ
stream_field =
    b'{' ∷ b'"' ∷ b's' ∷ b't' ∷ b'r' ∷ b'e' ∷ b'a' ∷ b'm' ∷ b'_' ∷ b'i' ∷ b'd' ∷ b'"' ∷ b':' ∷ []

abbrev pub ts_field : List ℕ
ts_field = b',' ∷ b'"' ∷ b't' ∷ b's' ∷ b'_' ∷ b'n' ∷ b's' ∷ b'"' ∷ b':' ∷ []

abbrev pub layer_field : List ℕ
layer_field = b',' ∷ b'"' ∷ b'l' ∷ b'a' ∷ b'y' ∷ b'e' ∷ b'r' ∷ b'"' ∷ b':' ∷ b'"' ∷ []

abbrev pub detail_field : List ℕ
detail_field =
    b'"' ∷ b',' ∷ b'"' ∷ b'd' ∷ b'e' ∷ b't' ∷ b'a' ∷ b'i' ∷ b'l' ∷ b'"' ∷ b':' ∷ b'"' ∷ []

abbrev pub created_field : List ℕ
created_field =
    b'"' ∷ b',' ∷ b'"' ∷ b'c' ∷ b'r' ∷ b'e' ∷ b'a' ∷ b't' ∷ b'e' ∷ b'd' ∷ b'_' ∷ b'a' ∷ b't' ∷ b'"'
    ∷ b':' ∷ b'"' ∷ []

abbrev pub object_end : List ℕ
object_end = b'"' ∷ b'}' ∷ []

module _ (prints : Prints) where
  open prints use {print_u32, print_u64, print_i64, print_fixed4}

  -- The text of a score is cut to the 63 bytes that its buffer holds.
  unfoldable pub detail_text : Detail → List ℕ
  detail_text (gap from to) = gap_text ++ (print_u64 from ++ (arrow_text ++ print_u64 to))
  detail_text out_of_bounds = bounds_text
  detail_text rate_violation = rate_text
  detail_text changepoint = change_text
  detail_text (score_above score threshold) =
      take 63 (score_text ++ (print_fixed4 score ++ (above_text ++ print_fixed4 threshold)))

  -- The object of an alert that is written at the time `created_at`.
  unfoldable pub alert_text : List ℕ → Alert → List ℕ
  alert_text created_at a =
      stream_field
      ++ (print_u32 a.stream_id
          ++ (ts_field
              ++ (print_i64 a.ts_ns
                  ++ (layer_field
                      ++ (layer_name a.layer
                          ++ (detail_field
                              ++ (detail_text a.detail
                                  ++ (created_field ++ (created_at ++ object_end)))))))))

  -- The line that is appended to the file.
  unfoldable pub alert_line : List ℕ → Alert → List ℕ
  alert_line created_at a = alert_text created_at a ++ (10 ∷ [])
