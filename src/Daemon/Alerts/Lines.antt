-- ===== src/Daemon/Alerts/Lines.antt =====
-- src/feed/coinbase_daemon_main.cpp: alerts.jsonl, read line by line.
use jisa.Prelude.{
  ℕ, zero, suc, ◌≡◌, refl, true, ◌&&◌, List, [], ◌∷◌, ◌++◌, append-nil, arith, take, All-append,
}
use jisa.Prelude.Int.{ℤ}
use jisa.Double.{Double}
use jisa.Prelude.Text.{Lacks, lacks, lacks-Lacks, split_all, split_all-append}
use jisa.Daemon.Alerts.{
  Layer, feed, rules, cusum, conformal, Detail, gap, out_of_bounds, rate_violation, changepoint,
  score_above, Alert, Prints, layer_name, detail_text, alert_text, gap_text, arrow_text,
  bounds_text, rate_text, change_text, score_text, above_text, stream_field, ts_field, layer_field,
  detail_field, created_field, object_end,
}

-- A text that is on one line and ends no string.
abbrev pub Plain : List ℕ → Type 0
Plain s = Lacks 10 s × Lacks b'"' s

-- What is printed of a number is such a text.
pub record PrintsPlain (prints : Prints) : Type 0 where
  pub u32 : (n : ℕ) → Plain (prints.print_u32 n)
  pub u64 : (n : ℕ) → Plain (prints.print_u64 n)
  pub i64 : (z : ℤ) → Plain (prints.print_i64 z)
  pub fixed4 : (x : Double) → Plain (prints.print_fixed4 x)

constant-Plain : (s : List ℕ) → lacks 10 s && lacks b'"' s ≡ true → Plain s
constant-Plain s e = (lacks-Lacks 10 s (ground (arith, e)), lacks-Lacks b'"' s (ground (arith, e)))

append-Plain : (a b : List ℕ) → Plain a → Plain b → Plain (a ++ b)
append-Plain a b p q = (All-append _ a b p.0 q.0, All-append _ a b p.1 q.1)

Lacks-take : (sep k : ℕ) (s : List ℕ) → Lacks sep s → Lacks sep (take k s)
Lacks-take sep zero s v = tt
Lacks-take sep (suc k) [] v = tt
Lacks-take sep (suc k) (c ∷ s) v = (v.0, Lacks-take sep k s v.1)

layer_name-Plain : (l : Layer) → Plain (layer_name l)
unfolding lacks
layer_name-Plain feed = constant-Plain (layer_name feed) refl
layer_name-Plain rules = constant-Plain (layer_name rules) refl
layer_name-Plain cusum = constant-Plain (layer_name cusum) refl
layer_name-Plain conformal = constant-Plain (layer_name conformal) refl

score-Plain :
    (score threshold : List ℕ)
    → Plain score
    → Plain threshold
    → Plain (take 63 (score_text ++ (score ++ (above_text ++ threshold))))
unfolding lacks
score-Plain score threshold p q =
    let text : List ℕ = score_text ++ (score ++ (above_text ++ threshold)) in
    let whole : Plain text =
      append-Plain score_text (score ++ (above_text ++ threshold)) (constant-Plain score_text refl)
        (append-Plain score (above_text ++ threshold) p
          (append-Plain above_text threshold (constant-Plain above_text refl) q)) in
    (Lacks-take 10 63 text whole.0, Lacks-take b'"' 63 text whole.1)

module _ (prints : Prints) (plain : PrintsPlain prints) where
  pub detail_text-Plain : (d : Detail) → Plain (detail_text prints d)
  unfolding detail_text lacks
  detail_text-Plain (gap from to) = append-Plain gap_text _ (constant-Plain gap_text refl) (
      append-Plain _ _ (plain.u64 from)
        (append-Plain arrow_text _ (constant-Plain arrow_text refl) (plain.u64 to)))
  detail_text-Plain out_of_bounds = constant-Plain bounds_text refl
  detail_text-Plain rate_violation = constant-Plain rate_text refl
  detail_text-Plain changepoint = constant-Plain change_text refl
  detail_text-Plain (score_above score threshold) =
      score-Plain (prints.print_fixed4 score) (prints.print_fixed4 threshold) (plain.fixed4 score)
        (plain.fixed4 threshold)

-- What stands between the quotes of an alert's object, for its numbers and its three texts.
abbrev fields_of : (stream ts layer detail created_at : List ℕ) → List ℕ × List (List ℕ)
fields_of stream ts layer detail created_at = (
  b'{' ∷ [],
  (b's' ∷ b't' ∷ b'r' ∷ b'e' ∷ b'a' ∷ b'm' ∷ b'_' ∷ b'i' ∷ b'd' ∷ [])
      ∷ (b':' ∷ stream ++ (b',' ∷ []))
      ∷ (b't' ∷ b's' ∷ b'_' ∷ b'n' ∷ b's' ∷ [])
      ∷ (b':' ∷ ts ++ (b',' ∷ []))
      ∷ (b'l' ∷ b'a' ∷ b'y' ∷ b'e' ∷ b'r' ∷ [])
      ∷ (b':' ∷ [])
      ∷ layer
      ∷ (b',' ∷ [])
      ∷ (b'd' ∷ b'e' ∷ b't' ∷ b'a' ∷ b'i' ∷ b'l' ∷ [])
      ∷ (b':' ∷ [])
      ∷ detail
      ∷ (b',' ∷ [])
      ∷ (b'c' ∷ b'r' ∷ b'e' ∷ b'a' ∷ b't' ∷ b'e' ∷ b'd' ∷ b'_' ∷ b'a' ∷ b't' ∷ [])
      ∷ (b':' ∷ [])
      ∷ created_at
      ∷ (b'}' ∷ [])
      ∷ [],
)

abbrev pub alert_fields : Prints → List ℕ → Alert → List ℕ × List (List ℕ)
alert_fields prints created_at a =
    fields_of (prints.print_u32 a.stream_id) (prints.print_i64 a.ts_ns) (layer_name a.layer)
      (detail_text prints a.detail) created_at

module _ (prints : Prints) (plain : PrintsPlain prints) (created_at : List ℕ)
    (time : Plain created_at) (a : Alert) where
  pub split_all-alert_text :
      split_all b'"' (alert_text prints created_at a) ≡ alert_fields prints created_at a
  unfolding split_all alert_text
  split_all-alert_text =
      rw
        (
          split_all-append b'"' (prints.print_u32 a.stream_id) _ (plain.u32 a.stream_id).1,
          split_all-append b'"' (prints.print_i64 a.ts_ns) _ (plain.i64 a.ts_ns).1,
          split_all-append b'"' (layer_name a.layer) _ (layer_name-Plain a.layer).1,
          split_all-append b'"' (detail_text prints a.detail) _
              (detail_text-Plain prints plain a.detail).1,
          split_all-append b'"' created_at _ time.1,
        )
        (λ i.
          fields_of (prints.print_u32 a.stream_id) (prints.print_i64 a.ts_ns)
            (append-nil (layer_name a.layer) i) (append-nil (detail_text prints a.detail) i)
            (append-nil created_at i))

  pub alert_text-Lacks : Lacks 10 (alert_text prints created_at a)
  unfolding alert_text lacks
  alert_text-Lacks = All-append _ stream_field _ (lacks-Lacks 10 stream_field refl) (
      All-append _ _ _ (plain.u32 a.stream_id).0 (
        All-append _ ts_field _ (lacks-Lacks 10 ts_field refl) (
          All-append _ _ _ (plain.i64 a.ts_ns).0 (
            All-append _ layer_field _ (lacks-Lacks 10 layer_field refl) (
              All-append _ _ _ (layer_name-Plain a.layer).0 (
                All-append _ detail_field _ (lacks-Lacks 10 detail_field refl) (
                  All-append _ _ _ (detail_text-Plain prints plain a.detail).0 (
                    All-append _ created_field _ (lacks-Lacks 10 created_field refl)
                      (All-append _ _ _ time.0 (lacks-Lacks 10 object_end refl))))))))))
