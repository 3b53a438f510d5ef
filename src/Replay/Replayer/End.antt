-- ===== src/Replay/Replayer/End.antt =====
-- include/replay/replayer.hpp: `next` after the end.
use jisa.Prelude.{
  ◌≤◌, ◌<◌, ◌≡◌, refl, sym, subst, inl, inr, true, false, none, [], arith, length, drop_all,
  if◌then◌else◌, Bool-cases, length-take, ltb, ◌≢◌, ltb-false→le, ltb-true→lt,
}
use jisa.Replay.Format.{record_size}
use jisa.Replay.Replayer.{Replayer, is_ok, next}

next_ok : (r : Replayer) → is_ok r.status ≡ false → next r ≡ (none, r)
unfolding next
next_ok r bad = rw (next, bad) refl

next_end :
    (r : Replayer)
    → is_ok r.status ≡ true
    → length r.file < record_size
    → next r ≡ (
      none,
      record r { file = []; truncated = if ltb 0 (length r.file) then true else r.truncated },
    )
unfolding next
next_end r good short =
    ground (arith, good, drop_all record_size r.file, length-take record_size r.file)

next_more : (r : Replayer) → is_ok r.status ≡ true → record_size ≤ length r.file → (next r).0 ≢ none
unfolding next
next_more r good long = ground (arith, good, length-take record_size r.file)

-- Once `next` has given nothing, it gives nothing again and changes nothing.
pub next_stays : (r : Replayer) → (next r).0 ≡ none → next (next r).1 ≡ (none, (next r).1)
next_stays r e = elim (Bool-cases (is_ok r.status)) [
  | inr bad ↦ subst (λ p. next p.1 ≡ (none, p.1)) {y = next r} (sym (next_ok r bad)) (next_ok r bad)
  | inl good ↦ elim (Bool-cases (ltb (length r.file) record_size)) [
    | inr long ↦ absurd (next_more r good (ltb-false→le _ _ long) e)
    | inl short ↦
        let last : Replayer = record r {
          file = [];
          truncated = if ltb 0 (length r.file) then true else r.truncated;
        } in
        let ends : next r ≡ (none, last) = next_end r good (ltb-true→lt _ _ short) in
        subst (λ p. next p.1 ≡ (none, p.1)) {y = next r} (sym ends)
          (next_end last good (omega arith))
  ]
]
