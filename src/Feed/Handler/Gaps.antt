-- ===== src/Feed/Handler/Gaps.antt =====
-- include/feed/handler.hpp: what the gap detection accepts and reports.
use jisa.Prelude.{
  ℕ, ◌+◌, ◌-◌, ◌≤◌, ◌<◌, ◌≡◌, ap, ◌∙◌, ◌⊎◌, true, false, ◌&&◌, Option, none, some, List, [], ◌∷◌,
  arith, ◌==◌, if◌then◌else◌, ==_iff,
}
use jisa.Prelude.Dict.{nat_key, bytes_key, find, find-put}
use jisa.Feed.Handler.{Handler, Outcome, Gap, accept_seq}

-- What one sequence number does to a stream whose last accepted number is given, if there is one.
abbrev pub Verdict : Option ℕ → ℕ → ℕ → Handler → Outcome → Type 0
Verdict none stream_id seq h o = (o.accepted ≡ true) × (o.gaps ≡ [])
Verdict (some last) stream_id seq h o =
    ((seq ≤ last) × (o.accepted ≡ false) × (o.gaps ≡ []) × (o.state ≡ h))
    ⊎ ((seq ≡ last + 1) × (o.accepted ≡ true) × (o.gaps ≡ []))
    ⊎ ((last + 1 < seq)
        × (o.accepted ≡ true)
        × (o.gaps ≡ (
            if h.on_gap then record { stream_id = stream_id; from = last; to = seq } ∷ [] else [])))

accept_seq-Verdict :
    (stream_id seq : ℕ) (h : Handler)
    → Verdict (find stream_id h.last_seq) stream_id seq h (accept_seq stream_id seq h)
unfolding accept_seq
accept_seq-Verdict stream_id seq h = ground arith

-- The table afterwards: an accepted number replaces the stream's last one, and no other stream's.
accept_seq-find :
    (stream_id seq other : ℕ) (h : Handler)
    → find other (accept_seq stream_id seq h).state.last_seq ≡ (
        if stream_id == other && (accept_seq stream_id seq h).accepted
        then some seq
        else find other h.last_seq)
unfolding accept_seq
accept_seq-find stream_id seq other h = ground (arith, find-put stream_id other seq h.last_seq)

-- Sequence numbers that are missing by the reports on stream `s`.
abbrev pub missed : ℕ → List Gap → ℕ
missed s [] = 0
missed s (g ∷ gs) = (if g.stream_id == s then g.to - g.from - 1 else 0) + missed s gs

-- What an event adds to the account of stream `s`: an accepted number, and the missing ones.
abbrev pub tally : ℕ → ℕ → Outcome → ℕ
tally s stream_id o = (if stream_id == s && o.accepted then 1 else 0) + missed s o.gaps

tally_step :
    (s stream_id seq last : ℕ) (h : Handler)
    → h.on_gap ≡ true
    → find s h.last_seq ≡ some last
    → let o = accept_seq stream_id seq h in
      (find s o.state.last_seq ≡ some (last + tally s stream_id o)) × (o.state.on_gap ≡ true)
unfolding accept_seq
tally_step s stream_id seq last h g e =
    ground (arith, find-put stream_id s seq h.last_seq, ==_iff stream_id s)

-- Arrivals on any streams, one after the other, with the account of stream `s`.
unfoldable pub account : ℕ → List (ℕ × ℕ) → Handler → Handler × ℕ
account s [] h = (h, 0)
account s ((stream_id, seq) ∷ es) h =
    let o = accept_seq stream_id seq h in
    let (h', n) = account s es o.state in (h', tally s stream_id o + n)

-- Nothing is skipped in silence: while a callback is set and the connection holds, the last number
-- of a stream goes up by exactly the numbers accepted on it and those reported missing, whatever
-- arrives on this and the other streams.
pub account-find :
    (s : ℕ) (es : List (ℕ × ℕ)) (h : Handler) (last : ℕ)
    → h.on_gap ≡ true
    → find s h.last_seq ≡ some last
    → find s (account s es h).0.last_seq ≡ some (last + (account s es h).1)
unfolding account
account-find s [] h last g e = rw e (ap some (omega arith))
account-find s ((stream_id, seq) ∷ es) h last g e =
    let o = accept_seq stream_id seq h in
    let (now, on) = tally_step s stream_id seq last h g e in
    account-find s es o.state (last + tally s stream_id o) on now ∙ ap some (omega arith)
