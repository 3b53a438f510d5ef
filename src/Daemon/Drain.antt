-- ===== src/Daemon/Drain.antt =====
-- src/feed/coinbase_daemon_main.cpp and coinbase_live_main.cpp: the loop `while (ring.try_pop(m))` of a
-- consumer, whatever it does with a message.
use jisa.Prelude.{
  ℕ, zero, suc, ◌+◌, ◌≤◌, ◌<◌, ◌≡◌, sym, ap, subst, ◌∙◌, inl, inr, Option, none, some, List, [],
  ◌∷◌, ◌++◌, arith, length, get_or, take, drop, length-append, take_all, drop_all, drop_at,
}
use jisa.Core.Message.{Message}
use jisa.Core.Spsc.{Ring, try_pop}
use jisa.Core.Spsc.Threads.Invariant.{Shape}
use jisa.Core.Spsc.Calls.{try_pop-Popped}
use jisa.Feed.Handler.{empty_message}

-- The messages, one after the other.
abbrev pub work_all : {S : Type 0} → (Message → S → S) → List Message → S → S
work_all work [] s = s
work_all work (m ∷ ms) s = work_all work ms (work m s)

module _ {S : Type 0} (k : ℕ) (work : Message → S → S) where
  -- The loop, on fuel: nothing if it runs out.
  unfoldable pub drain : ℕ → Ring Message → S → Option (Ring Message × S)
  drain zero r s = none
  drain (suc fuel) r s =
      let (r', out) = try_pop k empty_message r in
      elim out [ none ↦ some (r', s) | some m ↦ drain fuel r' (work m s) ]

  drain-none :
      (fuel : ℕ) (r : Ring Message) (s : S)
      → try_pop k empty_message r ≡ (r, none)
      → drain (suc fuel) r s ≡ some (r, s)
  unfolding drain
  drain-none fuel r s e = ground (arith, e)

  drain-some :
      (fuel : ℕ) (r : Ring Message) (s : S) (m : Message)
      → (try_pop k empty_message r).1 ≡ some m
      → drain (suc fuel) r s ≡ drain fuel (try_pop k empty_message r).0 (work m s)
  unfolding drain
  drain-some fuel r s m e = ground (arith, e)

  -- On a well-formed ring with fewer messages waiting than the fuel, the loop ends: it has done its
  -- work on exactly the messages that waited, oldest first, and the ring is empty.
  pub drain-work_all :
      (fuel : ℕ) (r : Ring Message) (s : S) (pushed popped : List Message)
      → k ≤ 63
      → Shape k empty_message r pushed popped
      → length pushed < length popped + fuel
      → (last : Ring Message) × (drain fuel r s
          ≡ some (last, work_all work (drop (length popped) pushed) s))
        × Shape k empty_message last pushed pushed
  drain-work_all zero r s pushed popped small v lt = absurd (omega (arith, v.ahead, lt))
  drain-work_all (suc fuel) r s pushed popped small v lt =
      elim (try_pop-Popped k empty_message small r pushed popped v) [
        | inl (waiting, got, shape) ↦
            let m = get_or pushed (length popped) empty_message in
            let next = length-append popped (m ∷ []) in
            let (last, run, done) =
              drain-work_all fuel (try_pop k empty_message r).0 (work m s) pushed
                (popped ++ (m ∷ [])) small shape (omega (arith, next, lt)) in
            let step : drop (length popped) pushed ≡ m ∷ drop (length (popped ++ (m ∷ []))) pushed =
              drop_at (length popped) pushed empty_message waiting
              ∙ ap (λ n. m ∷ drop n pushed) {x = suc (length popped)}
                  {y = length (popped ++ (m ∷ []))} (omega (arith, next)) in
            (
              last,
              drain-some fuel r s m got ∙ run ∙ ap (λ l. some (last, work_all work l s)) (sym step),
              done,
            )
        | inr (same, stuck) ↦
            let all_popped : popped ≡ pushed =
              v.order
              ∙ ap (λ n. take n pushed) same
              ∙ take_all (length pushed) pushed (omega arith) in
            (
              r,
              drain-none fuel r s stuck
                  ∙ ap (λ l. some (r, work_all work l s))
                      (sym (drop_all (length popped) pushed (omega (arith, same)))),
              subst (Shape k empty_message r pushed) all_popped v,
            )
      ]
