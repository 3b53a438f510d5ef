-- ===== src/Daemon/Consumer/Runs.antt =====
-- src/feed/coinbase_daemon_main.cpp: what holds between the steps of a run, and the flag stays cleared.
use jisa.Prelude.{
  ℕ, zero, suc, ◌≡◌, refl, sym, false, List, [], ◌∷◌, ◌++◌, arith, ◌≤◌, inl, inr, subst, append-nil,
  append_assoc, Bool-cases,
}
use jisa.Double.{Arith}
use jisa.Feed.Handler.{Parser}
use jisa.Core.Message.{Message}
use jisa.Daemon.Pipeline.{Detectors}
use jisa.Daemon.Events.Counts.{sent_on}
use jisa.Daemon.Session.{Running, turn-event, turn-poll}
use jisa.Daemon.Consumer.{
  At, outer, inner, exited, Program, Move, event, consume, signal, with_flag, consume_at, move,
  moves, pushed_in, consumes,
}

module _ (k : ℕ) (small : k ≤ 63) (fp : Arith) (parse : Parser) (d : Detectors) where
  pub consume-Running :
      (a : At) (p : Program) (pushed : List Message)
      → Running k fp d pushed p.daemon
      → Running k fp d pushed (consume_at k fp parse a p).daemon
  unfolding consume_at
  consume-Running outer p pushed v = elim (Bool-cases p.running) [
    | inl on ↦ rw on v
    | inr off ↦ rw off v
  ]
  consume-Running inner p pushed v = turn-poll k small fp parse d p.daemon pushed v
  consume-Running exited p pushed v = v

  pub moves-Running :
      (ms : List Move) (p : Program) (pushed : List Message)
      → Running k fp d pushed p.daemon
      → Running k fp d (pushed ++ pushed_in k fp parse ms p) (moves k fp parse ms p).daemon
  unfolding moves move pushed_in
  moves-Running [] p pushed v = subst (λ l. Running k fp d l p.daemon) (sym (append-nil pushed)) v
  moves-Running (event e ∷ ms) p pushed v =
      let e' = with_flag p.running e in
      let sent = sent_on k parse e' p.daemon.feeder.handler p.daemon.feeder.ring in
      let p' = move k fp parse (event e) p in
      subst (λ l. Running k fp d l (moves k fp parse ms p').daemon)
        (append_assoc pushed sent (pushed_in k fp parse ms p'))
        (moves-Running ms p' (pushed ++ sent) (turn-event k small fp parse d e' p.daemon pushed v))
  moves-Running (consume ∷ ms) p pushed v =
      moves-Running ms (move k fp parse consume p) pushed (consume-Running p.at p pushed v)
  moves-Running (signal ∷ ms) p pushed v = moves-Running ms (move k fp parse signal p) pushed v

  -- The consumer's own steps push nothing.
  pub consumes-Running :
      (n : ℕ) (p : Program) (pushed : List Message)
      → Running k fp d pushed p.daemon
      → Running k fp d pushed (consumes k fp parse n p).daemon
  unfolding consumes move
  consumes-Running zero p pushed v = v
  consumes-Running (suc n) p pushed v =
      consumes-Running n (move k fp parse consume p) pushed (consume-Running p.at p pushed v)

module _ (k : ℕ) (fp : Arith) (parse : Parser) where
  consume_at-running :
      (a : At) (p : Program) → p.running ≡ false → (consume_at k fp parse a p).running ≡ false
  unfolding consume_at
  consume_at-running outer p e = ground (arith, e)
  consume_at-running inner p e = e
  consume_at-running exited p e = e

  -- The flag stays cleared.
  moves-running :
      (ms : List Move) (p : Program) → p.running ≡ false → (moves k fp parse ms p).running ≡ false
  unfolding moves move
  moves-running [] p e = e
  moves-running (event x ∷ ms) p e = moves-running ms (move k fp parse (event x) p) e
  moves-running (consume ∷ ms) p e =
      moves-running ms (move k fp parse consume p) (consume_at-running p.at p e)
  moves-running (signal ∷ ms) p e = moves-running ms (move k fp parse signal p) refl

  pub moves-signal :
      (before after : List Move) (p : Program)
      → (moves k fp parse (before ++ (signal ∷ after)) p).running ≡ false
  unfolding moves move
  moves-signal [] after p = moves-running after (move k fp parse signal p) refl
  moves-signal (m ∷ before) after p = moves-signal before after (move k fp parse m p)
