-- ===== src/Daemon/Consumer/Exit.antt =====
-- src/feed/coinbase_daemon_main.cpp: after a signal the consumer thread leaves its loops.
use jisa.Prelude.{
  ℕ, zero, suc, ◌+◌, ◌^◌, ◌≤◌, ◌≡◌, refl, sym, ap, subst, ◌∙◌, ◌≢◌, ◌⊎◌, inl, inr, Bool, true,
  false, Option, none, some, List, [], ◌∷◌, ◌++◌, arith, length, get_or, take, take_all,
  length-append,
}
use jisa.Double.{Arith}
use jisa.Core.Message.{Message}
use jisa.Core.Spsc.{Ring, try_pop}
use jisa.Core.Spsc.Counters.{capacity-le}
use jisa.Core.Spsc.Threads.Invariant.{Shape}
use jisa.Core.Spsc.Calls.{try_pop-Popped}
use jisa.Feed.Handler.{Parser, empty_message}
use jisa.Daemon.Pipeline.{Detectors}
use jisa.Daemon.EndToEnd.{Worked, work_all-Worked, new_worker}
use jisa.Daemon.Consumer.Runs.{moves-Running, consumes-Running, moves-signal}
use jisa.Daemon.Session.{
  Daemon, Turn, turn, Behind, Running, new_daemon-Running, turn-poll_some, turn-poll_none,
}
use jisa.Daemon.Consumer.{
  At, outer, inner, exited, Program, Move, consume, signal, move, moves, pushed_in, consumes,
  new_program,
}

module _ (k : ℕ) (fp : Arith) (parse : Parser) where
  abbrev next_at : Option Message → At
  next_at o = elim o [ none ↦ outer | some _ ↦ inner ]

  abbrev at_inner : Bool → Daemon → Program
  at_inner running s = record { daemon = s; running = running; at = inner }

  abbrev at_outer : Bool → Daemon → Program
  at_outer running s = record { daemon = s; running = running; at = outer }

  abbrev at_exit : Bool → Daemon → Program
  at_exit running s = record { daemon = s; running = running; at = exited }

  consumes-exited :
      (n : ℕ) (r : Bool) (s : Daemon) → consumes k fp parse n (at_exit r s) ≡ at_exit r s
  unfolding consumes move
  consumes-exited zero r s = refl
  consumes-exited (suc n) r s = consumes-exited n r s

  consumes-outer :
      (n : ℕ) (s : Daemon) → consumes k fp parse (suc n) (at_outer false s) ≡ at_exit false s
  unfolding consumes move
  consumes-outer n s = consumes-exited n false s

  inner-some :
      (r : Bool) (s : Daemon) (m : Message)
      → (try_pop k empty_message s.feeder.ring).1 ≡ some m
      → move k fp parse consume (at_inner r s) ≡ at_inner r (turn k fp parse Turn.poll s)
  unfolding move
  inner-some r s m e = rw e refl

  inner-none :
      (r : Bool) (s : Daemon)
      → (try_pop k empty_message s.feeder.ring).1 ≡ none
      → move k fp parse consume (at_inner r s) ≡ at_outer r (turn k fp parse Turn.poll s)
  unfolding move
  inner-none r s e = rw e refl

-- How the consumer leaves the inner loop: everything that waited is through.
record Emptied (k : ℕ) (pushed : List Message) (p : Program) : Type 0 where
  at : p.at ≡ exited
  empty : Shape k empty_message p.daemon.feeder.ring pushed pushed

module _ (k : ℕ) (small : k ≤ 63) (fp : Arith) (parse : Parser) (d : Detectors) where
  stopped :
      (n : ℕ) (s : Daemon) (pushed : List Message)
      → Shape k empty_message s.feeder.ring pushed pushed
      → Emptied k pushed (consumes k fp parse (suc n) (at_outer k fp parse false s))
  stopped n s pushed v =
      subst (Emptied k pushed) (sym (consumes-outer k fp parse n s))
        (record { at = refl; empty = v })

  step_inner :
      (n : ℕ) (s : Daemon) (q : Program)
      → move k fp parse consume (at_inner k fp parse false s) ≡ q
      → consumes k fp parse (suc n) (at_inner k fp parse false s) ≡ consumes k fp parse n q
  unfolding consumes
  step_inner n s q e = ap (consumes k fp parse n) e

  -- After the signal, the inner loop and one test of the flag are all that is left.
  inner-Emptied :
      (n : ℕ) (s : Daemon) (pushed popped : List Message)
      → Shape k empty_message s.feeder.ring pushed popped
      → length pushed + 2 ≤ length popped + n
      → Emptied k pushed (consumes k fp parse n (at_inner k fp parse false s))
  inner-Emptied zero s pushed popped v enough = absurd (omega (arith, v.ahead, enough))
  inner-Emptied (suc zero) s pushed popped v enough = absurd (omega (arith, v.ahead, enough))
  inner-Emptied (suc (suc n)) s pushed popped v enough =
      elim (try_pop-Popped k empty_message small s.feeder.ring pushed popped v) [
        | inl (waiting, got, shape) ↦
            let m = get_or pushed (length popped) empty_message in
            let s' = turn k fp parse Turn.poll s in
            let ring =
              ap (λ (t : Daemon). t.feeder.ring) (turn-poll_some k small fp parse d s m got) in
            let rest =
              inner-Emptied (suc n) s' pushed (popped ++ (m ∷ []))
                (subst (λ r. Shape k empty_message r pushed (popped ++ (m ∷ []))) (sym ring) shape)
                (omega (arith, enough, length-append popped (m ∷ []))) in
            subst (Emptied k pushed)
              (sym (step_inner (suc n) s _ (inner-some k fp parse false s m got))) rest
        | inr (same, stuck) ↦
            let none_left = ap (λ p. p.1) stuck in
            let s' = turn k fp parse Turn.poll s in
            let all_popped : popped ≡ pushed =
              v.order
              ∙ ap (λ n. take n pushed) same
              ∙ take_all (length pushed) pushed (omega arith) in
            let shape : Shape k empty_message s'.feeder.ring pushed pushed =
              subst (λ (t : Daemon). Shape k empty_message t.feeder.ring pushed pushed)
                (sym (turn-poll_none k small fp parse d s none_left))
                (subst (Shape k empty_message s.feeder.ring pushed) all_popped v) in
            subst (Emptied k pushed)
              (sym (step_inner (suc n) s _ (inner-none k fp parse false s none_left)))
              (stopped n s' pushed shape)
      ]

-- How a program ends up in `q` that the consumer alone has brought on from `p`.
pub record Exits (k : ℕ) (fp : Arith) (d : Detectors) (pushed : List Message) (p q : Program)
    : Type 0 where
  pub at : q.at ≡ exited
  pub behind : Behind k fp d pushed q.daemon
  pub through : (p.at ≢ inner) ⊎ (behind.popped ≡ pushed)

-- In a ring that is empty by its counters nothing waits.
all_popped :
    (k : ℕ) (r : Ring Message) (pushed popped ms : List Message)
    → k ≤ 63
    → Shape k empty_message r pushed popped
    → Shape k empty_message r ms ms
    → popped ≡ pushed
all_popped k r pushed popped ms small v e =
    let same : length popped ≡ length pushed = omega (
      arith,
      capacity-le k small,
      v.ahead,
      v.fits,
      sym v.head_at ∙ e.head_at,
      sym v.tail_at ∙ e.tail_at,
    ) in
    v.order ∙ ap (λ n. take n pushed) same ∙ take_all (length pushed) pushed (omega arith)

module _ (k : ℕ) (small : k ≤ 63) (fp : Arith) (parse : Parser) (d : Detectors) where
  -- Where the consumer stands when the flag is clear decides how it leaves.
  leaves :
      (r : Bool) (a : At) (s : Daemon) (pushed popped : List Message)
      → r ≡ false
      → Shape k empty_message s.feeder.ring pushed popped
      → let p : Program = record { daemon = s; running = r; at = a } in
        let q = consumes k fp parse (2 ^ k + 2) p in
        (q.at ≡ exited) × ((a ≢ inner) ⊎ Emptied k pushed q)
  leaves true a s pushed popped e v = cc
  leaves false inner s pushed popped e v =
      let gone =
        inner-Emptied k small fp parse d (2 ^ k + 2) s pushed popped v (omega (arith, v.fits)) in
      (gone.at, inr gone)
  leaves false outer s pushed popped e v =
      let more : suc (2 ^ k + 1) ≡ 2 ^ k + 2 = omega arith in
      let gone =
        subst
          (λ n. consumes k fp parse n (at_outer k fp parse false s) ≡ at_exit k fp parse false s)
          more (consumes-outer k fp parse (2 ^ k + 1) s) in
      (ap (λ (p : Program). p.at) gone, inl (λ e. cc))
  leaves false exited s pushed popped e v =
      (ap (λ (p : Program). p.at) (consumes-exited k fp parse (2 ^ k + 2) false s), inl (λ e. cc))

  Running-Exits :
      (p q : Program) (pushed ms : List Message)
      → Running k fp d pushed q.daemon
      → q.at ≡ exited
      → (p.at ≢ inner) ⊎ Emptied k ms q
      → Exits k fp d pushed p q
  Running-Exits p q pushed ms v at gone = record {
    at = at;
    behind = record {
      popped = v.popped;
      holds = v.shape;
      order = v.shape.order;
      waiting = v.shape.fits;
      counted = v.counted;
      worked =
          subst (Worked fp v.popped (new_worker d)) (sym v.worker)
            (work_all-Worked fp v.popped (new_worker d));
    };
    through = elim gone [
      | inl away ↦ inl away
      | inr e ↦ inr (all_popped k q.daemon.feeder.ring pushed v.popped ms small v.shape e.empty)
    ];
  }

-- After SIGINT or SIGTERM, whatever happened before it and after it, 2 ^ k + 2 steps of its own take the
-- consumer thread out of its loops, in a ring of 2 ^ k messages (k at most 63). The messages that have gone
-- through the layers by then are the first of those whose push returned true, in order, the ring holds the
-- others, at most 2 ^ k; and if the thread stood in its inner loop before those steps, all are through.
pub signal-Exits :
    (k : ℕ) (fp : Arith) (parse : Parser) (before after : List Move) (storage : List Message)
    (d : Detectors)
    → k ≤ 63
    → length storage ≡ 2 ^ k
    → let p = moves k fp parse (before ++ (signal ∷ after)) (new_program storage d) in
      Exits k fp d
        (pushed_in k fp parse (before ++ (signal ∷ after)) (new_program storage d))
        p
        (consumes k fp parse (2 ^ k + 2) p)
signal-Exits k fp parse before after storage d small room =
    let start : Program = new_program storage d in
    let p = moves k fp parse (before ++ (signal ∷ after)) start in
    let q = consumes k fp parse (2 ^ k + 2) p in
    let pushed = pushed_in k fp parse (before ++ (signal ∷ after)) start in
    let v =
      moves-Running k small fp parse d (before ++ (signal ∷ after)) start []
        (new_daemon-Running k fp storage d room) in
    let w = consumes-Running k small fp parse d (2 ^ k + 2) p pushed v in
    let (at, gone) =
      leaves k small fp parse d p.running p.at p.daemon pushed v.popped
        (moves-signal k fp parse before after start) v.shape in
    Running-Exits k small fp parse d p q pushed pushed w at gone
