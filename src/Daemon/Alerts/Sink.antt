-- ===== src/Daemon/Alerts/Sink.antt =====
-- src/feed/coinbase_daemon_main.cpp: AlertWriter, and the two threads that call it.
use jisa.Prelude.{
  ℕ, Bool, true, false, Option, none, some, List, [], ◌∷◌, ◌++◌, take, if◌then◌else◌,
}
use jisa.Prelude.Int.{ℤ}
use jisa.Daemon.Alerts.{Alert, Prints, alert_line}
use jisa.Daemon.Clock.{Tm, iso8601_utc}

-- The bytes of the file that `file_` writes to, if it is open.
pub record AlertWriter : Type 0 where
  pub file : Option (List ℕ)

-- `open`, from whether `fopen` succeeds and the bytes that are in the file; `"a"` keeps those.
unfoldable pub open_writer : Bool → List ℕ → AlertWriter × Bool
open_writer opens bytes =
    if opens then (record { file = some bytes }, true) else (record { file = none }, false)

-- The arguments of a call of `write`, the milliseconds that `now_unix_ms()` gives in it, and how many bytes
-- the device takes before `fflush` returns: the results of `fprintf` and `fflush` are not looked at, and
-- what the device does not take is lost. The clock is read before the mutex is taken, so that the times of
-- a run of calls can be in any order.
pub record Call : Type 0 where
  pub now : ℤ
  pub room : ℕ
  pub alert : Alert

module _ (prints : Prints) (gmtime : ℤ → Tm) where
  -- `write`. The program only calls it on a file that is open.
  unfoldable pub write : Call → AlertWriter → AlertWriter
  write c w = record {
    file = elim w.file [
      | none ↦ none
      | some bytes ↦
          some (bytes ++ take c.room (alert_line prints (iso8601_utc gmtime c.now) c.alert))
    ];
  }

  -- Calls in the order in which they take the mutex.
  unfoldable pub write_all : List Call → AlertWriter → AlertWriter
  unfolding write
  write_all [] w = w
  write_all (c ∷ cs) w = write_all cs (write c w)

-- An order of what two threads do, each in its own order.
pub data Interleaved {A : Type 0} : List A → List A → List A → Type 0 where
  done : Interleaved [] [] []
  left : {x : A} {xs ys zs : List A} → Interleaved xs ys zs → Interleaved (x ∷ xs) ys (x ∷ zs)
  right : {y : A} {xs ys zs : List A} → Interleaved xs ys zs → Interleaved xs (y ∷ ys) (y ∷ zs)
