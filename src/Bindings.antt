-- ===== src/Bindings.antt =====
-- src/bindings/bindings.cpp: what the Python module does beyond passing calls on. How pybind11 converts a Python
-- value to an argument is a parameter; a conversion that fails raises TypeError.
pub mod Iteration
mod Examples
use jisa.Prelude.{ℕ, zero, suc, Option, none, some, List, [], ◌∷◌, ◌<◌, ◌^◌, ◌≡◌}
use jisa.Prelude.Int.{ℤ, IsInt64}
use jisa.Double.{Double}
use jisa.Core.Message.{Message}
use jisa.Feed.Time.{◌>>=◌}
use jisa.Replay.Replayer.{Replayer, next, push_front}

-- The conversions to the types of the arguments.
pub record Casts (PyObject : Type 0) : Type 0 where
  pub to_u32 : PyObject → Option ℕ
  pub to_i64 : PyObject → Option ℤ
  pub to_double : PyObject → Option Double
  pub to_u64 : PyObject → Option ℕ

-- What they give fits the types.
pub record CastsInRange {PyObject : Type 0} (casts : Casts PyObject) : Type 0 where
  pub u32 : (v : PyObject) (n : ℕ) → casts.to_u32 v ≡ some n → n < 2 ^ 32
  pub i64 : (v : PyObject) (z : ℤ) → casts.to_i64 v ≡ some z → IsInt64 z
  pub double : (v : PyObject) (x : Double) → casts.to_double v ≡ some x → x < 2 ^ 64
  pub u64 : (v : PyObject) (n : ℕ) → casts.to_u64 v ≡ some n → n < 2 ^ 64

-- `Message(stream_id, ts_ns, value, seq)`; nothing if TypeError is raised.
unfoldable pub new_message :
    {PyObject : Type 0}
    → Casts PyObject
    → PyObject × PyObject × PyObject × PyObject
    → Option Message
new_message casts (stream_id, ts_ns, value, seq) = do
  s ← casts.to_u32 stream_id
  t ← casts.to_i64 ts_ns
  v ← casts.to_double value
  n ← casts.to_u64 seq
  some (record { stream_id = s; ts_ns = t; value = v; seq = n })

-- How a call of `__next__` ends.
pub data Ended : Type 0 where
  returned : (m : Message) → Ended
  stop_iteration : Ended

unfoldable pub replayer_next : Replayer → Ended × Replayer
replayer_next r =
    let (m, r') = next r in (elim m [ none ↦ stop_iteration | some x ↦ returned x ], r')

-- `for msg in replayer`, on fuel: the messages, and the replayer when StopIteration was raised.
unfoldable pub for_loop : ℕ → Replayer → Option (List Message × Replayer)
for_loop zero r = none
for_loop (suc fuel) r =
    let (ended, r') = replayer_next r in
    elim ended [ stop_iteration ↦ some ([], r') | returned m ↦ push_front m (for_loop fuel r') ]
