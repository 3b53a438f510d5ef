-- ===== src/Core/Message.antt =====
-- include/core/message.hpp: the normalized sample. The padding members carry no content and are not
-- modelled.
use jisa.Prelude.{ℕ, ◌^◌, ◌<◌}
use jisa.Prelude.Int.{ℤ, IsInt64}
use jisa.Double.{Double}

pub record Message : Type 0 where
  pub stream_id : ℕ  -- uint32_t
  pub ts_ns : ℤ  -- int64_t
  pub value : Double
  pub seq : ℕ  -- uint64_t

-- The values that the members' machine types can hold.
pub record IsMessage (m : Message) : Type 0 where
  pub stream_id : m.stream_id < 2 ^ 32
  pub ts_ns : IsInt64 m.ts_ns
  pub value : m.value < 2 ^ 64
  pub seq : m.seq < 2 ^ 64
