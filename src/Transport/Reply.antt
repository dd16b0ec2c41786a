-- ===== src/Transport/Reply.antt =====
-- Transport::Result of include/ns/transport.hpp.
use nano_sensor.Base.{Bool}
use nano_sensor.Base.Int.{ℤ}
use nano_sensor.Text.{Bytes}

pub record Result : Type 0 where
  pub ok : Bool
  pub http_status : ℤ
  pub body : Bytes
  pub error : Bytes
  pub retryable : Bool
