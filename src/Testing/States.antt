-- ===== src/Testing/States.antt =====
-- `parse` of src/protocol.rs inverts the state and query encoders of src/testing.rs.
use allsquare.Base.{ℕ, ◌≡◌, refl, arith, Bytes}
use allsquare.Build.{Build}
use allsquare.Error.{ok, index, slice_from}
use allsquare.Protocol.Parse.{parse}
use allsquare.Protocol.Types.{Notification, DeviceState, device_state}
use allsquare.Testing.{state_byte, heartbeat_ack, query_response}

-- The byte of a state that a byte can mean reads back as that state.
state_of_byte : (v : ℕ) → device_state (state_byte (device_state v)) ≡ device_state v
unfolding device_state state_byte
state_of_byte v = ground arith

module _ {F : Type 0} (b : Build F) where
  parse_ack_frame :
      (s : DeviceState)
      → parse b (heartbeat_ack s) ≡ ok (Notification.heartbeat_ack (device_state (state_byte s)))
  unfolding parse index heartbeat_ack
  parse_ack_frame s = refl

  -- An acknowledgment that carries a state, as some byte means it, parses to that state.
  pub parse-heartbeat_ack :
      (v : ℕ)
      → parse b (heartbeat_ack (device_state v)) ≡ ok (Notification.heartbeat_ack (device_state v))
  parse-heartbeat_ack v = rw (parse_ack_frame (device_state v), state_of_byte v)

  -- A query reply parses to its payload, whatever the payload is.
  pub parse-query_response :
      (payload : Bytes)
      → parse b (query_response payload) ≡ ok (Notification.query_response payload)
  unfolding parse index query_response slice_from
  parse-query_response payload = ground arith
