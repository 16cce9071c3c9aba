-- ===== src/Client/Arming.antt =====
-- What `arm` of src/client.rs writes, and how it ends.
use allsquare.Base.{ℕ, ◌+◌, ◌%◌, true, some, ◌≡◌, arith}
use allsquare.Club.{Club}
use allsquare.Error.{IoError, done, failed, Error, err}
use allsquare.Protocol.Command.{encode}
use allsquare.Protocol.Types.{SpinMode, select_club, detect_ball}
use allsquare.Client.Methods.{send, arm}
use allsquare.Client.State.{Host, Client, from_io}

twice : (n : ℕ) → ((n + 1) % 256 + 1) % 256 ≡ (n + 2) % 256
twice n = omega arith

module _ {W F : Type 0} (h : Host W) where
  -- Arming writes the selection of the club for the player's hand, with the next sequence number. If
  -- that fails, it writes no more, keeps the club that was active, and returns the failure; if not,
  -- the club becomes active, the request to detect balls follows with the sequence number after that,
  -- and the result is that of the second write.
  pub arm-writes :
      (club : Club) (spin : SpinMode) (c : Client W F)
      → let first = h.write c.transport (encode (select_club club c.handed) ((c.seq + 1) % 256)) in
        let second = h.write first.0 (encode (detect_ball true spin) ((c.seq + 2) % 256)) in
        let (d, result) = arm h club spin c in
        ((e : IoError)
          → first.1 ≡ failed e
          → (result ≡ err (Error.transport e))
            × (d.active_club ≡ c.active_club)
            × (d.transport ≡ first.0))
        × ((u : Unit {0})
            → first.1 ≡ done u
            → (result ≡ from_io second.1) × (d.active_club ≡ some club) × (d.transport ≡ second.0))
  unfolding arm send
  arm-writes club spin c = rw (← twice c.seq) (λ e k. ground arith, λ u k. ground arith)
