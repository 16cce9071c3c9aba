-- ===== src/Transport/Lifecycle.antt =====
-- The life of a transport of src/btleplug_transport.rs, whose pump runs beside the calls of its
-- owner, also while one of them disconnects.
use allsquare.Base.{
  ℕ, suc, Bool, true, false, not, ◌&&◌, List, ◌≡◌, refl, arith, Bytes, if◌then◌else◌,
}
use allsquare.Error.{failed, not_connected}
use allsquare.Transport.Btleplug.{
  Stack, BtleplugTransport, Pumped, data_of, link_closed, pump_item, pump, stop_pump, ensure_up,
  read_notification, characteristic, link_up, disconnect, drop_transport, write_on, write_command,
  read_on, read_value,
}

-- What happens to a transport: a round of the pump, the end of a pump that was aborted, or a call of
-- its owner, with the rounds of the pump in the meantime where it disconnects.
pub data Step : Type 0 where
  pumps : Pumped → Step
  reads : Bytes → Step
  writes : Bytes → Step
  gets : ℕ → Step
  asks stops : Step
  disconnects : List Pumped → Step

module _ {S : Type 0} (s : Stack S) where
  unfoldable pub after_step : Step → BtleplugTransport S → BtleplugTransport S
  after_step (pumps item) t = pump item t
  after_step (reads buf) t = (read_notification t buf).0
  after_step (writes frame) t = (write_command s frame t).0
  after_step (gets uuid) t = (read_value s uuid t).0
  after_step asks t = (link_up s t).0
  after_step stops t = stop_pump t
  after_step (disconnects meanwhile) t = (disconnect s meanwhile t).0

  -- The transports that a connected one becomes.
  pub data Used (t : BtleplugTransport S) : BtleplugTransport S → Type 0 where
    fresh : Used t t
    used : {u : BtleplugTransport S} (k : Step) → Used t u → Used t (after_step k u)

  -- The stack has reported the device gone, and the pump has seen that, before the owner first
  -- asked to disconnect.
  unfoldable pub went_away : {t u : BtleplugTransport S} → Used t u → Bool
  went_away fresh = false
  went_away (used {u = u} (pumps item) r) = if u.closed then went_away r else (pump item u).released
  went_away (used (reads buf) r) = went_away r
  went_away (used (writes frame) r) = went_away r
  went_away (used (gets uuid) r) = went_away r
  went_away (used asks r) = went_away r
  went_away (used stops r) = went_away r
  went_away (used (disconnects meanwhile) r) = went_away r

-- `count` counts how often the stack was asked to disconnect.
pub record Counts {S : Type 0} (s : Stack S) (count : S → ℕ) : Type 0 where
  pub counted : (w : S) → count (s.disconnect w).0 ≡ suc (count w)
  pub asked : (w : S) → count (s.is_connected w).0 ≡ count w
  pub wrote : (w : S) (frame : Bytes) → count (s.write w frame).0 ≡ count w
  pub got : (w : S) (uuid : ℕ) → count (s.read w uuid).0 ≡ count w

-- A transport as `connect` makes it.
pub record IsConnected {S : Type 0} (t : BtleplugTransport S) : Type 0 where
  pub unclosed : t.closed ≡ false
  pub up : t.down ≡ false
  pub held : t.released ≡ false
  pub pumped : t.pumping ≡ true

module _ {S : Type 0} (s : Stack S) (count : S → ℕ) (counts : Counts s count) where
  -- With `n` requests to disconnect before the transport was made, and `gone` if it need not ask.
  record IsTallied (n : ℕ) (gone : Bool) (t : BtleplugTransport S) : Type 0 where
    told : t.closed ≡ false → t.released ≡ gone
    tallied : count t.stack ≡ (if t.closed && not gone then suc n else n)

module _ {S : Type 0} (s : Stack S) where
  step-closed :
      (k : Step) (t : BtleplugTransport S)
      → t.closed ≡ true
      → ((after_step s k t).closed ≡ true) × ((after_step s k t).stack ≡ t.stack)
  unfolding after_step pump pump_item read_notification write_command write_on ensure_up
      characteristic read_value read_on link_up disconnect stop_pump
  step-closed (pumps (data_of x)) t v = ground arith
  step-closed (pumps (link_closed r)) t v = ground arith
  step-closed (reads buf) t v = ground arith
  step-closed (writes frame) t v = ground arith
  step-closed (gets uuid) t v = ground arith
  step-closed asks t v = ground arith
  step-closed stops t v = ground arith
  step-closed (disconnects meanwhile) t v = ground arith

  disconnect-closed :
      (meanwhile : List Pumped) (t : BtleplugTransport S)
      → (disconnect s meanwhile t).0.closed ≡ true
  unfolding disconnect
  disconnect-closed meanwhile t = ground arith

  refused :
      (frame : Bytes) (t : BtleplugTransport S)
      → t.closed ≡ true
      → (write_command s frame t).1
        ≡ failed (record { kind = not_connected; message = "device disconnected" })
  unfolding write_command write_on ensure_up
  refused frame t v = rw v refl

  dropped : (t : BtleplugTransport S) → t.closed ≡ true → drop_transport s t ≡ t.stack
  unfolding drop_transport
  dropped t v = rw v refl

  -- Once it is closed, a transport does nothing more to the stack, and its writes fail as not
  -- connected; so it is after a call of `disconnect`, however that ended.
  pub closed-stack :
      (k : Step) (meanwhile : List Pumped) (t : BtleplugTransport S) (frame : Bytes)
      → let d = (disconnect s meanwhile t).0 in
        let u = after_step s k d in
        (u.closed ≡ true)
        × (u.stack ≡ d.stack)
        × (drop_transport s u ≡ u.stack)
        × ((write_command s frame u).1
            ≡ failed (record { kind = not_connected; message = "device disconnected" }))
  closed-stack k meanwhile t frame =
      let d = (disconnect s meanwhile t).0 in
      let (c, w) = step-closed k d (disconnect-closed meanwhile t) in
      (c, w, dropped (after_step s k d) c, refused frame (after_step s k d) c)
