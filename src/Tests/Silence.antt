-- ===== src/Tests/Silence.antt =====
-- A link on which nothing arrives, and the writes of an arm.
use allsquare.Base.{true, ℕ, ◌+◌, ◌-◌, ◌≤◌, [], some, none, false, ◌≡◌, refl, arith, ℤ}
use allsquare.Club.{right, iron7}
use allsquare.Protocol.Command.{encode}
use allsquare.Protocol.Types.{select_club, detect_ball, advanced}
use allsquare.Client.Arming.{arm-writes}
use allsquare.Error.{IoError, failed, done, Error, err}
use allsquare.Impact.{default}
use allsquare.Client.Poll.{
  beat, heartbeat_if_due, is_would_block, on_empty, on_read, poll_read, poll_active, poll_phase,
  poll_queue, poll,
}
use allsquare.Client.Methods.{send, arm}
use allsquare.Client.State.{from_io, Host, Client, active, now}
use allsquare.Client.Watchdog.{IsSilent, watch, watch-disconnected}
use allsquare.Client.Watchdog.Patience.{poll-patient}
use allsquare.Text.{codes}
use allsquare.Tests.Samples.{centi, empty_read}

-- Its state is its clock, which ticks with each call.
abbrev quiet : Host ℕ
quiet = record {
  read = λ w buf. (w + 1, buf, empty_read);
  write = λ w frame. (w + 1, done tt);
  read_characteristic = λ w uuid. (w + 1, done (codes "3.1"));
  model_hint = λ w. none;
  now = λ w. (w + 1, w);
}

quiet-IsSilent : IsSilent quiet (λ w. w)
unfolding is_would_block
quiet-IsSilent = record {
  reads_nothing = λ w buf. (_, refl, refl);
  reads_later = λ w buf. omega arith;
  writes = λ w frame. refl;
  writes_later = λ w frame. omega arith;
  tells = λ w. refl;
  tells_later = λ w. omega arith;
}

-- A client at time 10 whose last frame came at time 8.
abbrev waiting : ℕ → Client ℕ ℤ
waiting unanswered = record {
  transport = 10;
  phase = active;
  seq = 2;
  last_rx = [];
  queue = [];
  last_heartbeat = 9;
  heartbeat_interval = 3;
  last_data = 8;
  unanswered = unanswered;
  link_timeout = 12;
  state = none;
  pending_shot = none;
  awaiting_club = false;
  handed = right;
  active_club = none;
  impact_calibration = default centi;
}

watch-disconnected_example : watch centi quiet 20 (waiting 0) ≡ some (err Error.disconnected)
watch-disconnected_example =
    watch-disconnected centi quiet (λ w. w) quiet-IsSilent 20 (waiting 0) refl refl (omega arith)

-- A client that is due to report the link.
abbrev overdue : Client ℕ ℤ
overdue = record (waiting 2) { transport = 30 }

overdue-reports : (poll centi quiet overdue).1 ≡ err Error.disconnected
unfolding poll poll_queue poll_phase poll_active heartbeat_if_due beat now send poll_read on_read
    is_would_block on_empty
overdue-reports = refl

poll-patient_example :
    (2 ≤ (poll centi quiet overdue).0.unanswered)
    × (12 ≤ (poll centi quiet overdue).0.transport - 8)
poll-patient_example =
    poll-patient centi quiet (λ w. w) quiet-IsSilent overdue refl refl overdue-reports

arm-writes_example :
    let c = waiting 1 in
    let first = quiet.write c.transport (encode (select_club iron7 right) 3) in
    let second = quiet.write first.0 (encode (detect_ball true advanced) 4) in
    let (d, result) = arm quiet iron7 advanced c in
    ((e : IoError)
      → first.1 ≡ failed e
      → (result ≡ err (Error.transport e)) × (d.active_club ≡ none) × (d.transport ≡ first.0))
    × ((u : Unit {0})
        → first.1 ≡ done u
        → (result ≡ from_io second.1) × (d.active_club ≡ some iron7) × (d.transport ≡ second.0))
arm-writes_example = arm-writes quiet iron7 advanced (waiting 1)
