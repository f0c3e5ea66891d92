-- ===== src/Device/Bnc565/Wire.antt =====
-- `_xsend` of httpd/bnc565.cpp over the port of httpd/serialport.cpp: the reads and the writes that
-- complete while it runs. A lock keeps the receiver as it is while the command is written.
pub mod Exchanged
pub mod Answered
use bnc.Prelude.{
  ◌||◌, ℕ, suc, ◌+◌, Bool, true, false, List, [], ◌∷◌, ◌++◌, ◌==◌, length, is_empty, if◌then◌else◌,
}
use bnc.Prelude.Bytes.{Bytes}
use bnc.Device.Serial.{SerialPort, Written, handle_read, write}
use bnc.Device.Receive.{Receiver, handle_receive}
use bnc.Device.Receive.Lines.{Read}
use bnc.Device.Bnc565.{Driver, Sent, increment, failed, take_reply}

-- The reads that complete before the lock is taken; what happens while `write` waits; the reads that
-- complete before the wait for a reply ends, whether it was woken with no notification, and the reads
-- that complete after that and before the lock is had again.
pub record Traffic : Type 0 where
  pub before : List Read
  pub writes : List Written
  pub during : List Read
  pub woken : Bool
  pub after : List Read

module _ {ℓ} {R : Type ℓ} (reader : R → Bytes → R) where
  unfoldable pub handle_reads : SerialPort × R → List Read → SerialPort × R
  unfolding handle_read
  handle_reads (p, r) [] = (p, r)
  handle_reads (p, r) ((error, s) ∷ rs) = handle_reads (handle_read reader p r error s) rs

-- The port, and what the call returns.
pub record Wired (D : Type 0) : Type 0 where
  pub port : SerialPort
  pub result : Sent D

-- Each line that is completed notifies the wait.
unfoldable pub notified : Receiver → Receiver → Bool
notified r after = if length after.que == length r.que then false else true

module _ {D : Type 0} where
  -- The wait ended early, or by its limit.
  unfoldable wire_await : Bool → Driver D → Sent D
  unfolding take_reply
  wire_await early d =
      if early
      then take_reply (record d { reply_timeout_c = 0 }) d.receiver.que
      else failed (record d { reply_timeout_c = increment d.reply_timeout_c })

  -- `sent` has the commands that were given to the port: those of some bytes.
  abbrev record_command : Driver D → Bytes → Driver D
  record_command d cmd = if is_empty cmd then d else record d { sent = d.sent ++ cmd ∷ [] }

  unfoldable after_write : SerialPort → Driver D → Traffic → Bool → Wired D
  unfolding handle_reads wire_await notified
  after_write p d t true =
      let heard = handle_reads handle_receive (p, d.receiver) t.during in
      let (q, r) = handle_reads handle_receive heard t.after in
      record {
        port = q;
        result =
            wire_await (notified d.receiver heard.1 || t.woken)
              (record d { xsend_timeout_c = 0; receiver = r });
      }
  after_write p d t false = record {
    port = p;
    result = failed (record d { xsend_timeout_c = increment d.xsend_timeout_c });
  }

  unfoldable wire_transmit : SerialPort → Driver D → Bytes → Traffic → Wired D
  unfolding after_write write
  wire_transmit p d cmd t =
      let (ok, q) = write p cmd t.writes in after_write q (record_command d cmd) t ok

  -- `_xsend( data, reply )`
  unfoldable pub wire_xsend : SerialPort → Driver D → Bytes → Traffic → Wired D
  unfolding wire_transmit handle_reads
  wire_xsend p d cmd t =
      let (q, r) = handle_reads handle_receive (p, d.receiver) t.before in
      if p.is_open
      then wire_transmit q (record d { receiver = r; now = suc d.now }) cmd t
      else record { port = p; result = failed d }
