-- ===== src/Device/Bnc565.antt =====
-- httpd/bnc565.cpp: the state of the generator's driver, and one exchange with the generator.
-- What other threads do while a command is sent and its reply awaited is the environment, an
-- `Exchange` for each command: `line` gives that of each point of time.
pub mod Retry
pub mod Stale
pub mod Commands
pub mod Query
pub mod Wire
pub mod Service
use bnc.Prelude.{
  ℕ, zero, suc, ◌+◌, ◌%◌, ◌^◌, Bool, true, false, ◌&&◌, List, [], ◌∷◌, ◌++◌, if◌then◌else◌,
  is_empty,
}
use bnc.Prelude.Bytes.{Bytes, equal}
use bnc.Device.Receive.{Receiver, handle_receive}
use bnc.Device.Protocols.{Protocols}

-- `early` is received since the last command and before the lock is taken; while the lock is held
-- nothing is. `written` says whether the write was done in time, `late` is received during the
-- wait, which ends by its limit if `timed_out`.
pub record Exchange : Type 0 where
  pub early : Bytes
  pub written : Bool
  pub late : Bytes
  pub timed_out : Bool

-- The members of `bnc565`, with the commands that were given to the port (`sent`, newest last) and
-- the number of exchanges so far (`now`).
pub record Driver (D : Type 0) : Type 0 where
  pub is_open : Bool
  pub ttyname : Bytes
  pub baud : ℕ
  pub receiver : Receiver
  pub xsend_timeout_c : ℕ
  pub reply_timeout_c : ℕ
  pub protocols : Protocols D
  pub tick : ℕ
  pub sent : List Bytes
  pub now : ℕ

-- The result of a call of `_xsend`: what it returns, the reply, and the driver.
pub record Sent (D : Type 0) : Type 0 where
  pub res : Bool
  pub reply : Bytes
  pub driver : Driver D

-- `++` on a counter of type size_t.
abbrev pub increment : ℕ → ℕ
increment n = (n + 1) % 2 ^ 64

module _ {D : Type 0} where
  abbrev pub receive : Driver D → Bytes → Driver D
  receive d s = record d { receiver = handle_receive d.receiver s }

  -- What follows a wait that was notified: the oldest reply is taken, and the queue cleared.
  take_reply : Driver D → List Bytes → Sent D
  take_reply d [] = record { res = false; reply = []; driver = d }
  take_reply d (s ∷ ss) = record {
    res = true;
    reply = s;
    driver = record d { receiver = record d.receiver { que = [] } };
  }

  abbrev failed : Driver D → Sent D
  failed d = record { res = false; reply = []; driver = d }

  await : Driver D → Exchange → Sent D
  unfolding take_reply
  await d x =
      if x.timed_out
      then failed (record d { reply_timeout_c = increment d.reply_timeout_c })
      else take_reply (record d { reply_timeout_c = 0 }) d.receiver.que

  -- `usb_->write` of no bytes fails at once. The write waits on the port's own lock.
  transmit : Driver D → Bytes → Exchange → Sent D
  unfolding await
  transmit d cmd x =
      let began = record d { sent = d.sent ++ cmd ∷ [] } in
      let done = receive (record began { xsend_timeout_c = 0 }) x.late in
      if is_empty cmd
      then failed (record d { xsend_timeout_c = increment d.xsend_timeout_c })
      else if x.written
      then await done x
      else failed (record began { xsend_timeout_c = increment d.xsend_timeout_c })

  -- The exchange at hand is used up.
  abbrev pub begin : Driver D → Exchange → Driver D
  begin d x = receive (record d { now = suc d.now }) x.early

  -- `setInterval`
  unfoldable pub set_interval : Driver D → D → Driver D
  set_interval d v = record d { protocols = record d.protocols { interval = v } }

  unfoldable pub interval : Driver D → D
  interval d = d.protocols.interval

  unfoldable pub idn : Driver D → Bytes
  idn d = d.protocols.idn

  unfoldable pub serial_device : Driver D → Bytes
  serial_device d = d.ttyname

module _ {D : Type 0} (line : ℕ → Exchange) where
  -- `_xsend( data, reply )`
  unfoldable pub xsend_once : Driver D → Bytes → Sent D
  unfolding transmit
  xsend_once d cmd =
      if d.is_open then transmit (begin d (line d.now)) cmd (line d.now) else failed d

  -- The loop of `_xsend( data, reply, expect, ntry )`
  retry : ℕ → Driver D → Bytes → Bytes → Bytes → Sent D
  retry zero d cmd reply expect = record { res = false; reply = reply; driver = d }
  retry (suc ntry) d cmd reply expect =
      let r = xsend_once d cmd in
      let again = retry ntry r.driver cmd r.reply expect in
      if r.res && equal r.reply expect
      then record { res = true; reply = r.reply; driver = r.driver }
      else again

  unfoldable pub xsend_expect : Driver D → Bytes → Bytes → Bytes → ℕ → Sent D
  unfolding retry
  xsend_expect d cmd reply expect ntry =
      if d.is_open
      then retry ntry d cmd reply expect
      else record { res = false; reply = reply; driver = d }
