-- ===== src/Device/Serial.antt =====
-- httpd/serialport.cpp: the reading side, which hands its reader one piece for each '\r' or '\n',
-- and the writing side, which waits for the operating system with a time limit.
pub mod Write
use bnc.Prelude.{
  ℕ, suc, not, List, Option, none, some, length, true, Bool, false, ◌||◌, [], ◌∷◌, ◌++◌, ◌==◌,
  if◌then◌else◌, is_empty,
}
use bnc.Prelude.Bytes.{Bytes}

-- `inbuf_` and `outbuf_`, whether the port is open, whether `ec_` is set, and the number of reads that
-- the operating system has been asked for and has not completed.
pub record SerialPort : Type 0 where
  pub is_open : Bool
  pub failed : Bool
  pub reading : ℕ
  pub inbuf : Bytes
  pub outbuf : Bytes

-- The loop of `handle_read` over the bytes of one read, with the state `r` of the reader.
module _ {ℓ} {R : Type ℓ} (reader : R → Bytes → R) where
  unfoldable pub read_bytes : Bytes → R → Bytes → Bytes × R
  read_bytes inbuf r [] = (inbuf, r)
  read_bytes inbuf r (c ∷ s) =
      let whole = inbuf ++ c ∷ [] in
      let piece = read_bytes [] (reader r whole) s in
      let longer = read_bytes whole r s in if c == b'\r' || c == b'\n' then piece else longer

  -- A read that failed changes nothing; then the next one is started, so that as many as before are
  -- outstanding.
  unfoldable pub handle_read : SerialPort → R → Bool → Bytes → SerialPort × R
  unfolding read_bytes
  handle_read p r error bytes =
      let (inbuf, q) = read_bytes p.inbuf r bytes in
      if error then (p, r) else (record p { inbuf = inbuf }, q)

unfoldable pub initiate_read : SerialPort → SerialPort
initiate_read p = record p { reading = suc p.reading }

unfoldable pub start : SerialPort → SerialPort
unfolding initiate_read
start p = initiate_read p

-- What comes of opening a device: it is opened and takes the rate and the other options, or it is
-- refused, or it is opened and `set_option` throws, as for a rate that it does not have.
pub data Opening : Type 0 where
  ready : Opening
  refused : Opening
  no_option : Opening

-- `open`; the result is `none` where it throws. Where the rate is 0 no option is set. A port that is
-- open stays so.
unfoldable pub open_port : SerialPort → ℕ → Opening → Option Bool × SerialPort
open_port p baud_rate Opening.ready = (some true, record p { is_open = true; failed = false })
open_port p baud_rate Opening.refused = (some false, record p { failed = true })
open_port p baud_rate Opening.no_option =
    (if baud_rate == 0 then some true else none, record p { is_open = true; failed = false })

abbrev pub closed_port : SerialPort
closed_port = record { is_open = false; failed = false; reading = 0; inbuf = []; outbuf = [] }

made : Option Bool × SerialPort → Option SerialPort
made (none, p) = none
made (some res, p) = some p

-- The constructor, which opens the device if it is named; `none` where that throws.
unfoldable pub serialport : Option Bytes → ℕ → Opening → Option SerialPort
unfolding open_port made
serialport none baud_rate o = some closed_port
serialport (some device_name) baud_rate o = made (open_port closed_port baud_rate o)

unfoldable pub close : SerialPort → SerialPort
close p = record p { is_open = false }

-- What happens while `write` waits: a write completes, with whether it failed and the number of bytes
-- that were transferred, or the condition variable wakes with no notification, as it may.
pub data Written : Type 0 where
  completed : Bool → ℕ → Written
  woken : Written

-- Whether the writer was notified, and the port.
unfoldable pub handle_write : SerialPort → Bool → ℕ → Bool × SerialPort
handle_write p error transferred =
    if error
    then (false, p)
    else if length p.outbuf == transferred
    then (true, record p { outbuf = [] })
    else (false, p)

-- The wait in `write`, which tests no predicate: what happens before its limit, in order. It ends with
-- the first notification or the first wake without one; with neither, it ends by its limit.
unfoldable pub wait_for : SerialPort → List Written → Bool × SerialPort
unfolding handle_write
wait_for p [] = (false, p)
wait_for p (Written.woken ∷ ws) = (true, p)
wait_for p (Written.completed error n ∷ ws) =
    let (notified, q) = handle_write p error n in
    let rest = wait_for q ws in if notified then (true, q) else rest

-- `write` with a time limit: nothing is started for no bytes.
unfoldable pub write : SerialPort → Bytes → List Written → Bool × SerialPort
unfolding wait_for
write p bytes ws = if is_empty bytes then (false, p) else wait_for (record p { outbuf = bytes }) ws
