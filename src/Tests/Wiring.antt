-- ===== src/Tests/Wiring.antt =====
-- A command over the serial port, httpd/bnc565.cpp and httpd/serialport.cpp.
use bnc.Prelude.{true, false, [], ◌∷◌, ◌≡◌, refl}
use bnc.Prelude.Bytes.{codes}
use bnc.Device.Serial.{SerialPort, Written, write}
use bnc.Device.Receive.{handle_receive}
use bnc.Device.Bnc565.{xsend_once}
use bnc.Device.Bnc565.Wire.{Traffic, wire_xsend, handle_reads, notified}
use bnc.Device.Bnc565.Wire.Exchanged.{exchange_of, wire_xsend-xsend_once}
use bnc.Device.Bnc565.Wire.Answered.{wire_xsend-res}
use bnc.Tests.Commanding.{driver}

abbrev port : SerialPort
port = record { is_open = true; failed = false; reading = 1; inbuf = codes "o"; outbuf = [] }

-- The reply comes in two pieces, with a read that failed between them.
abbrev traffic : Traffic
traffic = record {
  before = [];
  writes = Written.completed false 7 ∷ [];
  during = (false, codes "k") ∷ (true, []) ∷ (false, codes "\r\n") ∷ [];
  woken = false;
  after = [];
}

wire_xsend-xsend_once_example :
    (wire_xsend port driver (codes "*IDN?\r\n") traffic).result
    ≡ xsend_once
        (λ n. exchange_of port driver.receiver (codes "*IDN?\r\n") traffic)
        driver
        (codes "*IDN?\r\n")
wire_xsend-xsend_once_example = wire_xsend-xsend_once port driver (codes "*IDN?\r\n") traffic refl

wire_xsend-res_example : (wire_xsend port driver (codes "*IDN?\r\n") traffic).result.res ≡ true
unfolding handle_reads notified handle_receive write
wire_xsend-res_example = wire_xsend-res port driver (codes "*IDN?\r\n") traffic refl

replied : (wire_xsend port driver (codes "*IDN?\r\n") traffic).result.reply ≡ codes "ok"
unfolding wire_xsend handle_receive
replied = refl
