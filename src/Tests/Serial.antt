-- ===== src/Tests/Serial.antt =====
-- The serial line: httpd/serialport.cpp with the receiver of httpd/bnc565.cpp.
use bnc.Prelude.{true, false, List, [], ◌∷◌, ◌++◌, ◌≡◌, refl, map}
use bnc.Prelude.Bytes.{codes}
use bnc.Device.Serial.{SerialPort}
use bnc.Device.Receive.{Receiver}
use bnc.Device.Receive.Lines.{Read, deliver, stream, split_lines, printable, deliver-split_lines}

abbrev port : SerialPort
port = record { is_open = true; failed = false; reading = 1; inbuf = []; outbuf = [] }

abbrev idle : Receiver
idle = record { receiving_data = []; que = [] }

abbrev reads : List Read
reads = (false, codes "o") ∷ (true, codes "x") ∷ (false, codes "k\r\nO") ∷ (false, codes "N\n") ∷ []

deliver-split_lines_example :
    (deliver (port, idle) reads).1
    ≡ record { receiving_data = []; que = [] ++ map printable (split_lines (stream reads)).0 }
deliver-split_lines_example = deliver-split_lines reads (codes "ok\r\nON") port idle refl refl refl

-- What that leaves in the queue.
two_lines : map printable (split_lines (stream reads)).0 ≡ codes "ok" ∷ codes "ON" ∷ []
two_lines = refl
