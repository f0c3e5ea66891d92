-- ===== src/Program/Served.antt =====
-- httpd/main.cpp: no start of the program comes to undefined behaviour.
use bnc.Prelude.Bytes.{Bytes}
use bnc.Device.Floats.{Floats}
