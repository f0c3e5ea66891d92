-- ===== src/Lib.antt =====
-- A web server for a pulse generator: a client's requests come in over HTTP and are answered with
-- files, with the state of the generator, or with a stream of events; the generator is a BNC 565 on
-- a serial line.
--
-- The HTTP server (httpd/, namespace http::server):
--   Http/Request.antt     header.hpp, request.hpp: `header`, `request`.
--   Http/Parser.antt      request_parser.hpp, request_parser.cpp: `consume` has a function for each
--                         case of its switch; `parse` is the loop over a buffer. Undefined behaviour
--                         (`back()` of an empty vector, overflow of an int) is a result of its own.
--   Http/Url.antt         request_handler.cpp, `url_decode`, with the extraction of a hexadecimal
--                         int from a stream written out as the C++ standard has it.
--   Http/Mime.antt        mime_types.cpp.
--   Http/Reply.antt       reply.hpp, reply.cpp: stock replies, `to_buffers`, `to_sse_buffers`.
--   Http/Handler.antt     request_handler.cpp, `handle_request`. The generator's control object
--                         (`dgctl`) and the file system are the record `Backend`.
--   Http/Connection.antt  connection.cpp: what one read leads to, and what is written of an event.
--   Http/Manager.antt     connection_manager.cpp: the two sets of connections.
--   Http/Server.antt      server.cpp, with the effects of the two above on the sockets. The state
--                         has the outstanding asynchronous operations; `complete` is the completion
--                         handler of each, and `Step` lets any one of them complete in any way, or
--                         the generator send an event.
--
-- The generator (httpd/, namespace dg):
--   Device/Serial.antt     serialport.cpp: the pieces of a read that the reader is given, what comes of
--                         opening the port, and what ends the wait of a write: a completed write, a
--                         wake with no notification, or its limit.
--   Device/Receive.antt    bnc565.cpp, `handle_receive`: from pieces to the queue of replies.
--   Device/Protocols.antt  dgprotocol.hpp, dgprotocols.hpp: the settings.
--   Device/Bnc565.antt     bnc565.cpp: both forms of `_xsend`. What arrives before and during the
--                         wait, and whether the limits are met, is an `Exchange`, given by a
--                         function of the number of exchanges so far.
--   Device/Bnc565/Wire.antt      `_xsend` again, over the port itself: the reads and writes that complete
--                         while it runs are lists, its waits may be woken with no notification, and
--                         each call gives an `Exchange`.
--   Device/Bnc565/Service.antt   the constructor, the threads and `peripheral_terminate`.
--   Device/Bnc565/Query.antt     `fetch`, `peripheral_query_device_data`.
--   Device/Bnc565/Commands.antt  `commit`, `reset`, `initialize`, `switch_connect` and the rest.
--   Device/Json.antt      dgprotocols.cpp: `read_json` and `write_json`. The trees of boost and their
--                         text are the record `Trees`.
--   Device/Control.antt   dgctl.cpp: `http_request` and its commands; Device/Control/Pulses.antt the
--                         pulses and the interval, which no command uses.
--   Device/Floats.antt    double and the conversions of boost, as a record.
--
-- Another instrument (httpd/arpproxy.cpp, in none of the build files), whose registers are reached over
-- USB. libusb, the headers of the instrument and usbmanager are not in the repository: they are
-- parameters.
--   Arp/Words.antt, Arp/Bits.antt   the arithmetic of uint32_t.
--   Arp/Usb.antt          `bulk_transfer`, `CmdRegRead`, `CmdRegWrite` and the rest; the device is the
--                         record `Usb`.
--   Arp/Vector.antt       `VectorInterpreter`; Arp/Vector/Reference.antt is the same table run on
--                         registers with no transfers.
--   Arp/Board.antt        what the commands rely on of a device with no fault.
--   Arp/Digitizer.antt    the table of `handle_device_digitizer_initialize`.
--   Arp/Setpoints.antt    `__idHVSetpts` and `setpt_handler`.
--   Arp/Status.antt, Arp/Responses.antt   the texts that clients are sent.
--   Arp/Proxy.antt        `arpproxy::impl`: its state, and the handlers of set points and flags.
--   Arp/Worker.antt       the handlers that start and read the device, the timer, and the thread that
--                         runs the handlers posted to it.
--   Arp/Events.antt       what comes to the proxy, in any order, with the handlers that are taken from
--                         the queue between.
--   Arp/Facade.antt       `arpproxy`, with the registration of the two callbacks.
--
-- The server and the generator together: Site.antt is the `Backend` that hands a request to `dgctl`, as
-- request_handler.cpp does. Program.antt is httpd/main.cpp: what comes of the options, of the device
-- and of the file with the process id, up to the run of the server; Program/Log.antt is httpd/log.cpp.
--
-- A module below one of these has its theorems. Prelude.antt and its children have the shared names,
-- lists and strings of bytes; Tests.antt has runs and the theorems at concrete data.
--
-- A byte is a number; a size_t counter wraps at 2 ^ 64, and a uint32_t at 2 ^ 32. Some loops run on
-- fuel: the one over the file is given its length and one more, since each round but the last takes a
-- byte; the decimal digits of n are given n and one more, since each takes n to n / 10; the loop of
-- COMP and COMP_N is given two rounds more than its bound, as many as it can make but where the bound is
-- the largest uint32_t; the digits of %x are 8; and the shift of a mask looks at its 32 bits. The client
-- of Http/Reply/Framing.antt is given the number of lines it may read.
--
-- Not modelled: sockets, threads and locks but as above, the text of JSON, the parsing of the command
-- line, what the server throws while it runs, and pugixml, a library of another project.
pub mod Prelude
pub mod Http
pub mod Device
pub mod Arp
pub mod Program
pub mod Site
pub mod Tests
