-- ===== src/Http/Server.antt =====
-- httpd/server.cpp with the effects of httpd/connection.cpp and httpd/connection_manager.cpp: the
-- asynchronous operations that are outstanding, and what each does on completion. The completion
-- handlers run one at a time.
pub mod Counting
pub mod Sets
pub mod Answers
pub mod WellFormed
pub mod Invariant
pub mod Accepting
pub mod SafeParsers
pub mod Defined
use bnc.Prelude.{
  ℕ, zero, suc, ◌+◌, Bool, true, false, not, List, [], ◌∷◌, ◌++◌, map, Option, none, some, ◌==◌,
  ◌≡◌, if◌then◌else◌,
}
use bnc.Prelude.Bytes.{Bytes}
use bnc.Http.Reply.{Status, to_buffers, flatten}
use bnc.Http.Handler.{Backend}
use bnc.Http.Connection.{
  Connection, new_connection, Next, do_read, do_write, sse_start, Received, crashed,
  device_undefined, next, on_read, sse_reply, sse_opening, sse_write,
}
use bnc.Http.Manager
use bnc.Http.Manager.{new_manager}

-- An outstanding operation, of the connection with that number.
pub data Op : Type 0 where
  read_some write_reply write_opening write_event : ℕ → Op
  accept wait_signal : Op

-- The error code of a completion: none, operation_aborted, or another.
pub data Ec : Type 0 where
  success aborted failed : Ec

-- What was handed to a socket.
pub data Write : Type 0 where
  reply_to : ℕ → Bytes → Write
  stream_to : ℕ → Bytes → Write
  event_to : ℕ → Bytes → Write

-- The server: `device` is what stands behind the request handler, `slots` counts the handlers that
-- are registered with it for events, `fresh` is the next connection's number, `closed` lists the
-- sockets that were shut down or closed, and `writes` what was written, oldest first.
pub record Server (S : Type 0) : Type 0 where
  pub manager : Manager.Manager
  pub connection : ℕ → Connection
  pub device : S
  pub slots : ℕ
  pub accepting : Bool
  pub fresh : ℕ
  pub pending : List Op
  pub closed : List ℕ
  pub writes : List Write

abbrev pub update : (ℕ → Connection) → ℕ → Connection → ℕ → Connection
update f i c j = if j == i then c else f j

module _ {S : Type 0} where
  abbrev pub begin : Op → Server S → Server S
  begin o w = record w { pending = w.pending ++ o ∷ [] }

  abbrev close : ℕ → Server S → Server S
  close i w = record w { closed = w.closed ++ i ∷ [] }

  abbrev hand : Write → Server S → Server S
  hand x w = record w { writes = w.writes ++ x ∷ [] }

  -- `connection_manager_.start` of a connection that was just made.
  unfoldable pub start : Status → Server S → Server S
  start st w = begin (read_some w.fresh) (record w {
    manager = Manager.start w.fresh w.manager;
    connection = update w.connection w.fresh (new_connection st);
    fresh = suc w.fresh;
  })

  unfoldable pub stop : ℕ → Server S → Server S
  stop i w = close i (record w { manager = Manager.stop i w.manager })

  unfoldable pub sse_stop : ℕ → Server S → Server S
  sse_stop i w = close i (record w { manager = Manager.sse_stop i w.manager })

  unfoldable pub stop_all : Server S → Server S
  stop_all w = record w {
    manager = Manager.stop_all w.manager;
    closed = w.closed ++ w.manager.connections;
  }

  -- The slot is registered if there is none, then the set is changed and the stream opened.
  unfoldable pub open_stream : ℕ → Server S → Server S
  open_stream i w =
      let c = w.connection i in
      begin (write_opening i) (
        hand (stream_to i (flatten (sse_opening c.reply))) (record w {
          manager = Manager.sse_start i w.manager;
          connection = update w.connection i (record c { reply = sse_reply c.reply });
          slots = if w.manager.sse_connected then w.slots else suc w.slots;
        }))

  -- The events of the server-sent stream, one for each member of the set.
  unfoldable pub sse_handler : Status → Bytes → Bytes → Bytes → Server S → Server S
  sse_handler st data_text id event w =
      let bytes = flatten (sse_write st data_text id event) in
      record w {
        pending = w.pending ++ map (λ i. write_event i) w.manager.sse_objects;
        writes = w.writes ++ map (λ i. event_to i bytes) w.manager.sse_objects;
      }

  -- The device's signal calls each of its slots.
  unfoldable pub signal : ℕ → Status → Bytes → Bytes → Bytes → Server S → Server S
  unfolding sse_handler
  signal zero st data_text id event w = w
  signal (suc n) st data_text id event w =
      sse_handler st data_text id event (signal n st data_text id event w)

  -- What follows on a read.
  unfoldable pub follow : ℕ → Next → Server S → Server S
  unfolding open_stream
  follow i do_read w = begin (read_some i) w
  follow i do_write w =
      begin (write_reply i) (hand (reply_to i (flatten (to_buffers (w.connection i).reply))) w)
  follow i sse_start w = open_stream i w

  -- `do_accept`'s handler. `st` is the memory that the new connection is made in.
  unfoldable pub on_accept : Ec → Status → Server S → Server S
  unfolding start
  on_accept success st w = if w.accepting then begin accept (start st w) else w
  on_accept _ st w = if w.accepting then begin accept w else w

  -- `do_await_stop`'s handler.
  unfoldable pub on_signal : Server S → Server S
  unfolding stop_all
  on_signal w = stop_all (record w { accepting = false })

  unfoldable pub on_write : ℕ → Ec → Server S → Server S
  unfolding stop
  on_write i success w = stop i (close i w)
  on_write i aborted w = w
  on_write i failed w = stop i w

  unfoldable pub on_event_written : ℕ → Ec → Server S → Server S
  unfolding sse_stop
  on_event_written i success w = w
  on_event_written i _ w = sse_stop i (close i w)

  -- A server of which the constructor has returned.
  abbrev pub new_server : S → (ℕ → Connection) → Server S
  new_server s memory = record {
    manager = new_manager;
    connection = memory;
    device = s;
    slots = 0;
    accepting = true;
    fresh = 0;
    pending = wait_signal ∷ accept ∷ [];
    closed = [];
    writes = [];
  }

module _ (b : Backend) where
  -- What a successful read leads to, if its behaviour is defined.
  abbrev pub received : ℕ → Received b.State → Server b.State → Option (Server b.State)
  received i (crashed f) w = none
  received i device_undefined w = none
  received i (next s c n) w =
      some (follow i n (record w { device = s; connection = update w.connection i c }))

  -- The handler of one completion: `bytes` are those of a read, `st` the memory of a new connection.
  unfoldable pub complete : Op → Ec → Bytes → Status → Server b.State → Option (Server b.State)
  unfolding follow stop on_write on_event_written on_accept on_signal
  complete (read_some i) success bytes st w =
      received i (on_read b w.device (w.connection i) bytes) w
  complete (read_some i) aborted bytes st w = some w
  complete (read_some i) failed bytes st w = some (stop i w)
  complete (write_reply i) ec bytes st w = some (on_write i ec w)
  complete (write_opening i) ec bytes st w = some w
  complete (write_event i) ec bytes st w = some (on_event_written i ec w)
  complete accept ec bytes st w = some (on_accept ec st w)
  complete wait_signal ec bytes st w = some (on_signal w)

  -- One outstanding operation completes, or the device sends an event to its slots.
  pub data Step (w : Server b.State) : Server b.State → Type 0 where
    completes :
        (xs ys : List Op) (o : Op) (ec : Ec) (bytes : Bytes) (st : Status) (v : Server b.State)
        → w.pending ≡ xs ++ o ∷ ys
        → complete o ec bytes st (record w { pending = xs ++ ys }) ≡ some v
        → Step w v
    signals :
        (st : Status) (data_text id event : Bytes) → Step w (signal w.slots st data_text id event w)

  pub data Reachable (s : b.State) (memory : ℕ → Connection) : Server b.State → Type 0 where
    begins : Reachable s memory (new_server s memory)
    goes_on : (w v : Server b.State) → Reachable s memory w → Step w v → Reachable s memory v
