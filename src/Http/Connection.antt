-- ===== src/Http/Connection.antt =====
-- httpd/connection.hpp and httpd/connection.cpp: from what is read on a socket to what is written.
-- The buffer holds one read; the bytes behind a request are dropped with it.
pub mod Reads
pub mod Events
pub mod Replies
use bnc.Prelude.{
  Bool, true, false, List, [], ◌∷◌, ◌++◌, if◌then◌else◌, is_empty, Option, none, some,
}
use bnc.Prelude.Bytes.{Bytes, codes, equal}
use bnc.Http.Request.{Header, fresh_request}
use bnc.Http.Reply.{Reply, Status, ok, bad_request, stock_reply, to_buffers, to_sse_buffers}
use bnc.Http.Parser.{
  Parser, ResultType, good, bad, indeterminate, Fault, Parsed, stopped, faulted, parse,
  request_parser,
}
use bnc.Http.Handler.{Backend, handle_request, header}

-- `request_parser_` with `request_`, and `reply_`.
pub record Connection : Type 0 where
  pub parser : Parser
  pub reply : Reply

-- The constructor. It leaves the status of the reply undefined: `st` is what the memory held.
abbrev pub new_connection : Status → Connection
new_connection st = record {
  parser = request_parser fresh_request;
  reply = record { status = st; headers = []; content = [] };
}

-- What a read is followed by.
pub data Next : Type 0 where
  do_read do_write sse_start : Next

-- `it != end && it->value == "text/event-stream"` for the first header named "Content-Type".
unfoldable pub is_event_stream : List Header → Bool
is_event_stream [] = false
is_event_stream (h ∷ hs) =
    if equal h.name (codes "Content-Type")
    then equal h.value (codes "text/event-stream")
    else is_event_stream hs

-- What the completion of a read gives: undefined behaviour of the parser, or of the call of the
-- device, or the device, the connection and what follows.
pub data Received (S : Type 0) : Type 0 where
  crashed : Fault → Received S
  device_undefined : Received S
  next : S → Connection → Next → Received S

module _ (b : Backend) where
  abbrev pub answer : b.State → Connection → Received b.State
  answer s c =
      let (t, rep) = handle_request b s c.parser.req c.reply in
      if b.is_defined t
      then next t (record c { reply = rep })
          (if is_event_stream rep.headers then sse_start else do_write)
      else device_undefined

  -- `p` is the parser after the read.
  abbrev pub decide : ResultType → b.State → Connection → Received b.State
  decide good s c = answer s c
  decide bad s c = next s (record c { reply = stock_reply bad_request }) do_write
  decide indeterminate s c = next s c do_read

  abbrev pub on_parsed : Parsed → b.State → Connection → Received b.State
  on_parsed (faulted f) s c = crashed f
  on_parsed (stopped result rest p) s c = decide result s (record c { parser = p })

  -- The handler of a read that succeeded.
  unfoldable pub on_read : b.State → Connection → Bytes → Received b.State
  on_read s c bytes = on_parsed (parse c.parser bytes) s c

-- What `sse_start` writes, once it has filled the reply.
abbrev pub sse_reply : Reply → Reply
sse_reply rep = record rep {
  status = ok;
  headers =
      header (codes "connection") (codes "keep-alive")
      ∷ header (codes "Content-Type") (codes "text/event-stream")
      ∷ header (codes "Cache-Control") (codes "no-cache")
      ∷ [];
}

unfoldable pub sse_opening : Reply → List Bytes
sse_opening rep = to_sse_buffers (sse_reply rep) true

-- The headers that `sse_write` pushes.
unfoldable pub event_headers : Bytes → Bytes → Bytes → List Header
event_headers data_text id event =
    header (codes "data") data_text
    ∷ ((if is_empty id then [] else header (codes "id") id ∷ [])
        ++ (if is_empty event then [] else header (codes "event") event ∷ []))

-- `sse_write`, for a reply of any status, which is not written.
unfoldable pub sse_write : Status → Bytes → Bytes → Bytes → List Bytes
unfolding event_headers
sse_write st data_text id event =
    to_sse_buffers
      (record { status = st; headers = event_headers data_text id event; content = [] }) false
