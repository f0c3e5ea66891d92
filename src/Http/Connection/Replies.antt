-- ===== src/Http/Connection/Replies.antt =====
-- What follows on one read of a new connection, in httpd/connection.cpp.
use bnc.Prelude.{length, ◌∷◌, List, some, ◌≡◌, sym, subst, refl, Bool-cases, inl, inr}
use bnc.Prelude.Bytes.{codes, to_string, Bytes}
use bnc.Http.Request.{Header}
use bnc.Http.Reply.{status_code, Status, Reply, to_buffers, flatten, bad_request, stock_reply}
use bnc.Http.Reply.Framing.{read_reply, read_reply-to_buffers}
use bnc.Http.Parser.{Parser, good, bad, indeterminate, Parsed, stopped, faulted, parse}
use bnc.Http.Handler.{Backend, handle_request, header}
use bnc.Http.Handler.Framed.{fresh_reply, stock_reply-IsFramed, IsFramed, handle_request-IsFramed}
use bnc.Http.Connection.{
  Connection, Received, crashed, device_undefined, next, do_read, do_write, sse_start, on_read,
  on_parsed, is_event_stream,
}

-- The bytes are those of a whole reply, and a client reads that reply from them: the number of its
-- status, its headers, of which the first has the length of the content, and the content.
pub record Readable (bytes : Bytes) : Type 0 where
  pub reply : Reply
  pub written : bytes ≡ flatten (to_buffers reply)
  pub reads : read_reply 5 bytes ≡ some (status_code reply.status, reply.headers, reply.content)
  pub more : List Header
  pub first :
      reply.headers ≡ header (codes "Content-Length") (to_string (length reply.content)) ∷ more

Framed-Readable : (rep : Reply) → IsFramed rep → Readable (flatten (to_buffers rep))
Framed-Readable rep v = record {
  reply = rep;
  written = refl;
  reads = read_reply-to_buffers rep 5 v.clean v.few;
  more = v.more;
  first = v.first;
}

-- If the connection is to read on, its reply is as before; if it is to write, the reply can be read.
abbrev pub Answerable : {S : Type 0} → Reply → Received S → Type 0
Answerable rep (crashed f) = Unit
Answerable rep device_undefined = Unit
Answerable rep (next s c do_read) = c.reply ≡ rep
Answerable rep (next s c do_write) = Readable (flatten (to_buffers c.reply))
Answerable rep (next s c sse_start) = Unit

module _ (b : Backend) where
  parsed-Answerable :
      (o : Parsed) (s : b.State) (p : Parser) (st : Status)
      → Answerable
          (fresh_reply st)
          (on_parsed b o s (record { parser = p; reply = fresh_reply st }))
  parsed-Answerable (faulted f) s p st = tt
  parsed-Answerable (stopped good left q) s p st =
      let (t, rep) = handle_request b s q.req (fresh_reply st) in
      elim (Bool-cases (b.is_defined t)) [
        | inr u ↦ rw u tt
        | inl u ↦ elim (Bool-cases (is_event_stream rep.headers)) [
          | inl k ↦ rw (u, k) tt
          | inr k ↦ rw (u, k) (Framed-Readable rep (handle_request-IsFramed b st s q.req))
        ]
      ]
  parsed-Answerable (stopped bad left q) s p st =
      Framed-Readable (stock_reply bad_request) (stock_reply-IsFramed bad_request)
  parsed-Answerable (stopped indeterminate left q) s p st = refl

  pub on_read-Answerable :
      (s : b.State) (c : Connection) (bytes : Bytes)
      → c.reply ≡ fresh_reply c.reply.status
      → Answerable c.reply (on_read b s c bytes)
  unfolding on_read
  on_read-Answerable s c bytes e =
      subst
        (λ r.
          Answerable r
            (on_parsed b (parse c.parser bytes) s (record { parser = c.parser; reply = r })))
        (sym e) (parsed-Answerable (parse c.parser bytes) s c.parser c.reply.status)
