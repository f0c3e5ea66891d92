-- ===== src/Http/Connection/Reads.antt =====
-- Requests that arrive in pieces, in httpd/connection.cpp.
use bnc.Prelude.{List, [], ◌∷◌, ◌≡◌, refl, Bool-cases, inl, inr, ap, sym, ◌∙◌}
use bnc.Prelude.Bytes.{Bytes}
use bnc.Http.Reply.{flatten}
use bnc.Http.Parser.{Parser, good, bad, indeterminate, Parsed, stopped, faulted, parse}
use bnc.Http.Parser.Chunks.{resume, parse-append}
use bnc.Http.Handler.{Backend, handle_request}
use bnc.Http.Connection.{
  Connection, Received, crashed, device_undefined, next, do_read, do_write, sse_start, on_read,
  on_parsed, is_event_stream,
}

module _ (b : Backend) where
  -- Reads are started as long as the handler starts one.
  abbrev pub on_reads : b.State → Connection → List Bytes → Received b.State
  on_reads s c [] = next s c do_read
  on_reads s c (bytes ∷ more) = elim (on_read b s c bytes) [
    | crashed f ↦ crashed f
    | device_undefined ↦ device_undefined
    | next t d do_read ↦ on_reads t d more
    | next t d do_write ↦ next t d do_write
    | next t d sse_start ↦ next t d sse_start
  ]

  -- The parser that the connection had before is no matter.
  same_connection :
      (o : Parsed) (s : b.State) (c : Connection) (p : Parser)
      → on_parsed b o s (record c { parser = p }) ≡ on_parsed b o s c
  same_connection (faulted f) s c p = refl
  same_connection (stopped good left q) s c p = refl
  same_connection (stopped bad left q) s c p = refl
  same_connection (stopped indeterminate left q) s c p = refl

  -- What follows the first read, of which the parser made `o`.
  first_read :
      (o : Parsed) (s : b.State) (c : Connection) (rest : Bytes) (more : List Bytes)
      → ((d : Connection) → on_reads s d more ≡ on_read b s d rest)
      → (elim (on_parsed b o s c) [
        | crashed f ↦ crashed f
        | device_undefined ↦ device_undefined
        | next t d do_read ↦ on_reads t d more
        | next t d do_write ↦ next t d do_write
        | next t d sse_start ↦ next t d sse_start
      ])
        ≡ on_parsed b (resume o rest) s c
  unfolding on_read
  first_read (faulted f) s c rest more h = refl
  first_read (stopped bad left p) s c rest more h = refl
  first_read (stopped indeterminate left p) s c rest more h =
      h (record c { parser = p }) ∙ same_connection (parse p rest) s c p
  first_read (stopped good left p) s c rest more h =
      let (t, rep) = handle_request b s p.req c.reply in
      elim (Bool-cases (b.is_defined t)) [
        | inr u ↦ rw u refl
        | inl u ↦ elim (Bool-cases (is_event_stream rep.headers)) [
          | inl e ↦ rw (u, e) refl
          | inr e ↦ rw (u, e) refl
        ]
      ]

  -- Reading a request in pieces, however it is cut, ends as one read of the whole: with the same
  -- reply, device and parser, and with another read only if the request is not yet complete.
  pub on_reads-flatten :
      (pieces : List Bytes) (s : b.State) (c : Connection)
      → on_reads s c pieces ≡ on_read b s c (flatten pieces)
  unfolding on_read parse
  on_reads-flatten [] s c = refl
  on_reads-flatten (bytes ∷ more) s c =
      first_read (parse c.parser bytes) s c (flatten more) more (on_reads-flatten more s)
      ∙ ap (λ o. on_parsed b o s c) (sym (parse-append bytes (flatten more) c.parser))
