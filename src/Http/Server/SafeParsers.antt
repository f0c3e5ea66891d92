-- ===== src/Http/Server/SafeParsers.antt =====
-- The parsers of the connections of httpd/server.cpp between reads: a header is there where the state
-- of the parser needs one.
use bnc.Prelude.{
  ℕ, zero, suc, ◌<◌, Bool, true, false, List, ◌∷◌, ◌++◌, some, ◌≡◌, ◌≢◌, ◌==◌, subst, arith,
  if◌then◌else◌, Bool-cases, inl, inr, some-injective,
}
use bnc.Prelude.Bytes.{Bytes}
use bnc.Http.Reply.{Status}
use bnc.Http.Parser.{
  Parser, back_of_empty, good, bad, indeterminate, Parsed, stopped, faulted, parse,
}
use bnc.Http.Parser.Safety.{HasHeader, SafeParse, parse-SafeParse}
use bnc.Http.Handler.{Backend, handle_request}
use bnc.Http.Connection.{
  Connection, new_connection, Next, do_read, do_write, sse_start, Received, crashed,
  device_undefined, next, on_read, on_parsed, sse_reply,
}
use bnc.Http.Server.{
  Op, read_some, write_reply, write_opening, write_event, accept, wait_signal, Ec, success, aborted,
  failed, Server, update, start, stop, sse_stop, stop_all, open_stream, sse_handler, signal, follow,
  on_accept, on_signal, on_write, on_event_written, received, complete, completes, signals,
  Reachable, begins, goes_on, begin,
}
use bnc.Http.Server.WellFormed.{WellFormed}
use bnc.Http.Server.Answers.{Answers, read-Free}
use bnc.Http.Server.Invariant.{Reachable-WellFormed}

abbrev pub SafeParser : Parser → Type 0
SafeParser p = HasHeader p.state p.req.headers

-- The parser of each connection that was made may go on.
pub record Safe {S : Type 0} (w : Server S) : Type 0 where
  pub parsers : (i : ℕ) → i < w.fresh → SafeParser (w.connection i).parser

abbrev SafeReceived : {S : Type 0} → Received S → Type 0
SafeReceived (crashed f) = f ≢ back_of_empty
SafeReceived device_undefined = Unit
SafeReceived (next s c n) = SafeParser c.parser

update-SafeParser :
    (fresh i : ℕ) (f : ℕ → Connection) (c : Connection)
    → SafeParser c.parser
    → ((j : ℕ) → j < fresh → (j == i) ≡ false → SafeParser (f j).parser)
    → (j : ℕ) → j < fresh
    → SafeParser (update f i c j).parser
update-SafeParser fresh i f c h k j l = elim (Bool-cases (j == i)) [
  | inl e ↦ rw e h
  | inr e ↦ rw e (k j l e)
]

module _ {S : Type 0} where
  follow-Safe : (i : ℕ) (n : Next) (w : Server S) → i < w.fresh → Safe w → Safe (follow i n w)
  unfolding follow open_stream
  follow-Safe i do_read w l v = record { parsers = v.parsers }
  follow-Safe i do_write w l v = record { parsers = v.parsers }
  follow-Safe i sse_start w l v = record {
    parsers =
        update-SafeParser w.fresh i w.connection
          (record (w.connection i) { reply = sse_reply (w.connection i).reply }) (v.parsers i l)
          (λ j k e. v.parsers j k);
  }

  start-Safe : (st : Status) (w : Server S) → Safe w → Safe (start st w)
  unfolding start
  start-Safe st w v = record {
    parsers =
        update-SafeParser (suc w.fresh) w.fresh w.connection (new_connection st) tt
          (λ j l e. v.parsers j (ground arith));
  }

  signal-Safe :
      (n : ℕ) (st : Status) (data_text id event : Bytes) (w : Server S)
      → Safe w
      → Safe (signal n st data_text id event w)
  unfolding signal sse_handler
  signal-Safe zero st data_text id event w v = v
  signal-Safe (suc n) st data_text id event w v =
      let k = signal-Safe n st data_text id event w v in record { parsers = k.parsers }

  if-Safe : (a : Bool) (x y : Server S) → Safe x → Safe y → Safe (if a then x else y)
  if-Safe true x y v u = v
  if-Safe false x y v u = u

  on_accept-Safe : (ec : Ec) (st : Status) (w : Server S) → Safe w → Safe (on_accept ec st w)
  unfolding on_accept
  on_accept-Safe success st w v =
      let k = start-Safe st w v in
      if-Safe w.accepting (begin accept (start st w)) w (record { parsers = k.parsers }) v
  on_accept-Safe aborted st w v =
      if-Safe w.accepting (begin accept w) w (record { parsers = v.parsers }) v
  on_accept-Safe failed st w v =
      if-Safe w.accepting (begin accept w) w (record { parsers = v.parsers }) v

  on_write-Safe : (i : ℕ) (ec : Ec) (w : Server S) → Safe w → Safe (on_write i ec w)
  unfolding on_write stop
  on_write-Safe i success w v = record { parsers = v.parsers }
  on_write-Safe i aborted w v = v
  on_write-Safe i failed w v = record { parsers = v.parsers }

  on_event_written-Safe : (i : ℕ) (ec : Ec) (w : Server S) → Safe w → Safe (on_event_written i ec w)
  unfolding on_event_written sse_stop
  on_event_written-Safe i success w v = v
  on_event_written-Safe i aborted w v = record { parsers = v.parsers }
  on_event_written-Safe i failed w v = record { parsers = v.parsers }

module _ (b : Backend) where
  on_parsed-SafeReceived :
      (o : Parsed) (s : b.State) (c : Connection) → SafeParse o → SafeReceived (on_parsed b o s c)
  on_parsed-SafeReceived (faulted f) s c h = h
  on_parsed-SafeReceived (stopped good rest p) s c h =
      elim (Bool-cases (b.is_defined (handle_request b s p.req c.reply).0)) [
        | inl u ↦ rw u h
        | inr u ↦ rw u tt
      ]
  on_parsed-SafeReceived (stopped bad rest p) s c h = h
  on_parsed-SafeReceived (stopped indeterminate rest p) s c h = h

  received-Safe :
      (i : ℕ) (r : Received b.State) (w v : Server b.State)
      → i < w.fresh
      → SafeReceived r
      → Safe w
      → received b i r w ≡ some v
      → Safe v
  received-Safe i (crashed f) w v l h k e = cc
  received-Safe i device_undefined w v l h k e = cc
  received-Safe i (next s c n) w v l h k e = subst Safe (some-injective e) (
      follow-Safe i n _ l (record {
        parsers = update-SafeParser w.fresh i w.connection c h (λ j m d. k.parsers j m);
      }))

  -- The connection of an outstanding read was made.
  pub read-born :
      (xs ys : List Op) (i : ℕ) (w : Server b.State)
      → WellFormed w
      → w.pending ≡ xs ++ read_some i ∷ ys
      → i < w.fresh
  read-born xs ys i w k p =
      (read-Free w.writes w.fresh w.connection xs ys i
        (subst (λ l. Answers l w.writes w.fresh w.connection) p k.answers)).born

  complete-Safe :
      (xs ys : List Op) (o : Op) (ec : Ec) (bytes : Bytes) (st : Status) (w v : Server b.State)
      → WellFormed w
      → w.pending ≡ xs ++ o ∷ ys
      → Safe w
      → complete b o ec bytes st (record w { pending = xs ++ ys }) ≡ some v
      → Safe v
  unfolding complete stop on_signal stop_all on_read
  complete-Safe xs ys o ec bytes st w v k p a e = go o ec p e
    where
      rest : Server b.State
      rest = record w { pending = xs ++ ys }

      left : Safe rest
      left = record { parsers = a.parsers }

      go :
          (q : Op) (ec : Ec)
          → w.pending ≡ xs ++ q ∷ ys
          → complete b q ec bytes st rest ≡ some v
          → Safe v
      go (read_some i) success p e =
          let l = read-born xs ys i w k p in
          received-Safe i (on_read b w.device (w.connection i) bytes) rest v l
            (on_parsed-SafeReceived (parse (w.connection i).parser bytes) w.device (w.connection i)
              (parse-SafeParse bytes (w.connection i).parser (a.parsers i l)))
            left e
      go (read_some i) aborted p e = subst Safe (some-injective e) left
      go (read_some i) failed p e = subst Safe (some-injective e) (record { parsers = a.parsers })
      go (write_reply i) ec p e = subst Safe (some-injective e) (on_write-Safe i ec rest left)
      go (write_opening i) ec p e = subst Safe (some-injective e) left
      go (write_event i) ec p e =
          subst Safe (some-injective e) (on_event_written-Safe i ec rest left)
      go accept ec p e = subst Safe (some-injective e) (on_accept-Safe ec st rest left)
      go wait_signal ec p e = subst Safe (some-injective e) (record { parsers = a.parsers })

  -- It is so in every reachable state.
  pub Reachable-Safe :
      (s : b.State) (memory : ℕ → Connection) (w : Server b.State) → Reachable b s memory w → Safe w
  Reachable-Safe s memory w begins = record { parsers = λ i l. elim l [ ] }
  Reachable-Safe s memory w (goes_on u v r (completes xs ys o ec bytes st z p e)) =
      complete-Safe xs ys o ec bytes st u z (Reachable-WellFormed b s memory u r) p
        (Reachable-Safe s memory u r) e
  Reachable-Safe s memory w (goes_on u v r (signals st data_text id event)) =
      signal-Safe u.slots st data_text id event u (Reachable-Safe s memory u r)
