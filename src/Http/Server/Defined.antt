-- ===== src/Http/Server/Defined.antt =====
-- Undefined behaviour in the completion handlers of httpd/connection.cpp and httpd/server.cpp.
use bnc.Prelude.{
  ◌⊎◌, ◌∙◌, ℕ, false, List, ◌∷◌, ◌++◌, none, ◌≡◌, ◌≢◌, ap, refl, Bool-cases, inl, inr,
}
use bnc.Prelude.Bytes.{Bytes}
use bnc.Http.Reply.{Status}
use bnc.Http.Parser.{
  Parser, Fault, int_overflow, back_of_empty, good, bad, indeterminate, Parsed, stopped, faulted,
  parse,
}
use bnc.Http.Parser.Safety.{SafeParse, parse-SafeParse}
use bnc.Http.Handler.{Backend, handle_request}
use bnc.Http.Connection.{Connection, on_read, on_parsed, answer}
use bnc.Http.Server.{
  Op, read_some, write_reply, write_opening, write_event, accept, wait_signal, Ec, success, aborted,
  failed, Server, received, complete, Reachable,
}
use bnc.Http.Server.Invariant.{Reachable-WellFormed}
use bnc.Http.Server.SafeParsers.{Reachable-Safe, read-born}

-- Faults are two.
overflow_only : (f : Fault) → f ≢ back_of_empty → f ≡ int_overflow
overflow_only back_of_empty h = absurd (h refl)
overflow_only int_overflow h = refl

module _ (b : Backend) where
  -- A read of these bytes overflows an int in the parser.
  pub record Overflows (w : Server b.State) (o : Op) (ec : Ec) (bytes : Bytes) : Type 0 where
    pub index : ℕ
    pub is_read : o ≡ read_some index
    pub in_time : ec ≡ success
    pub overflow : parse (w.connection index).parser bytes ≡ faulted int_overflow

  -- A read of these bytes ends a request for which the call of the device is undefined.
  pub record Misused (w : Server b.State) (o : Op) (ec : Ec) (bytes : Bytes) : Type 0 where
    pub index : ℕ
    pub is_read : o ≡ read_some index
    pub in_time : ec ≡ success
    pub rest : Bytes
    pub parser : Parser
    pub parsed : parse (w.connection index).parser bytes ≡ stopped good rest parser
    pub undefined :
        b.is_defined (handle_request b w.device parser.req (w.connection index).reply).0 ≡ false

  answer-undefined :
      (i : ℕ) (s : b.State) (c : Connection) (w : Server b.State)
      → received b i (answer b s c) w ≡ none
      → b.is_defined (handle_request b s c.parser.req c.reply).0 ≡ false
  answer-undefined i s c w e =
      elim (Bool-cases (b.is_defined (handle_request b s c.parser.req c.reply).0)) [
        | inr u ↦ u
        | inl u ↦ absurd (let stuck = rw u at e in cc)
      ]

  read-undefined :
      (i : ℕ) (o : Parsed) (bytes : Bytes) (w u : Server b.State)
      → parse (w.connection i).parser bytes ≡ o
      → SafeParse o
      → received b i (on_parsed b o w.device (w.connection i)) u ≡ none
      → Overflows w (read_some i) success bytes ⊎ Misused w (read_some i) success bytes
  read-undefined i (faulted f) bytes w u p h e = inl (record {
    index = i;
    is_read = refl;
    in_time = refl;
    overflow = p ∙ ap (λ g. faulted g) (overflow_only f h);
  })
  read-undefined i (stopped good rest q) bytes w u p h e = inr (record {
    index = i;
    is_read = refl;
    in_time = refl;
    rest = rest;
    parser = q;
    parsed = p;
    undefined = answer-undefined i w.device (record (w.connection i) { parser = q }) u e;
  })
  read-undefined i (stopped bad rest q) bytes w u p h e = cc
  read-undefined i (stopped indeterminate rest q) bytes w u p h e = cc

  -- In every state that the server can reach, the completion of any outstanding operation, however it
  -- completes, has a next state, except that of a read whose bytes make the parser of its connection
  -- overflow an int, or end a request for which the behaviour of the device's `http_request` is
  -- undefined.
  pub complete-Overflows :
      (s : b.State) (memory : ℕ → Connection) (w : Server b.State) (xs ys : List Op) (o : Op)
      (ec : Ec) (bytes : Bytes) (st : Status)
      → Reachable b s memory w
      → w.pending ≡ xs ++ o ∷ ys
      → complete b o ec bytes st (record w { pending = xs ++ ys }) ≡ none
      → Overflows w o ec bytes ⊎ Misused w o ec bytes
  unfolding complete on_read
  complete-Overflows s memory w xs ys o ec bytes st r p e = go o ec p e
    where
      rest : Server b.State
      rest = record w { pending = xs ++ ys }

      go :
          (q : Op) (ec : Ec)
          → w.pending ≡ xs ++ q ∷ ys
          → complete b q ec bytes st rest ≡ none
          → Overflows w q ec bytes ⊎ Misused w q ec bytes
      go (read_some i) success p e =
          let l = read-born b xs ys i w (Reachable-WellFormed b s memory w r) p in
          read-undefined i (parse (w.connection i).parser bytes) bytes w rest refl
            (parse-SafeParse bytes (w.connection i).parser
              ((Reachable-Safe b s memory w r).parsers i l))
            e
      go (read_some i) aborted p e = cc
      go (read_some i) failed p e = cc
      go (write_reply i) ec p e = cc
      go (write_opening i) ec p e = cc
      go (write_event i) ec p e = cc
      go accept ec p e = cc
      go wait_signal ec p e = cc
