-- ===== src/Http/Server/Invariant.antt =====
-- The invariant and the completion of each operation of httpd/server.cpp.
use bnc.Prelude.{
  ℕ, true, List, ◌∷◌, ◌++◌, some, ◌==◌, ◌≡◌, ◌∙◌, ap, sym, subst, refl, arith, if_true, if_false,
  some-injective,
}
use bnc.Prelude.Bytes.{Bytes}
use bnc.Http.Reply.{Status, to_buffers, flatten}
use bnc.Http.Handler.{Backend}
use bnc.Http.Connection.{
  Connection, do_read, do_write, sse_start, Received, crashed, device_undefined, next, on_read,
  sse_reply, sse_opening,
}
use bnc.Http.Connection.Replies.{Readable, Answerable, on_read-Answerable}
use bnc.Http.Server.{
  Op, read_some, write_reply, write_opening, write_event, accept, wait_signal, Ec, success, aborted,
  failed, reply_to, stream_to, Server, update, follow, received, complete, Step, completes, signals,
  Reachable, begins, goes_on,
}
use bnc.Http.Server.Sets.{sse_start-Sets}
use bnc.Http.Server.Answers.{Answers, Free, drop-Answers, read-Free, read-Answers, answer-Answers}
use bnc.Http.Server.WellFormed.{
  WellFormed, new_server-WellFormed, stop-WellFormed, signal-WellFormed, on_accept-WellFormed,
  on_signal-WellFormed, on_write-WellFormed, on_event_written-WellFormed,
}

same_index : (i : ℕ) → (i == i) ≡ true
same_index i = ground arith

module _ (b : Backend) where
  received-WellFormed :
      (i : ℕ) (r : Received b.State) (w v : Server b.State)
      → Free i w.pending w.writes w.fresh
      → Answerable (w.connection i).reply r
      → WellFormed w
      → received b i r w ≡ some v
      → WellFormed v
  unfolding follow
  received-WellFormed i (crashed f) w v free a k e = cc
  received-WellFormed i device_undefined w v free a k e = cc
  received-WellFormed i (next s c do_read) w v free a k e =
      subst WellFormed (some-injective e) (record {
        answers = read-Answers w.writes w.fresh w.connection w.pending k.answers i free c a;
        sets = k.sets;
      })
  received-WellFormed i (next s c do_write) w v free a k e =
      subst WellFormed (some-injective e) (record {
        answers =
            answer-Answers w.writes w.fresh w.connection w.pending k.answers i free
              (reply_to i (flatten (to_buffers (update w.connection i c i).reply))) (write_reply i)
              (update w.connection i c)
              (λ j h. ap (λ d. d.reply) (if_false (j == i) c (w.connection j) h)) (λ j. refl)
              (λ j. refl)
              (subst (λ d. Readable (flatten (to_buffers d.reply)))
                (sym (if_true (i == i) c (w.connection i) (same_index i))) a);
        sets = k.sets;
      })
  received-WellFormed i (next s c sse_start) w v free a k e =
      let f = update w.connection i c in
      let d : Connection = record (f i) { reply = sse_reply (f i).reply } in
      subst WellFormed (some-injective e) (record {
        answers =
            answer-Answers w.writes w.fresh w.connection w.pending k.answers i free
              (stream_to i (flatten (sse_opening (f i).reply))) (write_opening i) (update f i d)
              (λ j h.
                ap (λ d. d.reply)
                  (if_false (j == i) d (f j) h ∙ if_false (j == i) c (w.connection j) h))
              (λ j. refl) (λ j. refl) tt;
        sets = sse_start-Sets w.manager w.fresh w.slots k.sets i free.born;
      })

  complete-WellFormed :
      (xs ys : List Op) (o : Op) (ec : Ec) (bytes : Bytes) (st : Status) (w v : Server b.State)
      → w.pending ≡ xs ++ o ∷ ys
      → WellFormed w
      → complete b o ec bytes st (record w { pending = xs ++ ys }) ≡ some v
      → WellFormed v
  unfolding complete
  complete-WellFormed xs ys o ec bytes st w v p k e = go o ec before left e
    where
      before : Answers (xs ++ o ∷ ys) w.writes w.fresh w.connection
      before = subst (λ l. Answers l w.writes w.fresh w.connection) p k.answers

      rest : Server b.State
      rest = record w { pending = xs ++ ys }

      left : WellFormed rest
      left = record {
        answers = drop-Answers w.writes w.fresh w.connection xs ys o before;
        sets = k.sets;
      }

      go :
          (q : Op) (ec : Ec)
          → Answers (xs ++ q ∷ ys) w.writes w.fresh w.connection
          → WellFormed rest
          → complete b q ec bytes st rest ≡ some v
          → WellFormed v
      go (read_some i) success a l e =
          let free = read-Free w.writes w.fresh w.connection xs ys i a in
          received-WellFormed i (on_read b w.device (w.connection i) bytes) rest v free
            (on_read-Answerable b w.device (w.connection i) bytes
              (a.untouched i free.born free.no_answer))
            l e
      go (read_some i) aborted a l e = subst WellFormed (some-injective e) l
      go (read_some i) failed a l e = subst WellFormed (some-injective e) (stop-WellFormed i _ l)
      go (write_reply i) ec a l e =
          subst WellFormed (some-injective e) (on_write-WellFormed i ec _ l)
      go (write_opening i) ec a l e = subst WellFormed (some-injective e) l
      go (write_event i) ec a l e =
          subst WellFormed (some-injective e) (on_event_written-WellFormed i ec _ l)
      go accept ec a l e = subst WellFormed (some-injective e) (on_accept-WellFormed ec st _ l)
      go wait_signal ec a l e = subst WellFormed (some-injective e) (on_signal-WellFormed _ l)

  Step-WellFormed : (w v : Server b.State) → Step b w v → WellFormed w → WellFormed v
  Step-WellFormed w v (completes xs ys o ec bytes st u p e) k =
      complete-WellFormed xs ys o ec bytes st w u p k e
  Step-WellFormed w v (signals st data_text id event) k =
      signal-WellFormed w.slots st data_text id event w k

  -- In every state that the server can reach, whatever the clients send, however completions and
  -- events are interleaved and whatever fails, as long as no read makes the parser overflow an int
  -- or ends a request for which the behaviour of the device is undefined: a
  -- connection is answered at most once, and not while a read of it is outstanding; every reply that
  -- was written is read by a client with its status, its headers, of which the first is the length of
  -- the content, and its content; the two sets of the manager are in ascending order and
  -- disjoint; and its handler is registered with the device at most once.
  pub Reachable-WellFormed :
      (s : b.State) (memory : ℕ → Connection) (w : Server b.State)
      → Reachable b s memory w
      → WellFormed w
  Reachable-WellFormed s memory w begins = new_server-WellFormed s memory
  Reachable-WellFormed s memory w (goes_on u v r t) =
      Step-WellFormed u v t (Reachable-WellFormed s memory u r)
