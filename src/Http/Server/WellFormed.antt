-- ===== src/Http/Server/WellFormed.antt =====
-- The invariant of httpd/server.cpp, and the handlers.
use bnc.Prelude.{
  ℕ, zero, suc, Bool, true, false, List, [], ◌∷◌, ◌++◌, ◌≡◌, subst, if◌then◌else◌, refl, arith, All,
  map, append-nil,
}
use bnc.Prelude.Bytes.{Bytes}
use bnc.Http.Reply.{Status, flatten}
use bnc.Http.Connection.{Connection, new_connection, sse_write}
use bnc.Http.Server.{
  Op, write_event, accept, Ec, success, aborted, failed, event_to, Server, begin, start, stop,
  sse_stop, stop_all, sse_handler, signal, on_accept, on_signal, on_write, on_event_written,
  new_server,
}
use bnc.Http.Server.Counting.{is_read, count_reads-events, count_answers-events}
use bnc.Http.Server.Sets.{
  Sets, new_manager-Sets, start-Sets, stop-Sets, sse_stop-Sets, stop_all-Sets,
}
use bnc.Http.Server.Answers.{Answers, ReadableWrite, start-Answers, other-Answers}

pub record WellFormed {S : Type 0} (w : Server S) : Type 0 where
  pub answers : Answers w.pending w.writes w.fresh w.connection
  pub sets : Sets w.manager w.fresh w.slots

ReadableWrite-events :
    (bytes : Bytes) (xs : List ℕ) → All ReadableWrite (map (λ i. event_to i bytes) xs)
ReadableWrite-events bytes [] = tt
ReadableWrite-events bytes (x ∷ xs) = (tt, ReadableWrite-events bytes xs)

module _ {S : Type 0} where
  pub new_server-WellFormed : (s : S) (memory : ℕ → Connection) → WellFormed (new_server s memory)
  new_server-WellFormed s memory = record {
    answers = record {
      once = λ i. omega arith;
      unborn = λ i h. refl;
      untouched = λ i l. elim l [ ];
      readable = tt;
    };
    sets = new_manager-Sets;
  }

  -- One more operation, which is no read.
  begin-WellFormed :
      (o : Op) (w : Server S)
      → ((i : ℕ) → is_read i o ≡ false)
      → WellFormed w
      → WellFormed (begin o w)
  begin-WellFormed o w n v = record {
    answers =
        subst (λ l. Answers (w.pending ++ o ∷ []) l w.fresh w.connection) (append-nil w.writes)
          (other-Answers w.writes w.fresh w.connection w.pending v.answers (o ∷ []) []
            (λ i. ground (arith, n i)) (λ i. refl) tt);
    sets = v.sets;
  }

  pub start-WellFormed : (st : Status) (w : Server S) → WellFormed w → WellFormed (start st w)
  unfolding start
  start-WellFormed st w v = record {
    answers =
        start-Answers w.writes w.fresh w.connection w.pending v.answers (new_connection st) refl;
    sets = start-Sets w.manager w.fresh w.slots v.sets;
  }

  pub stop-WellFormed : (i : ℕ) (w : Server S) → WellFormed w → WellFormed (stop i w)
  unfolding stop
  stop-WellFormed i w v = record {
    answers = v.answers;
    sets = stop-Sets w.manager w.fresh w.slots v.sets i;
  }

  pub sse_stop-WellFormed : (i : ℕ) (w : Server S) → WellFormed w → WellFormed (sse_stop i w)
  unfolding sse_stop
  sse_stop-WellFormed i w v = record {
    answers = v.answers;
    sets = sse_stop-Sets w.manager w.fresh w.slots v.sets i;
  }

  pub stop_all-WellFormed : (w : Server S) → WellFormed w → WellFormed (stop_all w)
  unfolding stop_all
  stop_all-WellFormed w v = record {
    answers = v.answers;
    sets = stop_all-Sets w.manager w.fresh w.slots v.sets;
  }

  pub sse_handler-WellFormed :
      (st : Status) (data_text id event : Bytes) (w : Server S)
      → WellFormed w
      → WellFormed (sse_handler st data_text id event w)
  unfolding sse_handler
  sse_handler-WellFormed st data_text id event w v =
      let bytes = flatten (sse_write st data_text id event) in
      let all = w.manager.sse_objects in
      record {
        answers =
            other-Answers w.writes w.fresh w.connection w.pending v.answers
              (map (λ i. write_event i) all) (map (λ i. event_to i bytes) all)
              (λ i. count_reads-events i all) (λ i. count_answers-events i bytes all)
              (ReadableWrite-events bytes all);
        sets = v.sets;
      }

  pub signal-WellFormed :
      (n : ℕ) (st : Status) (data_text id event : Bytes) (w : Server S)
      → WellFormed w
      → WellFormed (signal n st data_text id event w)
  unfolding signal
  signal-WellFormed zero st data_text id event w v = v
  signal-WellFormed (suc n) st data_text id event w v =
      sse_handler-WellFormed st data_text id event _ (signal-WellFormed n st data_text id event w v)

  if-WellFormed :
      (a : Bool) {x y : Server S} → WellFormed x → WellFormed y → WellFormed (if a then x else y)
  if-WellFormed true v u = v
  if-WellFormed false v u = u

  pub on_accept-WellFormed :
      (ec : Ec) (st : Status) (w : Server S) → WellFormed w → WellFormed (on_accept ec st w)
  unfolding on_accept
  on_accept-WellFormed success st w v =
      if-WellFormed w.accepting
        (begin-WellFormed accept (start st w) (λ i. refl) (start-WellFormed st w v)) v
  on_accept-WellFormed aborted st w v =
      if-WellFormed w.accepting (begin-WellFormed accept w (λ i. refl) v) v
  on_accept-WellFormed failed st w v =
      if-WellFormed w.accepting (begin-WellFormed accept w (λ i. refl) v) v

  pub on_signal-WellFormed : (w : Server S) → WellFormed w → WellFormed (on_signal w)
  unfolding on_signal
  on_signal-WellFormed w v =
      stop_all-WellFormed (record w { accepting = false })
        (record { answers = v.answers; sets = v.sets })

  pub on_write-WellFormed :
      (i : ℕ) (ec : Ec) (w : Server S) → WellFormed w → WellFormed (on_write i ec w)
  unfolding on_write
  on_write-WellFormed i success w v =
      stop-WellFormed i _ (record { answers = v.answers; sets = v.sets })
  on_write-WellFormed i aborted w v = v
  on_write-WellFormed i failed w v = stop-WellFormed i w v

  pub on_event_written-WellFormed :
      (i : ℕ) (ec : Ec) (w : Server S) → WellFormed w → WellFormed (on_event_written i ec w)
  unfolding on_event_written
  on_event_written-WellFormed i success w v = v
  on_event_written-WellFormed i aborted w v =
      sse_stop-WellFormed i _ (record { answers = v.answers; sets = v.sets })
  on_event_written-WellFormed i failed w v =
      sse_stop-WellFormed i _ (record { answers = v.answers; sets = v.sets })
