-- ===== src/Http/Server/Accepting.antt =====
-- The acceptor of httpd/server.cpp.
use bnc.Prelude.{
  ℕ, zero, suc, ◌≤◌, Bool, true, false, List, [], ◌∷◌, ◌++◌, some, ◌≡◌, ◌∙◌, ap, sym, subst, refl,
  arith, count, count-append, map, if◌then◌else◌,
}
use bnc.Prelude.Bytes.{Bytes}
use bnc.Http.Reply.{Status}
use bnc.Http.Handler.{Backend}
use bnc.Http.Connection.{
  Connection, Next, do_read, do_write, sse_start, Received, crashed, device_undefined, next,
  on_read,
}
use bnc.Http.Server.{
  Op, read_some, write_reply, write_opening, write_event, accept, wait_signal, Ec, success, aborted,
  failed, Server, start, stop, sse_stop, stop_all, open_stream, sse_handler, signal, follow,
  on_accept, on_signal, on_write, on_event_written, received, complete, Step, completes, signals,
  Reachable, begins, goes_on, begin, update,
}
use bnc.Prelude.{some-injective}

abbrev pub is_accept : Op → Bool
is_accept (read_some i) = false
is_accept (write_reply i) = false
is_accept (write_opening i) = false
is_accept (write_event i) = false
is_accept accept = true
is_accept wait_signal = false

abbrev accepts : List Op → ℕ
accepts = count is_accept

accepts-events : (xs : List ℕ) → accepts (map (λ i. write_event i) xs) ≡ 0
accepts-events [] = refl
accepts-events (x ∷ xs) = accepts-events xs

module _ {S : Type 0} where
  -- As many outstanding accepts in `v` as in `w`, and both accept or neither.
  record Keeps (w v : Server S) : Type 0 where
    same_count : accepts v.pending ≡ accepts w.pending
    same_state : v.accepting ≡ w.accepting

  signal-Keeps :
      (n : ℕ) (st : Status) (data_text id event : Bytes) (w : Server S)
      → Keeps w (signal n st data_text id event w)
  unfolding signal sse_handler
  signal-Keeps zero st data_text id event w = record { same_count = refl; same_state = refl }
  signal-Keeps (suc n) st data_text id event w =
      let k = signal-Keeps n st data_text id event w in
      let u = signal n st data_text id event w in
      record {
        same_count = omega (
          arith,
          k.same_count,
          count-append is_accept u.pending (map (λ i. write_event i) u.manager.sse_objects),
          accepts-events u.manager.sse_objects,
        );
        same_state = k.same_state;
      }

  follow-Keeps : (i : ℕ) (n : Next) (w : Server S) → Keeps w (follow i n w)
  unfolding follow open_stream
  follow-Keeps i do_read w = record {
    same_count = omega (arith, count-append is_accept w.pending (read_some i ∷ []));
    same_state = refl;
  }
  follow-Keeps i do_write w = record {
    same_count = omega (arith, count-append is_accept w.pending (write_reply i ∷ []));
    same_state = refl;
  }
  follow-Keeps i sse_start w = record {
    same_count = omega (arith, count-append is_accept w.pending (write_opening i ∷ []));
    same_state = refl;
  }

  on_write-Keeps : (i : ℕ) (ec : Ec) (w : Server S) → Keeps w (on_write i ec w)
  unfolding on_write stop
  on_write-Keeps i success w = record { same_count = refl; same_state = refl }
  on_write-Keeps i aborted w = record { same_count = refl; same_state = refl }
  on_write-Keeps i failed w = record { same_count = refl; same_state = refl }

  on_event_written-Keeps : (i : ℕ) (ec : Ec) (w : Server S) → Keeps w (on_event_written i ec w)
  unfolding on_event_written sse_stop
  on_event_written-Keeps i success w = record { same_count = refl; same_state = refl }
  on_event_written-Keeps i aborted w = record { same_count = refl; same_state = refl }
  on_event_written-Keeps i failed w = record { same_count = refl; same_state = refl }

  -- At most one accept is outstanding, and one is if the server accepts.
  record Accepting (w : Server S) : Type 0 where
    at_most_one : accepts w.pending ≤ 1
    one_if : w.accepting ≡ true → accepts w.pending ≡ 1

  Keeps-Accepting : (w v : Server S) → Keeps w v → Accepting w → Accepting v
  Keeps-Accepting w v k a = record {
    at_most_one = omega (arith, k.same_count, a.at_most_one);
    one_if = λ e. k.same_count ∙ a.one_if (sym k.same_state ∙ e);
  }

  if-Accepting :
      (a : Bool) (w x : Server S)
      → w.accepting ≡ a
      → accepts w.pending ≡ 0
      → accepts x.pending ≡ 1
      → Accepting (if a then x else w)
  if-Accepting true w x e z o = record { at_most_one = omega (arith, o); one_if = λ k. o }
  if-Accepting false w x e z o = record { at_most_one = omega (arith, z); one_if = λ k. cc }

  -- An accept has completed.
  on_accept-Accepting :
      (ec : Ec) (st : Status) (w : Server S) → accepts w.pending ≡ 0 → Accepting (on_accept ec st w)
  unfolding on_accept start
  on_accept-Accepting success st w z =
      if-Accepting w.accepting w (begin accept (start st w)) refl z (
        omega (
          arith,
          z,
          count-append is_accept (w.pending ++ read_some w.fresh ∷ []) (accept ∷ []),
          count-append is_accept w.pending (read_some w.fresh ∷ []),
        ))
  on_accept-Accepting aborted st w z =
      if-Accepting w.accepting w (begin accept w) refl z
        (omega (arith, z, count-append is_accept w.pending (accept ∷ [])))
  on_accept-Accepting failed st w z =
      if-Accepting w.accepting w (begin accept w) refl z
        (omega (arith, z, count-append is_accept w.pending (accept ∷ [])))

module _ (b : Backend) where
  -- Where an operation other than an accept has completed, `rest` is what was outstanding beside it.
  dropped :
      (xs ys : List Op) (o : Op) (w : Server b.State)
      → w.pending ≡ xs ++ o ∷ ys
      → is_accept o ≡ false
      → Keeps w (record w { pending = xs ++ ys })
  dropped xs ys o w p n = record {
    same_count =
        ground (
          arith,
          n,
          ap accepts p,
          count-append is_accept xs (o ∷ ys),
          count-append is_accept xs ys,
        );
    same_state = refl;
  }

  received-Keeps :
      (i : ℕ) (r : Received b.State) (w v : Server b.State) → received b i r w ≡ some v → Keeps w v
  received-Keeps i (crashed f) w v e = cc
  received-Keeps i device_undefined w v e = cc
  received-Keeps i (next s c n) w v e = subst (Keeps w) (some-injective e) (
      let k = follow-Keeps i n (record w { device = s; connection = update w.connection i c }) in
      record { same_count = k.same_count; same_state = k.same_state })

  complete-Accepting :
      (xs ys : List Op) (o : Op) (ec : Ec) (bytes : Bytes) (st : Status) (w v : Server b.State)
      → w.pending ≡ xs ++ o ∷ ys
      → Accepting w
      → complete b o ec bytes st (record w { pending = xs ++ ys }) ≡ some v
      → Accepting v
  unfolding complete stop on_signal stop_all
  complete-Accepting xs ys o ec bytes st w v p a e = go o ec p e
    where
      rest : Server b.State
      rest = record w { pending = xs ++ ys }

      keep : (q : Op) → w.pending ≡ xs ++ q ∷ ys → is_accept q ≡ false → Accepting rest
      keep q p n = Keeps-Accepting w rest (dropped xs ys q w p n) a

      go :
          (q : Op) (ec : Ec)
          → w.pending ≡ xs ++ q ∷ ys
          → complete b q ec bytes st rest ≡ some v
          → Accepting v
      go (read_some i) success p e =
          Keeps-Accepting rest v
            (received-Keeps i (on_read b w.device (w.connection i) bytes) rest v e)
            (keep (read_some i) p refl)
      go (read_some i) aborted p e = subst Accepting (some-injective e) (keep (read_some i) p refl)
      go (read_some i) failed p e =
          let k = keep (read_some i) p refl in
          subst Accepting (some-injective e)
            (record { at_most_one = k.at_most_one; one_if = k.one_if })
      go (write_reply i) ec p e =
          subst Accepting (some-injective e)
            (Keeps-Accepting rest _ (on_write-Keeps i ec rest) (keep (write_reply i) p refl))
      go (write_opening i) ec p e =
          subst Accepting (some-injective e) (keep (write_opening i) p refl)
      go (write_event i) ec p e =
          subst Accepting (some-injective e) (
            Keeps-Accepting rest _ (on_event_written-Keeps i ec rest) (keep (write_event i) p refl))
      go accept ec p e = subst Accepting (some-injective e) (
          on_accept-Accepting ec st rest (
            omega (
              arith,
              a.at_most_one,
              ap accepts p,
              count-append is_accept xs (accept ∷ ys),
              count-append is_accept xs ys,
            )))
      go wait_signal ec p e =
          let k = keep wait_signal p refl in
          subst Accepting (some-injective e)
            (record { at_most_one = k.at_most_one; one_if = λ f. cc })

  Step-Accepting : (w v : Server b.State) → Step b w v → Accepting w → Accepting v
  Step-Accepting w v (completes xs ys o ec bytes st u p e) a =
      complete-Accepting xs ys o ec bytes st w u p a e
  Step-Accepting w v (signals st data_text id event) a =
      Keeps-Accepting w _ (signal-Keeps w.slots st data_text id event w) a

  Reachable-Accepting :
      (s : b.State) (memory : ℕ → Connection) (w : Server b.State)
      → Reachable b s memory w
      → Accepting w
  Reachable-Accepting s memory w begins = record { at_most_one = omega arith; one_if = λ e. refl }
  Reachable-Accepting s memory w (goes_on u v r t) =
      Step-Accepting u v t (Reachable-Accepting s memory u r)

  -- In every state that the server can reach and in which its acceptor is open, exactly one accept is
  -- outstanding, whatever failed before: the server never stops to accept connections by itself.
  pub Reachable-is_accept :
      (s : b.State) (memory : ℕ → Connection) (w : Server b.State)
      → Reachable b s memory w
      → w.accepting ≡ true
      → count is_accept w.pending ≡ 1
  Reachable-is_accept s memory w r e = (Reachable-Accepting s memory w r).one_if e
