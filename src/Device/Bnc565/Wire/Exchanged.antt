-- ===== src/Device/Bnc565/Wire/Exchanged.antt =====
-- An exchange over the port is one of the driver's, with the bytes that the reads hand over.
use bnc.Prelude.{
  suc, Bool, true, false, not, List, [], ◌∷◌, ◌++◌, ◌==◌, ◌||◌, is_empty, if◌then◌else◌, ◌≡◌, refl,
  ap, sym, ◌∙◌, Bool-cases, inl, inr, if_true, if_false,
}
use bnc.Prelude.Bytes.{Bytes}
use bnc.Device.Serial.{SerialPort, handle_read, read_bytes, write}
use bnc.Device.Serial.Write.{any_ends_wait, write_lem}
use bnc.Device.Receive.{Receiver, handle_receive}
use bnc.Device.Receive.Lines.{Read, handle_receive-append}
use bnc.Device.Bnc565.{
  Exchange, Driver, Sent, increment, failed, xsend_once, transmit, await, begin,
}
use bnc.Device.Bnc565.Wire.{
  Traffic, Wired, handle_reads, notified, wire_await, record_command, after_write, wire_transmit,
  wire_xsend,
}

-- A reader that keeps what it is given.
abbrev pub keep : Bytes → Bytes → Bytes
keep kept piece = kept ++ piece

abbrev heard : Receiver → SerialPort × Bytes → SerialPort × Receiver
heard r (p, kept) = (p, handle_receive r kept)

abbrev heard_bytes : Receiver → Bytes × Bytes → Bytes × Receiver
heard_bytes r (inbuf, kept) = (inbuf, handle_receive r kept)

read_bytes-keep :
    (r : Receiver) (s inbuf kept : Bytes)
    → read_bytes handle_receive inbuf (handle_receive r kept) s
      ≡ heard_bytes r (read_bytes keep inbuf kept s)
unfolding read_bytes
read_bytes-keep r [] inbuf kept = refl
read_bytes-keep r (c ∷ s) inbuf kept = elim (Bool-cases (c == b'\r' || c == b'\n')) [
  | inl e ↦ rw e (
      ap (λ q. read_bytes handle_receive [] q s)
        (sym (handle_receive-append r kept (inbuf ++ c ∷ [])))
      ∙ read_bytes-keep r s [] (kept ++ (inbuf ++ c ∷ [])))
  | inr e ↦ rw e (read_bytes-keep r s (inbuf ++ c ∷ []) kept)
]

pub handle_reads-keep :
    (r : Receiver) (rs : List Read) (p : SerialPort) (kept : Bytes)
    → handle_reads handle_receive (p, handle_receive r kept) rs
      ≡ heard r (handle_reads keep (p, kept) rs)
unfolding handle_reads handle_read
handle_reads-keep r [] p kept = refl
handle_reads-keep r ((true, s) ∷ rs) p kept = handle_reads-keep r rs p kept
handle_reads-keep r ((false, s) ∷ rs) p kept =
    let (inbuf, more) = read_bytes keep p.inbuf kept s in
    ap (λ q. handle_reads handle_receive (record p { inbuf = q.0 }, q.1) rs)
      (read_bytes-keep r s p.inbuf kept)
    ∙ handle_reads-keep r rs (record p { inbuf = inbuf }) more

abbrev pub early_of : SerialPort → Traffic → SerialPort × Bytes
early_of p t = handle_reads keep (p, []) t.before

-- The port after the write.
abbrev pub written_port : SerialPort → Bytes → Traffic → SerialPort
written_port p cmd t = (write (early_of p t).0 cmd t.writes).1

-- What is heard before the wait ends, and with it what is heard after.
abbrev pub during_of : SerialPort → Traffic → SerialPort × Bytes
during_of p t = handle_reads keep (p, []) t.during

abbrev pub late_of : SerialPort → Traffic → SerialPort × Bytes
late_of p t = handle_reads keep (during_of p t) t.after

-- The wait ends early.
abbrev is_early : Receiver → SerialPort → Traffic → Bool
is_early r p t = notified r (handle_receive r (during_of p t).1) || t.woken

-- What the exchange is to the driver.
abbrev pub exchange_of : SerialPort → Receiver → Bytes → Traffic → Exchange
exchange_of p r cmd t =
    let began = handle_receive r (early_of p t).1 in
    let q = written_port p cmd t in
    record {
      early = (early_of p t).1;
      written = any_ends_wait cmd t.writes;
      late = (late_of q t).1;
      timed_out = not (is_early began q t);
    }

module _ {D : Type 0} where
  await-wire_await :
      (early : Bool) (d : Driver D) (x : Exchange)
      → x.timed_out ≡ not early
      → wire_await early d ≡ await d x
  unfolding wire_await await
  await-wire_await true d x e = rw e refl
  await-wire_await false d x e = rw e refl

  -- What `transmit` does of some bytes.
  abbrev transmitted : Driver D → Exchange → Sent D
  transmitted d x =
      if x.written
      then await (record d { xsend_timeout_c = 0; receiver = handle_receive d.receiver x.late }) x
      else failed (record d { xsend_timeout_c = increment d.xsend_timeout_c })

  after_write-transmitted :
      (p : SerialPort) (d : Driver D) (t : Traffic) (ok : Bool) (x : Exchange)
      → x.written ≡ ok
      → x.late ≡ (late_of p t).1
      → x.timed_out ≡ not (is_early d.receiver p t)
      → (after_write p d t ok).result ≡ transmitted d x
  unfolding after_write handle_receive
  after_write-transmitted p d t false x w l o = sym (if_false _ _ _ w)
  after_write-transmitted p d t true x w l o =
      let after = λ (r : Receiver). record d { xsend_timeout_c = 0; receiver = r } in
      let waited = λ (q : SerialPort × Receiver).
        wire_await (notified d.receiver q.1 || t.woken)
          (after (handle_reads handle_receive q t.after).1) in
      let early = is_early d.receiver p t in
      let (q, kept) = during_of p t in
      ap waited (handle_reads-keep d.receiver t.during p [])
      ∙ ap (λ (s : SerialPort × Receiver). wire_await early (after s.1))
          (handle_reads-keep d.receiver t.after q kept)
      ∙ ap (λ s. wire_await early (after (handle_receive d.receiver s))) (sym l)
      ∙ await-wire_await early (after (handle_receive d.receiver x.late)) x o
      ∙ sym (if_true _ _ _ w)

  wire_transmit-transmit :
      (p : SerialPort) (d : Driver D) (cmd : Bytes) (t : Traffic) (x : Exchange)
      → x.written ≡ any_ends_wait cmd t.writes
      → x.late ≡ (late_of (write p cmd t.writes).1 t).1
      → x.timed_out ≡ not (is_early d.receiver (write p cmd t.writes).1 t)
      → (wire_transmit p d cmd t).result ≡ transmit d cmd x
  unfolding wire_transmit transmit
  wire_transmit-transmit p d cmd t x w l o =
      let (ok, q) = write p cmd t.writes in
      elim (Bool-cases (is_empty cmd)) [
        | inl i ↦ rw i refl
        | inr i ↦
            after_write-transmitted q (record_command d cmd) t ok x
              (w ∙ sym (write_lem p cmd t.writes i)) l
              (o
                ∙ ap (λ r. not (is_early r q t))
                    (sym (ap (λ (e : Driver D). e.receiver) (if_false _ _ _ i))))
            ∙ rw i refl
      ]

  -- Where the driver and the port agree on whether the port is open, a call of `_xsend` over the
  -- port returns what it returns in the exchange that has the bytes which the completed reads hand
  -- over, before the command and after it, in which the write is done in time if one that completes
  -- has transferred the whole command or its wait is woken with no notification, and whose wait for
  -- a reply ends by its limit if no line is completed before and it is not woken with no
  -- notification. The driver is left as there.
  pub wire_xsend-xsend_once :
      (p : SerialPort) (d : Driver D) (cmd : Bytes) (t : Traffic)
      → p.is_open ≡ d.is_open
      → (wire_xsend p d cmd t).result ≡ xsend_once (λ n. exchange_of p d.receiver cmd t) d cmd
  unfolding wire_xsend xsend_once handle_receive
  wire_xsend-xsend_once p d cmd t same =
      let x = exchange_of p d.receiver cmd t in
      let (q, early) = early_of p t in
      elim (Bool-cases p.is_open) [
        | inl e ↦
            ap (λ (w : Wired D). w.result) (if_true _ _ _ e)
            ∙ ap
                (λ s.
                  (wire_transmit s.0 (record d { receiver = s.1; now = suc d.now }) cmd t).result)
                (handle_reads-keep d.receiver t.before p [])
            ∙ wire_transmit-transmit q (begin d x) cmd t x refl refl refl
            ∙ sym (if_true _ _ _ (sym same ∙ e))
        | inr e ↦
            ap (λ (w : Wired D). w.result) (if_false _ _ _ e) ∙ sym (if_false _ _ _ (sym same ∙ e))
      ]
