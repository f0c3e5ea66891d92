-- ===== src/Device/Bnc565/Wire/Answered.antt =====
-- When a command over the port is answered.
use bnc.Prelude.{
  Bool, ◌||◌, ℕ, true, false, not, ◌&&◌, List, [], ◌∷◌, ◌++◌, ◌==◌, is_empty, ◌≡◌, ◌≢◌, refl, ap,
  sym, ◌∙◌, Bool-cases, inl, inr, if_true, if_false,
}
use bnc.Prelude.Bytes.{Bytes}
use bnc.Device.Serial.{SerialPort}
use bnc.Device.Serial.Write.{any_ends_wait}
use bnc.Device.Receive.{Receiver, is_print, receive_byte, handle_receive}
use bnc.Device.Bnc565.{Exchange, Driver, Sent, take_reply, xsend_once, transmit, await, begin}
use bnc.Device.Bnc565.Wire.{Traffic, notified, wire_xsend, handle_reads}
use bnc.Device.Receive.Lines.{Read}
use bnc.Device.Bnc565.Wire.Exchanged.{
  exchange_of, wire_xsend-xsend_once, early_of, written_port, during_of, late_of, handle_reads-keep,
  keep,
}

append_one_ne_nil : (ss : List Bytes) (s : Bytes) → ss ++ s ∷ [] ≢ []
append_one_ne_nil [] s e = cc
append_one_ne_nil (x ∷ ss) s e = cc

-- Nothing but a call that takes a reply empties the queue.
receive_byte-nil : (r : Receiver) (c : ℕ) → (receive_byte r c).que ≡ [] → r.que ≡ []
unfolding receive_byte
receive_byte-nil r c = elim (Bool-cases (is_print c)) [
  | inl p ↦ rw p (λ e. e)
  | inr p ↦ rw p (elim (Bool-cases (c == b'\r')) [
    | inl q ↦ rw q (λ e. e)
    | inr q ↦ rw q (elim (Bool-cases (c == b'\n')) [
      | inl n ↦ rw n (λ e. absurd (append_one_ne_nil r.que r.receiving_data e))
      | inr n ↦ rw n (λ e. e)
    ])
  ])
]

handle_receive-nil : (s : Bytes) (r : Receiver) → (handle_receive r s).que ≡ [] → r.que ≡ []
unfolding handle_receive
handle_receive-nil [] r e = e
handle_receive-nil (c ∷ s) r e = receive_byte-nil r c (handle_receive-nil s (receive_byte r c) e)

notified-ne-nil :
    (s : Bytes) (r : Receiver)
    → notified r (handle_receive r s) ≡ true
    → (handle_receive r s).que ≢ []
unfolding notified
notified-ne-nil s r n e =
    let none_before = handle_receive-nil s r e in
    let stuck : false ≡ true = rw (e, none_before) at n in cc

is_empty-nil : (ss : List Bytes) → is_empty ss ≡ true → ss ≡ []
is_empty-nil [] e = refl
is_empty-nil (s ∷ ss) e = cc

-- Reads do not empty the queue.
handle_reads-nil :
    (rs : List Read) (p : SerialPort) (r : Receiver)
    → (handle_reads handle_receive (p, r) rs).1.que ≡ []
    → r.que ≡ []
unfolding handle_receive
handle_reads-nil rs p r e =
    let kept = (handle_reads keep (p, []) rs).1 in
    handle_receive-nil kept r
      (sym (ap (λ (q : SerialPort × Receiver). q.1.que) (handle_reads-keep r rs p [])) ∙ e)

-- A line that was completed in time is in the queue.
early-or :
    (line woken empty : Bool)
    → (line ≡ true → empty ≡ false)
    → not (not (line || woken)) && not empty ≡ line || (woken && not empty)
early-or true woken empty h = ap not (h refl)
early-or false true empty h = refl
early-or false false empty h = refl

module _ {D : Type 0} where
  take_reply-res : (d : Driver D) (ss : List Bytes) → (take_reply d ss).res ≡ not (is_empty ss)
  unfolding take_reply
  take_reply-res d [] = refl
  take_reply-res d (s ∷ ss) = refl

  await-res :
      (d : Driver D) (x : Exchange)
      → (await d x).res ≡ not x.timed_out && not (is_empty d.receiver.que)
  unfolding await
  await-res d x = elim (Bool-cases x.timed_out) [
    | inl e ↦ ap (λ (s : Sent D). s.res) (if_true _ _ _ e) ∙ rw e refl
    | inr e ↦
        ap (λ (s : Sent D). s.res) (if_false _ _ _ e) ∙ take_reply-res _ d.receiver.que ∙ rw e refl
  ]

  transmit-res :
      (d : Driver D) (cmd : Bytes) (x : Exchange)
      → (transmit d cmd x).res
        ≡ not (is_empty cmd)
          && (x.written
              && (not x.timed_out && not (is_empty (handle_receive d.receiver x.late).que)))
  unfolding transmit
  transmit-res d cmd x = elim (Bool-cases (is_empty cmd)) [
    | inl i ↦ ap (λ (s : Sent D). s.res) (if_true _ _ _ i) ∙ rw i refl
    | inr i ↦ elim (Bool-cases x.written) [
      | inl w ↦
          ap (λ (s : Sent D). s.res) (if_false _ _ _ i ∙ if_true _ _ _ w)
          ∙ await-res _ x
          ∙ rw (i, w) refl
      | inr w ↦ ap (λ (s : Sent D). s.res) (if_false _ _ _ i ∙ if_false _ _ _ w) ∙ rw (i, w) refl
    ]
  ]

  xsend_once-res :
      (d : Driver D) (cmd : Bytes) (x : Exchange)
      → (xsend_once (λ n. x) d cmd).res
        ≡ d.is_open
          && (not (is_empty cmd)
              && (x.written
                  && (not x.timed_out
                      && not (
                          is_empty
                            (handle_receive (handle_receive d.receiver x.early) x.late).que))))
  unfolding xsend_once
  xsend_once-res d cmd x = elim (Bool-cases d.is_open) [
    | inl e ↦
        ap (λ (s : Sent D). s.res) (if_true _ _ _ e) ∙ transmit-res (begin d x) cmd x ∙ rw e refl
    | inr e ↦ ap (λ (s : Sent D). s.res) (if_false _ _ _ e) ∙ rw e refl
  ]

-- The receiver when the command is written, when the wait for a reply ends, and when it is looked at.
abbrev began : SerialPort → Receiver → Traffic → Receiver
began p r t = handle_receive r (early_of p t).1

abbrev waited : SerialPort → Receiver → Bytes → Traffic → Receiver
waited p r cmd t = handle_receive (began p r t) (during_of (written_port p cmd t) t).1

abbrev looked_at : SerialPort → Receiver → Bytes → Traffic → Receiver
looked_at p r cmd t = handle_receive (began p r t) (late_of (written_port p cmd t) t).1

-- A line is completed while the reply is awaited.
abbrev pub line_in_time : SerialPort → Receiver → Bytes → Traffic → Bool
line_in_time p r cmd t = notified (began p r t) (waited p r cmd t)

-- No reply is found.
abbrev pub none_found : SerialPort → Receiver → Bytes → Traffic → Bool
none_found p r cmd t = is_empty (looked_at p r cmd t).que

line_in_time-found :
    (p : SerialPort) (r : Receiver) (cmd : Bytes) (t : Traffic)
    → line_in_time p r cmd t ≡ true
    → none_found p r cmd t ≡ false
line_in_time-found p r cmd t n = elim (Bool-cases (none_found p r cmd t)) [
  | inr e ↦ e
  | inl e ↦
      let (q, kept) = during_of (written_port p cmd t) t in
      absurd (
        notified-ne-nil kept (began p r t) n (
          handle_reads-nil t.after q (waited p r cmd t) (
            ap (λ (s : SerialPort × Receiver). s.1.que)
              (handle_reads-keep (began p r t) t.after q kept)
            ∙ is_empty-nil _ e)))
]

module _ {D : Type 0} where
  -- Where the driver and the port agree on whether the port is open, a call of `_xsend` over the
  -- port returns true exactly when the port is open, the command has some bytes, the wait of the
  -- write does not end by its limit, and either a line is completed before the wait for a reply
  -- ends, or that wait is woken with no notification and a reply is found in the queue. A wait that
  -- ends by a completed line never finds the queue empty.
  pub wire_xsend-res :
      (p : SerialPort) (d : Driver D) (cmd : Bytes) (t : Traffic)
      → p.is_open ≡ d.is_open
      → (wire_xsend p d cmd t).result.res
        ≡ d.is_open
          && (not (is_empty cmd)
              && (any_ends_wait cmd t.writes
                  && (line_in_time p d.receiver cmd t
                      || (t.woken && not (none_found p d.receiver cmd t)))))
  wire_xsend-res p d cmd t same =
      ap (λ (s : Sent D). s.res) (wire_xsend-xsend_once p d cmd t same)
      ∙ xsend_once-res d cmd (exchange_of p d.receiver cmd t)
      ∙ ap (λ e. d.is_open && (not (is_empty cmd) && (any_ends_wait cmd t.writes && e)))
          (early-or (line_in_time p d.receiver cmd t) t.woken (none_found p d.receiver cmd t)
            (line_in_time-found p d.receiver cmd t))
