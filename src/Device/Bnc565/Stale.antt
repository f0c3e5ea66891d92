-- ===== src/Device/Bnc565/Stale.antt =====
-- `_xsend` of httpd/bnc565.cpp on a line that is already in the queue.
use bnc.Prelude.{
  ℕ, true, false, ◌≡◌, refl, ap, List, [], ◌∷◌, ◌++◌, append-nil, append_assoc, ◌∙◌, Bool-cases,
  inl, inr, is_empty, if_true, ◌==◌,
}
use bnc.Prelude.Bytes.{Bytes}
use bnc.Device.Receive.{Receiver, receive_byte, handle_receive, is_print}
use bnc.Device.Bnc565.{Exchange, Driver, xsend_once, transmit, await, take_reply}

-- The queue of `q` is that of `r` with more behind it.
record Extends (r q : Receiver) : Type 0 where
  more : List Bytes
  extends : q.que ≡ r.que ++ more

receive_byte-Extends : (r : Receiver) (c : ℕ) → Extends r (receive_byte r c)
unfolding receive_byte
receive_byte-Extends r c = elim (Bool-cases (is_print c)) [
  | inl p ↦ rw p (record { more = []; extends = rw append-nil })
  | inr p ↦ elim (Bool-cases (c == b'\r')) [
    | inl k ↦ rw (p, k) (record { more = []; extends = rw append-nil })
    | inr k ↦ elim (Bool-cases (c == b'\n')) [
      | inl n ↦ rw (p, k, n) (record { more = r.receiving_data ∷ []; extends = refl })
      | inr n ↦ rw (p, k, n) (record { more = []; extends = rw append-nil })
    ]
  ]
]

handle_receive-Extends : (r : Receiver) (s : Bytes) → Extends r (handle_receive r s)
unfolding handle_receive
handle_receive-Extends r [] = record { more = []; extends = rw append-nil }
handle_receive-Extends r (c ∷ s) =
    let a = receive_byte-Extends r c in
    let b = handle_receive-Extends (receive_byte r c) s in
    record { more = a.more ++ b.more; extends = b.extends ∙ rw (a.extends, append_assoc) }

module _ {D : Type 0} (line : ℕ → Exchange) where
  -- If the port is open, the write is done in time and the wait is notified, and `old` stands first
  -- in the queue before anything of the exchange is received, then `_xsend` returns true with `old`
  -- for the reply, whatever the generator answers to the command, and discards that answer.
  pub xsend_once-que :
      (d : Driver D) (cmd old : Bytes) (olds : List Bytes)
      → d.is_open ≡ true
      → is_empty cmd ≡ false
      → (line d.now).written ≡ true
      → (line d.now).timed_out ≡ false
      → d.receiver.que ≡ old ∷ olds
      → let r = xsend_once line d cmd in
        (r.res ≡ true) × (r.reply ≡ old) × (r.driver.receiver.que ≡ [])
  unfolding xsend_once transmit await take_reply
  xsend_once-que d cmd old olds o c w t q =
      let a = handle_receive-Extends d.receiver (line d.now).early in
      let b =
        handle_receive-Extends (handle_receive d.receiver (line d.now).early) (line d.now).late in
      let e = b.extends ∙ ap (λ l. l ++ b.more) (a.extends ∙ ap (λ l. l ++ a.more) q) in
      rw (if_true _ _ _ o) (rw (c, w, t, e) (refl, refl, refl))
