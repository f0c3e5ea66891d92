-- ===== src/Device/Bnc565/Retry.antt =====
-- `_xsend` with an expected reply, of httpd/bnc565.cpp.
use bnc.Prelude.{
  ℕ, zero, suc, ◌+◌, ◌≤◌, true, false, ◌&&◌, [], ◌∷◌, ◌++◌, is_empty, ◌≡◌, refl, arith, replicate,
  ◌<◌, append-nil, Bool-cases, inl, inr, ◌∙◌, append_assoc, if_true,
}
use bnc.Prelude.Bytes.{Bytes, equal, equal_iff}
use bnc.Device.Bnc565.{
  Exchange, Driver, Sent, xsend_once, xsend_expect, retry, await, transmit, begin,
}

module _ {D : Type 0} where
  -- One exchange on an open port: what it gives the port, and what it leaves.
  pub record Once (d : Driver D) (cmd : Bytes) (r : Sent D) : Type 0 where
    pub sent_once : r.driver.sent ≡ d.sent ++ cmd ∷ []
    pub still_open : r.driver.is_open ≡ true
    pub one_exchange : r.driver.now ≡ suc d.now
    pub cleared : r.res ≡ true → r.driver.receiver.que ≡ []

  await-Once :
      (d e : Driver D) (cmd : Bytes) (x : Exchange)
      → e.sent ≡ d.sent ++ cmd ∷ []
      → e.is_open ≡ true
      → e.now ≡ suc d.now
      → Once d cmd (await e x)
  unfolding await
  await-Once d e cmd x s o n = ground arith

  transmit-Once :
      (d e : Driver D) (cmd : Bytes) (x : Exchange)
      → is_empty cmd ≡ false
      → e.sent ≡ d.sent
      → e.is_open ≡ true
      → e.now ≡ suc d.now
      → Once d cmd (transmit e cmd x)
  unfolding transmit
  transmit-Once d e cmd x c s o n = elim (Bool-cases x.written) [
    | inl w ↦ rw (c, w) (await-Once d _ cmd x (rw s) o n)
    | inr w ↦
        rw (c, w) (record { sent_once = rw s; still_open = o; one_exchange = n; cleared = λ k. cc })
  ]

  -- The command was sent `count` times, at most `ntry`; it was acknowledged at the last of them, or
  -- never.
  pub record Tries (ntry : ℕ) (d : Driver D) (cmd expect : Bytes) (r : Sent D) : Type 0 where
    pub count : ℕ
    pub sends : r.driver.sent ≡ d.sent ++ replicate count cmd
    pub at_most : count ≤ ntry
    pub still_open : r.driver.is_open ≡ true
    pub one_each : r.driver.now ≡ d.now + count
    pub acknowledged :
        r.res ≡ true → (r.reply ≡ expect) × (0 < count) × (r.driver.receiver.que ≡ [])
    pub exhausted : r.res ≡ false → count ≡ ntry

module _ {D : Type 0} (line : ℕ → Exchange) where
  pub xsend_once-Once :
      (d : Driver D) (cmd : Bytes)
      → d.is_open ≡ true
      → is_empty cmd ≡ false
      → Once d cmd (xsend_once line d cmd)
  unfolding xsend_once
  xsend_once-Once d cmd o c =
      rw (if_true _ _ _ o) (transmit-Once d (begin d (line d.now)) cmd (line d.now) c refl o refl)

  retry-Tries :
      (ntry : ℕ) (d : Driver D) (cmd reply expect : Bytes)
      → d.is_open ≡ true
      → is_empty cmd ≡ false
      → Tries ntry d cmd expect (retry line ntry d cmd reply expect)
  unfolding retry
  retry-Tries zero d cmd reply expect o c = record {
    count = 0;
    sends = rw append-nil;
    at_most = omega arith;
    still_open = o;
    one_each = omega arith;
    acknowledged = λ k. cc;
    exhausted = λ k. refl;
  }
  retry-Tries (suc ntry) d cmd reply expect o c =
      let r = xsend_once line d cmd in
      let once = xsend_once-Once d cmd o c in
      elim (Bool-cases (r.res && equal r.reply expect)) [
        | inl e ↦ rw e (record {
          count = 1;
          sends = once.sent_once;
          at_most = omega arith;
          still_open = once.still_open;
          one_each = omega (arith, once.one_exchange);
          acknowledged = λ k. ground (arith, equal_iff r.reply expect, once.cleared);
          exhausted = λ k. cc;
        })
        | inr e ↦
            let t = retry-Tries ntry r.driver cmd r.reply expect once.still_open c in
            rw e (record {
              count = suc t.count;
              sends = t.sends ∙ rw (once.sent_once, append_assoc);
              at_most = omega (arith, t.at_most);
              still_open = t.still_open;
              one_each = omega (arith, t.one_each, once.one_exchange);
              acknowledged = λ k. let a = t.acknowledged k in (a.0, omega (arith, a.1), a.2);
              exhausted = λ k. omega (arith, t.exhausted k);
            })
      ]

  -- On an open port a command that is to be acknowledged is sent at most `ntry` times, one exchange
  -- each, and nothing else is sent. If `_xsend` returns true the last reply is the expected one and
  -- no reply is left in the queue; if it returns false all `ntry` attempts were made.
  pub xsend_expect-Tries :
      (ntry : ℕ) (d : Driver D) (cmd reply expect : Bytes)
      → d.is_open ≡ true
      → is_empty cmd ≡ false
      → Tries ntry d cmd expect (xsend_expect line d cmd reply expect ntry)
  unfolding xsend_expect
  xsend_expect-Tries ntry d cmd reply expect o c =
      rw (if_true _ _ _ o) (retry-Tries ntry d cmd reply expect o c)
