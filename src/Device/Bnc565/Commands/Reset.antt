-- ===== src/Device/Bnc565/Commands/Reset.antt =====
-- `reset` of httpd/bnc565.cpp: what it sends.
use bnc.Prelude.{
  ℕ, zero, suc, List, [], ◌∷◌, ◌++◌, ◌≡◌, refl, ap, append-nil, sym, subst, ◌∙◌, if_true, if_false,
  Bool, true, false, Bool-cases, inl, inr, is_empty, All,
}
use bnc.Prelude.Bytes.{Bytes, codes, to_string}
use bnc.Device.Floats.{Floats}
use bnc.Device.Bnc565.{Driver, Exchange, Sent}
use bnc.Device.Bnc565.Commands.{
  send_ok, pulse_command, reset_channels, send_all, send_while_ok, start_trigger, simulated_peak,
  reset_rest, reset,
}
use bnc.Device.Bnc565.Commands.Commit.{Carries, Carries-append, send_ok-Carries, over}

module _ (F : Floats) where
  open F use {Double, lit, of_int, mul, print}

  abbrev reset_channel_commands : ℕ → List Bytes
  reset_channel_commands ch =
      pulse_command ch (codes "WIDTH") (print (lit 1 6))
      ∷ pulse_command ch (codes "DELAY") (print (mul (of_int ch) (lit 1 5)))
      ∷ (codes ":PULSE" ++ (to_string ch ++ codes ":POL NORM\r\n"))
      ∷ (codes ":PULSE" ++ (to_string ch ++ codes ":STATE ON\r\n"))
      ∷ []

  -- Those of `n` channels from `ch` on.
  abbrev reset_channels_commands : ℕ → ℕ → List Bytes
  reset_channels_commands zero ch = []
  reset_channels_commands (suc n) ch =
      reset_channel_commands ch ++ reset_channels_commands n (suc ch)

  -- All that `reset` sends when it is not cut short.
  abbrev pub reset_commands : List Bytes
  reset_commands =
      (codes "*RST\r\n" ∷ []) ++ (reset_channels_commands 8 1 ++ (start_trigger ++ simulated_peak))

  module _ (line : ℕ → Exchange) where
    reset_channels-Carries :
        (n ch : ℕ) (s : Sent Double)
        → s.driver.is_open ≡ true
        → Carries (reset_channels_commands n ch) s.driver (reset_channels F line n ch s).driver
    unfolding reset_channels
    reset_channels-Carries zero ch s o = record {
      out = [];
      repeats = over;
      sends = rw append-nil;
      still_open = o;
    }
    reset_channels-Carries (suc n) ch s o =
        let width = pulse_command ch (codes "WIDTH") (print (lit 1 6)) in
        let delay = pulse_command ch (codes "DELAY") (print (mul (of_int ch) (lit 1 5))) in
        let pol = codes ":PULSE" ++ (to_string ch ++ codes ":POL NORM\r\n") in
        let state = codes ":PULSE" ++ (to_string ch ++ codes ":STATE ON\r\n") in
        let s1 = send_ok line s width in
        let s2 = send_ok line s1 delay in
        let s3 = send_ok line s2 pol in
        let p = send_ok-Carries line s width o refl in
        let q = send_ok-Carries line s1 delay p.still_open refl in
        let r = send_ok-Carries line s2 pol q.still_open refl in
        let t = send_ok-Carries line s3 state r.still_open refl in
        let rest = reset_channels-Carries n (suc ch) (send_ok line s3 state) t.still_open in
        Carries-append _ _ _ _ _ p (
          Carries-append _ _ _ _ _ q (Carries-append _ _ _ _ _ r (Carries-append _ _ _ _ _ t rest)))

    send_all-Carries :
        (cs : List Bytes) (s : Sent Double)
        → s.driver.is_open ≡ true
        → All (λ c. is_empty c ≡ false) cs
        → Carries cs s.driver (send_all F line s cs).driver
    send_all-Carries [] s o h = record {
      out = [];
      repeats = over;
      sends = rw append-nil;
      still_open = o;
    }
    send_all-Carries (c ∷ cs) s o h =
        let p = send_ok-Carries line s c o h.0 in
        Carries-append _ _ _ _ _ p (send_all-Carries cs (send_ok line s c) p.still_open h.1)

    -- Where the last command is acknowledged, all were sent.
    send_while_ok-Carries :
        (cs : List Bytes) (s : Sent Double)
        → s.driver.is_open ≡ true
        → All (λ c. is_empty c ≡ false) cs
        → (send_while_ok F line s cs).res ≡ true
        → Carries cs s.driver (send_while_ok F line s cs).driver
    send_while_ok-Carries [] s o h e = record {
      out = [];
      repeats = over;
      sends = rw append-nil;
      still_open = o;
    }
    send_while_ok-Carries (c ∷ cs) s o h e =
        let more = send_while_ok F line (send_ok line s c) cs in
        elim (Bool-cases s.res) [
          | inl k ↦
              let p = send_ok-Carries line s c o h.0 in
              let taken = if_true s.res more s k in
              let rest =
                send_while_ok-Carries cs (send_ok line s c) p.still_open h.1
                  (ap (λ t. t.res) (sym taken) ∙ e) in
              subst (λ t. Carries (c ∷ cs) s.driver t.driver) (sym taken)
                (Carries-append _ _ _ _ _ p rest)
          | inr k ↦ let failed = ap (λ t. t.res) (sym (if_false s.res more s k)) ∙ e in cc
        ]

    reset_rest-Carries :
        (s : Sent Double)
        → s.driver.is_open ≡ true
        → (reset_rest F line s).0 ≡ true
        → Carries (start_trigger ++ simulated_peak) s.driver (reset_rest F line s).1
    unfolding reset_rest
    reset_rest-Carries s o e =
        let t = send_while_ok F line (record s { res = true }) start_trigger in
        let done : Bool × Driver Double = (true, (send_all F line t simulated_peak).driver) in
        let cut : Bool × Driver Double = (false, t.driver) in
        elim (Bool-cases t.res) [
          | inl k ↦
              let p =
                send_while_ok-Carries start_trigger (record s { res = true }) o
                  (refl, (refl, (refl, tt))) k in
              let q =
                send_all-Carries simulated_peak t p.still_open
                  (refl, (refl, (refl, (refl, (refl, (refl, tt)))))) in
              subst (λ r. Carries (start_trigger ++ simulated_peak) s.driver r.1)
                (sym (if_true t.res done cut k)) (Carries-append _ _ _ _ _ p q)
          | inr k ↦ let failed = ap (λ r. r.0) (sym (if_false t.res done cut k)) ∙ e in cc
        ]

    -- On an open port, if `reset` returns true it has sent the reset, the four commands of each of the
    -- eight channels, those that start the trigger and those of the simulated peak, in this order, each
    -- one to ten times before the next, and nothing else.
    pub reset-Carries :
        (d : Driver Double)
        → d.is_open ≡ true
        → (reset F line d).0 ≡ true
        → Carries reset_commands d (reset F line d).1
    unfolding reset
    reset-Carries d o e =
        let fresh = record d { xsend_timeout_c = 0; reply_timeout_c = 0 } in
        let first : Sent Double = record { res = true; reply = []; driver = fresh } in
        let rst = send_ok line first (codes "*RST\r\n") in
        let chans = reset_channels F line 8 1 rst in
        let done = reset_rest F line chans in
        let cut : Bool × Driver Double = (false, rst.driver) in
        elim (Bool-cases rst.res) [
          | inl k ↦
              let taken = if_true rst.res done cut k in
              let p = send_ok-Carries line first (codes "*RST\r\n") o refl in
              let q = reset_channels-Carries 8 1 rst p.still_open in
              let r = reset_rest-Carries chans q.still_open (ap (λ x. x.0) (sym taken) ∙ e) in
              let all = Carries-append _ _ _ _ _ p (Carries-append _ _ _ _ _ q r) in
              subst (λ x. Carries reset_commands d x.1) (sym taken)
                (record {
                  out = all.out;
                  repeats = all.repeats;
                  sends = all.sends;
                  still_open = all.still_open;
                })
          | inr k ↦ let failed = ap (λ x. x.0) (sym (if_false rst.res done cut k)) ∙ e in cc
        ]
