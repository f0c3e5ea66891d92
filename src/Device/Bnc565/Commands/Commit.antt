-- ===== src/Device/Bnc565/Commands/Commit.antt =====
-- `commit` of httpd/bnc565.cpp: what it sends.
use bnc.Prelude.{
  ℕ, suc, List, [], ◌∷◌, ◌++◌, ◌<◌, ◌≤◌, ◌≡◌, ◌∙◌, refl, arith, append_assoc, append-nil, true,
  false, Option, some, inl, inr, Bool-cases, is_empty, replicate,
}
use bnc.Prelude.Bytes.{Bytes, codes}
use bnc.Device.Bnc565.{Driver, Exchange, Sent}
use bnc.Device.Bnc565.Retry.{Tries, xsend_expect-Tries}
use bnc.Device.Bnc565.Commands.{
  send_ok, pulse_command, state_text, polarity_text, interval_command, commit_channel,
  commit_channels, commit_first, commit,
}
use bnc.Device.Floats.{Floats}
use bnc.Device.Protocols.{Pulse, Protocols}

-- Each command is repeated, one to ten times, before the next is sent.
pub data Repeats : List Bytes → List Bytes → Type 0 where
  over : Repeats [] []
  again :
      (k : ℕ) (c : Bytes) (cs out : List Bytes)
      → 0 < k
      → k ≤ 10
      → Repeats cs out
      → Repeats (c ∷ cs) (replicate k c ++ out)

Repeats-append :
    (cs xs ds ys : List Bytes) → Repeats cs xs → Repeats ds ys → Repeats (cs ++ ds) (xs ++ ys)
Repeats-append cs xs ds ys (over) q = q
Repeats-append cs xs ds ys (again k c cs2 out lo hi p) q =
    rw append_assoc (again k c (cs2 ++ ds) (out ++ ys) lo hi (Repeats-append cs2 out ds ys p q))

-- From `d` to `e` the commands `cs` were sent, each one to ten times.
pub record Carries {D : Type 0} (cs : List Bytes) (d e : Driver D) : Type 0 where
  pub out : List Bytes
  pub repeats : Repeats cs out
  pub sends : e.sent ≡ d.sent ++ out
  pub still_open : e.is_open ≡ true

module _ {D : Type 0} where
  pub Carries-append :
      (cs ds : List Bytes) (d e f : Driver D)
      → Carries cs d e
      → Carries ds e f
      → Carries (cs ++ ds) d f
  Carries-append cs ds d e f p q = record {
    out = p.out ++ q.out;
    repeats = Repeats-append cs p.out ds q.out p.repeats q.repeats;
    sends = q.sends ∙ rw (p.sends, append_assoc);
    still_open = q.still_open;
  }

  module _ (line : ℕ → Exchange) where
    tried :
        (d : Driver D) (cmd : Bytes) (r : Sent D)
        → Tries 10 d cmd (codes "ok") r
        → Carries (cmd ∷ []) d r.driver
    tried d cmd r t =
        let positive : 0 < t.count = elim (Bool-cases r.res) [
          | inl e ↦ (t.acknowledged e).1
          | inr e ↦ omega (arith, t.exhausted e)
        ] in
        record {
          out = replicate t.count cmd ++ [];
          repeats = again t.count cmd [] [] positive t.at_most over;
          sends = t.sends ∙ rw append-nil;
          still_open = t.still_open;
        }

    pub send_ok-Carries :
        (s : Sent D) (cmd : Bytes)
        → s.driver.is_open ≡ true
        → is_empty cmd ≡ false
        → Carries (cmd ∷ []) s.driver (send_ok line s cmd).driver
    send_ok-Carries s cmd o c =
        tried s.driver cmd _ (xsend_expect-Tries line 10 s.driver cmd s.reply (codes "ok") o c)

module _ (F : Floats) where
  open F use {Double, print_g}

  -- The commands that set channel `ch` up.
  abbrev pub channel_commands : ℕ → Pulse Double → List Bytes
  channel_commands ch v =
      pulse_command ch (codes "STATE") (state_text v.state)
      ∷ pulse_command ch (codes "POL") (polarity_text v.polarity)
      ∷ pulse_command ch (codes "DELAY") (print_g v.delay)
      ∷ pulse_command ch (codes "WIDTH") (print_g v.width)
      ∷ []

  abbrev pub channels_commands : ℕ → List (Pulse Double) → List Bytes
  channels_commands ch [] = []
  channels_commands ch (v ∷ vs) = channel_commands ch v ++ channels_commands (suc ch) vs

  -- What a commit of the protocol `vs` with the interval `interval` leaves.
  pub record Commits (d : Driver Double) (interval : Double) (vs : List (Pulse Double))
      (o : Option (Driver Double)) : Type 0 where
    pub final : Driver Double
    pub returns : o ≡ some final
    pub carries : Carries (interval_command F interval ∷ channels_commands 1 vs) d final

  module _ (line : ℕ → Exchange) where
    commit_channel-Carries :
        (ch : ℕ) (v : Pulse Double) (s : Sent Double)
        → s.driver.is_open ≡ true
        → Carries (channel_commands ch v) s.driver (commit_channel F line ch v s).driver
    unfolding commit_channel
    commit_channel-Carries ch v s o =
        let state = pulse_command ch (codes "STATE") (state_text v.state) in
        let pol = pulse_command ch (codes "POL") (polarity_text v.polarity) in
        let delay = pulse_command ch (codes "DELAY") (print_g v.delay) in
        let width = pulse_command ch (codes "WIDTH") (print_g v.width) in
        let s1 = send_ok line s state in
        let s2 = send_ok line s1 pol in
        let s3 = send_ok line s2 delay in
        let p = send_ok-Carries line s state o refl in
        let q = send_ok-Carries line s1 pol p.still_open refl in
        let r = send_ok-Carries line s2 delay q.still_open refl in
        let t = send_ok-Carries line s3 width r.still_open refl in
        Carries-append _ _ _ _ _ p (Carries-append _ _ _ _ _ q (Carries-append _ _ _ _ _ r t))

    commit_channels-Carries :
        (ch : ℕ) (vs : List (Pulse Double)) (s : Sent Double)
        → s.driver.is_open ≡ true
        → Carries (channels_commands ch vs) s.driver (commit_channels F line ch vs s).driver
    unfolding commit_channels
    commit_channels-Carries ch [] s o = record {
      out = [];
      repeats = over;
      sends = rw append-nil;
      still_open = o;
    }
    commit_channels-Carries ch (v ∷ vs) s o =
        let p = commit_channel-Carries ch v s o in
        Carries-append _ _ _ _ _ p (commit_channels-Carries (suc ch) vs _ p.still_open)

    -- On an open port, with settings that have a first protocol, `commit` returns. It gives the port
    -- the interval and then, channel by channel from 1 on, the state, the polarity, the delay and the
    -- width of that protocol, each one to ten times before the next, and nothing else.
    pub commit-Commits :
        (d : Driver Double) (p : Protocols Double) (vs : List (Pulse Double))
        (rest : List (List (Pulse Double)))
        → d.is_open ≡ true
        → p.protocols ≡ vs ∷ rest
        → Commits d p.interval vs (commit F line d p)
    unfolding commit commit_first
    commit-Commits d p vs rest o e =
        let s : Sent Double = record { res = true; reply = []; driver = d } in
        let first = send_ok-Carries line s (interval_command F p.interval) o refl in
        let chans = commit_channels-Carries 1 vs _ first.still_open in
        rw e (record { final = _; returns = refl; carries = Carries-append _ _ _ _ _ first chans })
