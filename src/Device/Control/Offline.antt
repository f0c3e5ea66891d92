-- ===== src/Device/Control/Offline.antt =====
-- The commands of httpd/dgctl.cpp with no generator connected.
use bnc.Prelude.{
  ℕ, suc, Bool, true, false, List, [], ◌∷◌, ◌++◌, Option, none, some, ◌≡◌, refl, ap, sym, subst,
  ◌∙◌, is_empty, if◌then◌else◌, if_false, Option-cases, Bool-cases, inl, inr, drop,
}
use bnc.Prelude.Bytes.{Bytes, codes, equal, starts_with}
use bnc.Http.Handler.{c_str}
use bnc.Device.Serial.{Opening}
use bnc.Device.Floats.{Floats}
use bnc.Device.Protocols.{Pulse, Protocols, new_protocols}
use bnc.Device.Json.{Trees, Reading, read_json, write_json}
use bnc.Device.Bnc565.{Exchange, Driver, Sent, xsend_once, xsend_expect}
use bnc.Device.Bnc565.Query.{fetch, keep_settings, debug_first}
use bnc.Device.Bnc565.Commands
use bnc.Device.Bnc565.Commands.{
  send_ok, commit_channel, commit_channels, commit_first, xsend, interval_command, pulse_command,
  state_text, polarity_text,
}
use bnc.Device.Control.{
  Texts, Control, http_request, commit_json, commit_read, committed, submit, submit_children,
  submit_text, status, banner, unknown, set,
}

module _ (F : Floats) (T : Trees F) (x : Texts) (line : ℕ → Exchange) where
  open F use {Double}
  open T use {Tree, value}

  expect_offline :
      (s : Sent Double) (cmd : Bytes)
      → s.driver.is_open ≡ false
      → (send_ok line s cmd).driver ≡ s.driver
  unfolding xsend_expect
  expect_offline s cmd o = ap (λ (r : Sent Double). r.driver) (if_false s.driver.is_open _ _ o)

  -- What was sent to the port, and that it is closed.
  pub record Quiet (d e : Driver Double) : Type 0 where
    pub closed : e.is_open ≡ false
    pub nothing : e.sent ≡ d.sent

  send_ok-Quiet :
      (d : Driver Double) (s : Sent Double) (cmd : Bytes)
      → Quiet d s.driver
      → Quiet d (send_ok line s cmd).driver
  send_ok-Quiet d s cmd q = subst (Quiet d) (sym (expect_offline s cmd q.closed)) q

  commit_channel-Quiet :
      (ch : ℕ) (v : Pulse Double) (d : Driver Double) (s : Sent Double)
      → Quiet d s.driver
      → Quiet d (commit_channel F line ch v s).driver
  unfolding commit_channel
  commit_channel-Quiet ch v d s q =
      let state = pulse_command ch (codes "STATE") (state_text v.state) in
      let pol = pulse_command ch (codes "POL") (polarity_text v.polarity) in
      let delay = pulse_command ch (codes "DELAY") (F.print_g v.delay) in
      let width = pulse_command ch (codes "WIDTH") (F.print_g v.width) in
      let s1 = send_ok line s state in
      let s2 = send_ok line s1 pol in
      let s3 = send_ok line s2 delay in
      send_ok-Quiet d s3 width
        (send_ok-Quiet d s2 delay (send_ok-Quiet d s1 pol (send_ok-Quiet d s state q)))

  commit_channels-Quiet :
      (ch : ℕ) (vs : List (Pulse Double)) (d : Driver Double) (s : Sent Double)
      → Quiet d s.driver
      → Quiet d (commit_channels F line ch vs s).driver
  unfolding commit_channels
  commit_channels-Quiet ch [] d s q = q
  commit_channels-Quiet ch (v ∷ vs) d s q =
      commit_channels-Quiet (suc ch) vs d (commit_channel F line ch v s)
        (commit_channel-Quiet ch v d s q)

  -- An answer, if it is defined, that leaves the port closed and gives it nothing.
  abbrev pub QuietAnswer : Control Double → Option (Control Double × Bytes) → Type 0
  QuietAnswer c none = Unit
  QuietAnswer c (some (e, rep)) = Quiet c.driver e.driver

  unchanged :
      (c : Control Double) (rep : Bytes) → c.driver.is_open ≡ false → QuietAnswer c (some (c, rep))
  unchanged c rep o = record { closed = o; nothing = refl }

  committed-Quiet :
      (c : Control Double) (interval : Double) (all : List (List (Pulse Double)))
      → c.driver.is_open ≡ false
      → QuietAnswer c (committed F T x line c (commit_first F line c.driver interval all))
  unfolding committed commit_first
  committed-Quiet c interval [] o = tt
  committed-Quiet c interval (vs ∷ rest) o =
      let s : Sent Double = record { res = true; reply = []; driver = c.driver } in
      let q =
        send_ok-Quiet c.driver s (interval_command F interval)
          (record { closed = o; nothing = refl }) in
      commit_channels-Quiet 1 vs c.driver (send_ok line s (interval_command F interval)) q

  commit_read-Quiet :
      (c : Control Double) (o : Reading (Protocols Double))
      → c.driver.is_open ≡ false
      → QuietAnswer c (commit_read F T x line c o)
  unfolding commit_read Commands.commit
  commit_read-Quiet c Reading.threw o = unchanged c x.exception o
  commit_read-Quiet c Reading.undefined o = tt
  commit_read-Quiet c (Reading.accepted p) o = committed-Quiet c p.interval p.protocols o

  submit-Quiet :
      (ts : List Tree) (c : Control Double) (rep : Bytes)
      → c.driver.is_open ≡ false
      → Quiet c.driver (submit F T x line ts c rep).0.driver
  unfolding submit xsend xsend_once
  submit-Quiet [] c rep o = record { closed = o; nothing = refl }
  submit-Quiet (t ∷ ts) c rep o = elim (Bool-cases (is_empty (value t))) [
    | inl e ↦ rw e (submit-Quiet ts c rep o)
    | inr e ↦
        let cmd = c_str (value t ++ codes "\r\n") in
        let sent = xsend line c.driver cmd in
        let same : sent.driver ≡ c.driver =
          ap (λ (r : Sent Double). r.driver) (if_false c.driver.is_open _ _ o) in
        let rest =
          submit-Quiet ts (record c { driver = sent.driver })
            (if sent.res then sent.reply ++ [] else sent.reply ++ codes "Error")
            (ap (λ (d : Driver Double). d.is_open) same ∙ o) in
        rw e (record {
          closed = rest.closed;
          nothing = rest.nothing ∙ ap (λ (d : Driver Double). d.sent) same;
        })
  ]

  submit_children-Quiet :
      (o : Option (List Tree)) (c : Control Double) (rep : Bytes)
      → c.driver.is_open ≡ false
      → Quiet c.driver (submit_children F T x line o c rep).0.driver
  unfolding submit_children
  submit_children-Quiet none c rep o = record { closed = o; nothing = refl }
  submit_children-Quiet (some ts) c rep o = submit-Quiet ts c rep o

  submit_text-Quiet :
      (c : Control Double) (payload rep : Bytes)
      → c.driver.is_open ≡ false
      → QuietAnswer c (some (submit_text F T x line c payload rep))
  unfolding submit_text
  submit_text-Quiet c payload rep o = elim (Option-cases (T.parse payload)) [
    | inl e ↦ rw (e, submit_text) (record { closed = o; nothing = refl })
    | inr (t, e) ↦ rw (e, submit_text) (submit_children-Quiet (T.get_child [] t) c rep o)
  ]

  status-Quiet :
      (c : Control Double) (rep : Bytes)
      → c.driver.is_open ≡ false
      → QuietAnswer c (status F T x line c rep)
  unfolding status fetch debug_first
  status-Quiet c rep o =
      let filled = ap (keep_settings F line) (if_false c.driver.is_open _ _ o) in
      subst
        (λ f. QuietAnswer c (elim f [
          | none ↦ none
          | some s ↦ some (record c { driver = s.driver }, rep ++ write_json F T s.settings)
        ]))
        (sym filled) (record { closed = o; nothing = refl })

  if-QuietAnswer :
      (c : Control Double) (a : Bool) (y z : Option (Control Double × Bytes))
      → QuietAnswer c y
      → QuietAnswer c z
      → QuietAnswer c (if a then y else z)
  if-QuietAnswer c true y z p q = p
  if-QuietAnswer c false y z p q = q

  -- With no generator connected, a request that is not for the check boxes, which may connect it,
  -- leaves it so, and gives the port no command.
  pub http_request-QuietAnswer :
      (c : Control Double) (method path error rep : Bytes) (opened : Opening)
      → c.driver.is_open ≡ false
      → starts_with (codes "/dg/ctl?set=") path ≡ false
      → QuietAnswer c (http_request F T x line c method path opened error rep)
  unfolding http_request commit_json
  http_request-QuietAnswer c method path error rep opened o h =
      let events = equal path (codes "/dg/ctl?events") in
      let sets = starts_with (codes "/dg/ctl?set=") path in
      let submits = starts_with (codes "/dg/ctl?submit.text=") path in
      let commits = starts_with (codes "/dg/ctl?commit.json=") path in
      let asks = equal path (codes "/dg/ctl?status.json") in
      let sse = some (c, codes "SSE") in
      let other = some (c, unknown F T x line method path) in
      let last = if events then sse else other in
      let set_or = if sets then set F T x line c (drop 12 path) opened error rep else last in
      let submitted = some (submit_text F T x line c (drop 20 path) rep) in
      let submit_or = if submits then submitted else set_or in
      let commits_with =
        commit_read F T x line c (read_json F T (drop 20 path) (new_protocols F)) in
      let commit_or = if commits then commits_with else submit_or in
      let status_or = if asks then status F T x line c rep else commit_or in
      let p =
        if-QuietAnswer c events sse other (unchanged c (codes "SSE") o)
          (unchanged c (unknown F T x line method path) o) in
      let q =
        subst (QuietAnswer c)
          (sym (if_false sets (set F T x line c (drop 12 path) opened error rep) last h)) p in
      let r =
        if-QuietAnswer c submits submitted set_or (submit_text-Quiet c (drop 20 path) rep o) q in
      let t =
        if-QuietAnswer c commits commits_with submit_or
          (commit_read-Quiet c (read_json F T (drop 20 path) (new_protocols F)) o) r in
      let u = if-QuietAnswer c asks (status F T x line c rep) commit_or (status-Quiet c rep o) t in
      let b = banner F T x line c rep in
      if-QuietAnswer c (equal path (codes "/dg/ctl?banner")) (some (c, b)) status_or
        (unchanged c b o) u
