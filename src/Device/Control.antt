-- ===== src/Device/Control.antt =====
-- httpd/dgctl.cpp: the commands of the web pages, which drive the generator.
pub mod Replies
pub mod Offline
pub mod Pulses
use bnc.Prelude.{
  ℕ, suc, ◌+◌, Bool, true, false, ◌&&◌, List, [], ◌∷◌, ◌++◌, Option, none, some, ◌==◌,
  if◌then◌else◌, is_empty, drop,
}
use bnc.Prelude.Bytes.{Bytes, codes, equal, starts_with, to_string}
use bnc.Http.Handler.{c_str}
use bnc.Device.Serial.{Opening}
use bnc.Device.Floats.{Floats}
use bnc.Device.Protocols.{Protocols, new_protocols}
use bnc.Device.Json.{Trees, Reading, read_json, write_json}
use bnc.Device.Bnc565.{Exchange, Driver, Sent}
use bnc.Device.Bnc565.Query.{Filling, fetch}
use bnc.Device.Bnc565.Commands
use bnc.Device.Bnc565.Commands.{xsend, switch_connect}

-- What the build and the libraries provide: PACKAGE_VERSION, and the diagnostic text of the plain
-- std::exception that read_json throws on.
pub record Texts : Type 0 where
  pub package_version : Bytes
  pub exception : Bytes

-- `dgctl` with the driver that it commands.
pub record Control (D : Type 0) : Type 0 where
  pub driver : Driver D
  pub is_active : Bool
  pub is_dirty : Bool
  pub pulses : List (D × D)
  pub pulser_interval : D

-- The tick event's text.
unfoldable pub tick_event : ℕ → Bool → Bytes
tick_event tick state =
    codes "{ \"state\": {\"tick\":\""
    ++ (to_string tick
        ++ (codes "\", \"state\":\""
            ++ ((if state then codes "1" else codes "0") ++ codes "\"} }")))

module _ {D : Type 0} where
  unfoldable pub activate_trigger : Control D → Control D
  activate_trigger c = record c { is_active = true }

  unfoldable pub deactivate_trigger : Control D → Control D
  deactivate_trigger c = record c { is_active = false }

  -- `dgctl::commit`: with the generator connected it returns at once. `setPulse` does nothing.
  unfoldable pub commit : Control D → Control D
  commit c = if c.driver.is_open then c else record c {
    driver = record c.driver {
      protocols = record c.driver.protocols { interval = c.pulser_interval };
    };
  }

-- `"COMMIT SUCCESS; " << ...`
abbrev pub commit_text : Bool → Bytes
commit_text active =
    codes "COMMIT SUCCESS; "
    ++ (if active then codes "(trigger is active)" else codes "trigger is not active")

module _ (F : Floats) (T : Trees F) (x : Texts) (line : ℕ → Exchange) where
  open F use {Double}
  open T use {Tree, parse, parse_error, value, get, get_child, to_bool}

  -- The driver and the reply; `none` is undefined behaviour.
  abbrev Answer : Type 0
  Answer = Option (Control Double × Bytes)

  unfoldable pub banner : Control Double → Bytes → Bytes
  banner c rep =
      rep
      ++ (codes "<h2>BNC 565 V"
          ++ (x.package_version ++ (codes " S/N " ++ (c.driver.protocols.idn ++ codes "</h2>"))))

  -- "/dg/ctl?status.json"
  unfoldable pub status : Control Double → Bytes → Answer
  status c rep = elim (fetch F line c.driver (new_protocols F)) [
    | none ↦ none
    | some s ↦ some (record c { driver = s.driver }, rep ++ write_json F T s.settings)
  ]

  committed : Control Double → Option (Driver Double) → Answer
  committed c none = none
  committed c (some d) = some (record c { driver = d }, commit_text c.is_active)

  -- What follows on reading the payload.
  commit_read : Control Double → Reading (Protocols Double) → Answer
  unfolding committed
  commit_read c Reading.threw = some (c, x.exception)
  commit_read c Reading.undefined = none
  commit_read c (Reading.accepted p) = committed c (Commands.commit F line c.driver p)

  -- "/dg/ctl?commit.json="
  unfoldable pub commit_json : Control Double → Bytes → Bytes → Answer
  unfolding commit_read
  commit_json c payload rep = commit_read c (read_json F T payload (new_protocols F))

  -- The loop over the texts: `xsend` is given `rep` for its reply, so that `reply` stays empty.
  unfoldable pub submit : List Tree → Control Double → Bytes → Control Double × Bytes
  submit [] c rep = (c, rep)
  submit (t ∷ ts) c rep =
      let sent = xsend line c.driver (c_str (value t ++ codes "\r\n")) in
      let more =
        submit ts (record c { driver = sent.driver })
          (if sent.res then sent.reply ++ [] else sent.reply ++ codes "Error") in
      let skipped = submit ts c rep in if is_empty (value t) then skipped else more

  -- `get_child( "" )` is the tree itself.
  unfoldable pub submit_children :
      Option (List Tree) → Control Double → Bytes → Control Double × Bytes
  unfolding submit
  submit_children none c rep = (c, rep)
  submit_children (some ts) c rep = submit ts c rep

  -- "/dg/ctl?submit.text="
  unfoldable pub submit_text : Control Double → Bytes → Bytes → Control Double × Bytes
  unfolding submit_children
  submit_text c payload rep = elim (parse payload) [
    | none ↦ (c, parse_error payload)
    | some t ↦ submit_children (get_child [] t) c rep
  ]

  -- Whether it threw, the control and the reply; `none` is undefined behaviour.
  abbrev Item : Type 0
  Item = Option (Bool × (Control Double × Bytes))

  switched : Control Double → Option (Bool × Sent Double) → Item
  switched c none = none
  switched c (some (threw, s)) = some (threw, (record c { driver = s.driver }, s.reply))

  -- One item of the check boxes. `o` is what comes of opening the device, and `error` the message if it
  -- is refused.
  unfoldable pub switch_item : Tree → Opening → Bytes → Control Double → Bytes → Item
  unfolding switched
  switch_item t o error c rep =
      let same = some (false, (c, rep)) in
      elim (get (codes "id") t) [
        | none ↦ same
        | some id ↦ elim (get (codes "value") t) [
          | none ↦ same
          | some v ↦ elim (to_bool v) [
            | none ↦ same
            | some on ↦
                if equal id (codes "switch-connect")
                then switched c (switch_connect F line c.driver on rep o error)
                else same
          ]
        ]
      ]

  -- An exception ends the loop.
  unfoldable pub switch_items : List Tree → Opening → Bytes → Control Double → Bytes → Answer
  unfolding switch_item
  switch_items [] o error c rep = some (c, rep)
  switch_items (t ∷ ts) o error c rep = elim (switch_item t o error c rep) [
    | none ↦ none
    | some r ↦
        let (threw, after) = r in
        let (d, s) = after in
        let rest = switch_items ts o error d s in if threw then some (d, s) else rest
  ]

  -- "/dg/ctl?set=": what throws is logged only.
  unfoldable pub set : Control Double → Bytes → Opening → Bytes → Bytes → Answer
  unfolding switch_items
  set c payload opened error rep = elim (parse payload) [
    | none ↦ some (c, rep)
    | some t ↦ elim (get_child (codes "checkbox") t) [
      | none ↦ some (c, rep)
      | some ts ↦ switch_items ts opened error c rep
    ]
  ]

  abbrev pub unknown : Bytes → Bytes → Bytes
  unknown method path =
      codes "dgctl -- unknown request(" ++ (method ++ (codes ", " ++ (path ++ codes ")")))

  -- `http_request`
  unfoldable pub http_request : Control Double → Bytes → Bytes → Opening → Bytes → Bytes → Answer
  unfolding banner status commit_json submit_text set
  http_request c method path opened error rep =
      if equal path (codes "/dg/ctl?banner")
      then some (c, banner c rep)
      else if equal path (codes "/dg/ctl?status.json")
      then status c rep
      else if starts_with (codes "/dg/ctl?commit.json=") path
      then commit_json c (drop 20 path) rep
      else if starts_with (codes "/dg/ctl?submit.text=") path
      then some (submit_text c (drop 20 path) rep)
      else if starts_with (codes "/dg/ctl?set=") path
      then set c (drop 12 path) opened error rep
      else if equal path (codes "/dg/ctl?events")
      then some (c, codes "SSE")
      else some (c, unknown method path)
