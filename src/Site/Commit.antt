-- ===== src/Site/Commit.antt =====
-- A client's request to commit settings, from the request's uri to the commands on the serial line.
use bnc.Prelude.{
  ℕ, Bool, true, List, [], ◌∷◌, ◌++◌, Option, some, ◌≡◌, ap, arith, All, All-append, ◌<◌, ◌∙◌,
}
use bnc.Prelude.Bytes.{Bytes, codes, starts_with}
use bnc.Http.Request.{Request}
use bnc.Http.Reply.{Status, Reply}
use bnc.Http.Url.{url_decode}
use bnc.Http.Url.RoundTrip.{url_encode, url_decode-url_encode}
use bnc.Http.Handler.{handle_request, handle_decoded}
use bnc.Http.Handler.Framed.{fresh_reply}
use bnc.Device.Serial.{Opening}
use bnc.Device.Floats.{Floats}
use bnc.Device.Protocols.{Pulse, Protocols, new_protocols}
use bnc.Device.Json.{Trees, Reading, read_json}
use bnc.Device.Bnc565.{Exchange, Driver}
use bnc.Device.Bnc565.Commands.{interval_command}
use bnc.Device.Bnc565.Commands.Commit.{Carries, channels_commands}
use bnc.Device.Control.{Texts, Control, commit_text, http_request}
use bnc.Device.Control.Replies.{Committed, http_request-Committed}
use bnc.Site.{answered, request_control, control_backend}

abbrev pub commit_path : Bytes → Bytes
commit_path payload = codes "/dg/ctl?commit.json=" ++ payload

commit_path_small :
    (payload : Bytes) → All (λ c. c < 256) payload → All (λ c. c < 256) (commit_path payload)
commit_path_small payload h =
    All-append (λ c. c < 256) (codes "/dg/ctl?commit.json=") payload (ground arith) h

module _ (F : Floats) (T : Trees F) (x : Texts) (line : ℕ → Exchange) where
  open F use {Double}

  -- The state and the reply after the request.
  pub record Served (c : Control Double) (interval : Double) (vs : List (Pulse Double))
      (r : Option (Control Double) × Reply) : Type 0 where
    pub final : Driver Double
    pub state : r.0 ≡ some (record c { driver = final })
    pub content : r.1.content ≡ commit_text c.is_active
    pub carries : Carries (interval_command F interval ∷ channels_commands F 1 vs) c.driver final

  module _ (opened : Opening) (error : Bytes) (files : Bytes → Option Bytes) (root : Bytes)
      (st : Status) where
    decoded-Served :
        (c : Control Double) (method payload : Bytes) (interval : Double) (vs : List (Pulse Double))
        → Committed F T x line c interval vs
            (http_request F T x line c method (commit_path payload) opened error [])
        → Served c interval vs (
            handle_decoded
              (control_backend F T x line opened error files root)
              (some c)
              method
              (commit_path payload)
              (fresh_reply st))
    unfolding handle_decoded request_control answered starts_with
    decoded-Served c method payload interval vs v = record {
      final = v.final;
      state = ap (λ o. (answered F T x line o).0) v.returned;
      content = ap (λ o. (answered F T x line o).1) v.returned;
      carries = v.carries;
    }

    -- With the generator connected, a request whose uri encodes "/dg/ctl?commit.json=" and settings
    -- that read_json accepts, with a first protocol, is answered with the text of success, and has
    -- sent the interval and the commands of each channel of that protocol in order, each one to ten
    -- times, and nothing else.
    pub handle_request-Served :
        (keep : ℕ → Bool) (c : Control Double) (req : Request) (payload : Bytes)
        (p : Protocols Double) (vs : List (Pulse Double)) (rest : List (List (Pulse Double)))
        → req.uri ≡ url_encode keep (commit_path payload)
        → All (λ c. c < 256) payload
        → c.driver.is_open ≡ true
        → read_json F T payload (new_protocols F) ≡ Reading.accepted p
        → p.protocols ≡ vs ∷ rest
        → Served c p.interval vs (
            handle_request
              (control_backend F T x line opened error files root)
              (some c)
              req
              (fresh_reply st))
    unfolding handle_request
    handle_request-Served keep c req payload p vs rest u small o r e =
        let decoded : url_decode req.uri ≡ some (commit_path payload) =
          ap url_decode u
          ∙ url_decode-url_encode keep (commit_path payload) (commit_path_small payload small) in
        rw (decoded, handle_request)
          (decoded-Served c req.method payload p.interval vs (
            http_request-Committed F T x line c req.method payload error [] opened p vs rest o r e))
