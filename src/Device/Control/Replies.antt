-- ===== src/Device/Control/Replies.antt =====
-- What the commands of httpd/dgctl.cpp do to the generator, and what they answer.
use bnc.Prelude.{
  ℕ, true, false, List, [], ◌∷◌, ◌++◌, Option, none, some, ◌≡◌, refl, ap, is_empty, ◌∙◌, Bool-cases,
  inl, inr,
}
use bnc.Prelude.Bytes.{Bytes, codes, equal, starts_with}
use bnc.Device.Serial.{Opening}
use bnc.Device.Floats.{Floats}
use bnc.Device.Protocols.{Pulse, Protocols, new_protocols}
use bnc.Device.Json.{Trees, Reading, read_json}
use bnc.Device.Bnc565.{Exchange, Driver}
use bnc.Device.Bnc565.Commands
use bnc.Device.Bnc565.Commands.{interval_command, xsend}
use bnc.Device.Bnc565.Commands.Commit.{Carries, channels_commands, commit-Commits}
use bnc.Device.Control.{
  Texts, Control, http_request, commit_json, commit_read, committed, commit_text, submit,
}

module _ (F : Floats) (T : Trees F) (x : Texts) (line : ℕ → Exchange) where
  open F use {Double}
  open T use {Tree, parse, value, get_child}

  -- What a request to commit leaves: the commands that were sent, and what was answered.
  pub record Committed (c : Control Double) (interval : Double) (vs : List (Pulse Double))
      (o : Option (Control Double × Bytes)) : Type 0 where
    pub final : Driver Double
    pub returned : o ≡ some (record c { driver = final }, commit_text c.is_active)
    pub carries : Carries (interval_command F interval ∷ channels_commands F 1 vs) c.driver final

  commit_json-Committed :
      (c : Control Double) (payload rep : Bytes) (p : Protocols Double) (vs : List (Pulse Double))
      (rest : List (List (Pulse Double)))
      → c.driver.is_open ≡ true
      → read_json F T payload (new_protocols F) ≡ Reading.accepted p
      → p.protocols ≡ vs ∷ rest
      → Committed c p.interval vs (commit_json F T x line c payload rep)
  unfolding commit_json committed commit_read
  commit_json-Committed c payload rep p vs rest o r e =
      let v = commit-Commits F line c.driver p vs rest o e in
      record {
        final = v.final;
        returned = ap (commit_read F T x line c) r ∙ ap (committed F T x line c) v.returns;
        carries = v.carries;
      }

  -- With the generator connected, a request to commit settings that read_json accepts, and that have
  -- a first protocol, sends the interval and then the four commands of each channel of it, each one
  -- to ten times; it is answered with success, whatever the generator replied.
  pub http_request-Committed :
      (c : Control Double) (method payload error rep : Bytes) (opened : Opening)
      (p : Protocols Double) (vs : List (Pulse Double)) (rest : List (List (Pulse Double)))
      → c.driver.is_open ≡ true
      → read_json F T payload (new_protocols F) ≡ Reading.accepted p
      → p.protocols ≡ vs ∷ rest
      → Committed c p.interval vs (
          http_request F T x line c method
            (codes "/dg/ctl?commit.json=" ++ payload)
            opened
            error
            rep)
  unfolding http_request equal starts_with
  http_request-Committed c method payload error rep opened p vs rest o r e =
      commit_json-Committed c payload rep p vs rest o r e

  commit_json_no_protocol :
      (c : Control Double) (payload rep : Bytes) (p : Protocols Double)
      → read_json F T payload (new_protocols F) ≡ Reading.accepted p
      → p.protocols ≡ []
      → commit_json F T x line c payload rep ≡ none
  unfolding commit_json committed commit_read Commands.commit Commands.commit_first
  commit_json_no_protocol c payload rep p r e =
      ap (commit_read F T x line c) r
      ∙ ap (λ l. committed F T x line c (Commands.commit_first F line c.driver p.interval l)) e

  -- A request to commit settings that read_json accepts with no protocol dereferences the end of a
  -- vector, which is undefined, whether the generator is connected or not.
  pub http_request_no_protocol :
      (c : Control Double) (method payload error rep : Bytes) (opened : Opening)
      (p : Protocols Double)
      → read_json F T payload (new_protocols F) ≡ Reading.accepted p
      → p.protocols ≡ []
      → http_request F T x line c method (codes "/dg/ctl?commit.json=" ++ payload) opened error rep
        ≡ none
  unfolding http_request equal starts_with
  http_request_no_protocol c method payload error rep opened p r e =
      commit_json_no_protocol c payload rep p r e

  -- If the last text that is submitted is not empty, the answer is what that text alone gets, with
  -- whatever answer before it: the replies to the earlier texts are lost.
  pub submit-append :
      (ts : List Tree) (t : Tree) (c : Control Double) (rep other : Bytes)
      → is_empty (value t) ≡ false
      → submit F T x line (ts ++ t ∷ []) c rep
        ≡ submit F T x line (t ∷ []) (submit F T x line ts c rep).0 other
  unfolding submit
  submit-append [] t c rep other h = rw h refl
  submit-append (u ∷ ts) t c rep other h = elim (Bool-cases (is_empty (value u))) [
    | inl e ↦ rw e (submit-append ts t c rep other h)
    | inr e ↦ rw e (submit-append ts t _ _ other h)
  ]
