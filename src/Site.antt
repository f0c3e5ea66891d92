-- ===== src/Site.antt =====
-- The server and the generator together: httpd/request_handler.cpp calls `dgctl::http_request`.
pub mod Commit
use bnc.Prelude.{Bool, true, false, List, [], Option, none, some}
use bnc.Prelude.Bytes.{Bytes}
use bnc.Prelude.{ℕ}
use bnc.Http.Handler.{Backend}
use bnc.Device.Serial.{Opening}
use bnc.Device.Floats.{Floats}
use bnc.Device.Json.{Trees}
use bnc.Device.Bnc565.{Exchange}
use bnc.Device.Control.{Texts, Control, http_request}

module _ (F : Floats) (T : Trees F) (x : Texts) (line : ℕ → Exchange) where
  -- After undefined behaviour there is no state.
  pub answered : Option (Control F.Double × Bytes) → Option (Control F.Double) × Bytes
  answered none = (none, [])
  answered (some (c, rep)) = (some c, rep)

  pub request_control :
      Opening
      → Bytes
      → Option (Control F.Double)
      → Bytes
      → Bytes
      → Bytes
      → Option (Control F.Double) × Bytes
  unfolding answered
  request_control opened error none method path rep = (none, [])
  request_control opened error (some c) method path rep =
      answered (http_request F T x line c method path opened error rep)

  -- The last call was defined.
  pub has_control : Option (Control F.Double) → Bool
  has_control none = false
  has_control (some c) = true

  -- The handler's backend. `opened` and `error` are what comes of opening the serial device, and
  -- `files` and `root` the file system and the document root.
  abbrev pub control_backend : Opening → Bytes → (Bytes → Option Bytes) → Bytes → Backend
  control_backend opened error files root = record {
    State = Option (Control F.Double);
    http_request = request_control opened error;
    is_defined = has_control;
    open_file = files;
    doc_root = root;
  }
