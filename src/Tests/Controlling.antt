-- ===== src/Tests/Controlling.antt =====
-- The commands of httpd/dgctl.cpp, with a small implementation of the trees.
use bnc.Prelude.{
  ℕ, true, false, List, [], ◌∷◌, ◌++◌, ◌≡◌, refl, Option, some, none, is_empty, if◌then◌else◌,
  replicate, Bool, arith,
}
use bnc.Prelude.Bytes.{starts_with, Bytes, codes, equal, to_string, value_of}
use bnc.Device.Serial.{Opening}
use bnc.Device.Protocols.{Pulse, Protocols, new_protocols}
use bnc.Device.Json.{Trees, Reading, read_json, read_tree, read_protocols, read_pulses, read_pulse}
use bnc.Device.Control.{Texts, Control, http_request, submit}
use bnc.Device.Control.Offline.{QuietAnswer, http_request-QuietAnswer}
use bnc.Device.Control.Replies.{Committed, http_request-Committed, submit-append}
use bnc.Http.Request.{Request, fresh_request}
use bnc.Http.Reply.{ok}
use bnc.Http.Handler.{handle_request}
use bnc.Http.Handler.Framed.{fresh_reply}
use bnc.Http.Url.RoundTrip.{url_encode}
use bnc.Site.{control_backend}
use bnc.Site.Commit.{Served, commit_path, handle_request-Served}
use bnc.Tests.Commanding.{whole, normal, driver}

mutual
  data Tree : Type 0 where
    node : Bytes → Forest → Tree

  data Forest : Type 0 where
    end : Forest
    child : Bytes → Tree → Forest → Forest

abbrev value : Tree → Bytes
value (node v f) = v

abbrev trees : Forest → List Tree
trees end = []
trees (child k t f) = t ∷ trees f

abbrev children : Tree → List Tree
children (node v f) = trees f

abbrev find : Bytes → Forest → Option Tree
find p end = none
find p (child k t f) = if equal k p then some t else find p f

abbrev get : Bytes → Tree → Option Bytes
get p (node v f) = elim (find p f) [ none ↦ none | some t ↦ some (value t) ]

abbrev get_child : Bytes → Tree → Option (List Tree)
get_child p (node v f) =
    if is_empty p
    then some (trees f)
    else (elim (find p f) [ none ↦ none | some t ↦ some (children t) ])

abbrev put_last : Bytes → Tree → Forest → Forest
put_last p t end = child p t end
put_last p t (child k u f) = child k u (put_last p t f)

abbrev add : Bytes → Tree → Tree → Tree
add p t (node v f) = node v (put_last p t f)

-- Three texts that parse: no protocol, one protocol of one pulse, and two commands.
abbrev no_protocol : Tree
no_protocol = node [] (child (codes "protocols.protocol") (node [] end) end)

abbrev one_pulse : Tree
one_pulse = node [] (
    child (codes "protocols.interval") (node (codes "3000000") end) (
      child (codes "protocols.protocol")
        (node [] (
          child []
            (node [] (
              child (codes "pulses")
                (node []
                  (child [] (node [] (child (codes "width") (node (codes "5000000") end) end)) end))
                end))
            end))
        end))

abbrev parse : Bytes → Option Tree
parse s =
    if equal s (codes "{none}")
    then some no_protocol
    else if equal s (codes "{one}")
    then some one_pulse
    else none

abbrev read_number : Bytes → Option ℕ
read_number s = if is_empty s then none else some (value_of 0 s)

abbrev model : Trees whole
model = record {
  Tree = Tree;
  parse = parse;
  parse_error = λ s. codes "parse error";
  print = value;
  value = value;
  get = get;
  get_child = get_child;
  empty = node [] end;
  put = λ p v t. add p (node v end) t;
  push_back = λ u t. add [] u t;
  add_child = λ p u t. add p u t;
  to_int = read_number;
  to_bool = λ s.
      if equal s (codes "true")
      then some true
      else if equal s (codes "false")
      then some false
      else none;
  to_double = read_number;
  print_int = to_string;
  print_bool = λ v. if v then codes "true" else codes "false";
}

abbrev texts : Texts
texts = record { package_version = codes "1.0"; exception = codes "std::exception" }

abbrev control : Control ℕ
control = record {
  driver = driver;
  is_active = false;
  is_dirty = false;
  pulser_interval = 1;
  pulses = replicate 6 (0, 0);
}

read_none :
    read_json whole model (codes "{none}") (new_protocols whole)
    ≡ Reading.accepted (record (new_protocols whole) { protocols = [] })
unfolding read_json read_tree read_protocols equal
read_none = refl

abbrev first_pulse : Pulse ℕ
first_pulse = record { delay = 0; width = 5; polarity = false; state = 0 }

abbrev rest_pulses : List (Pulse ℕ)
rest_pulses = replicate 7 (record { delay = 0; width = 0; polarity = false; state = 0 })

abbrev one_protocol : Protocols ℕ
one_protocol = record (new_protocols whole) {
  interval = 3;
  protocols = (first_pulse ∷ rest_pulses) ∷ [];
}

read_one :
    read_json whole model (codes "{one}") (new_protocols whole) ≡ Reading.accepted one_protocol
unfolding read_json read_tree read_protocols read_pulses read_pulse equal value_of
read_one = refl

http_request-Committed_example :
    Committed whole model texts normal control 3 (first_pulse ∷ rest_pulses) (
      http_request whole model texts normal control
        (codes "GET")
        (codes "/dg/ctl?commit.json=" ++ codes "{one}")
        Opening.ready
        []
        [])
http_request-Committed_example =
    http_request-Committed whole model texts normal control (codes "GET") (codes "{one}") [] []
      Opening.ready one_protocol (first_pulse ∷ rest_pulses) [] refl read_one refl

abbrev say : Bytes → Tree
say s = node s end

submit-append_example :
    submit whole model texts normal (say (codes "*IDN?") ∷ say (codes "*RST") ∷ []) control []
    ≡ submit whole model texts normal
        (say (codes "*RST") ∷ [])
        (submit whole model texts normal (say (codes "*IDN?") ∷ []) control []).0
        (codes "lost")
submit-append_example =
    submit-append whole model texts normal (say (codes "*IDN?") ∷ []) (say (codes "*RST")) control
      [] (codes "lost") refl

abbrev files : Bytes → Option Bytes
files name = none

abbrev keep_all : ℕ → Bool
keep_all c = true

abbrev post : Request
post = record fresh_request {
  method = codes "POST";
  uri = url_encode keep_all (commit_path (codes "{one}"));
}

handle_request-Served_example :
    Served whole model texts normal control 3 (first_pulse ∷ rest_pulses) (
      handle_request
        (control_backend whole model texts normal Opening.ready [] files (codes "/srv"))
        (some control)
        post
        (fresh_reply ok))
handle_request-Served_example =
    handle_request-Served whole model texts normal Opening.ready [] files (codes "/srv") ok keep_all
      control post (codes "{one}") one_protocol (first_pulse ∷ rest_pulses) [] refl (ground arith)
      refl read_one refl

abbrev offline : Control ℕ
offline = record control { driver = record driver { is_open = false } }

no_set : starts_with (codes "/dg/ctl?set=") (codes "/dg/ctl?status.json") ≡ false
unfolding starts_with
no_set = refl

http_request-QuietAnswer_example : QuietAnswer whole model texts normal offline (
    http_request whole model texts normal offline
      (codes "GET")
      (codes "/dg/ctl?status.json")
      Opening.ready
      []
      [])
http_request-QuietAnswer_example =
    http_request-QuietAnswer whole model texts normal offline (codes "GET")
      (codes "/dg/ctl?status.json") [] [] Opening.ready refl no_set
