-- ===== src/Device/Json.antt =====
-- httpd/dgprotocols.cpp: the settings as JSON, `read_json` and `write_json`. The trees and their text
-- are those of boost::property_tree, a parameter.
pub mod RoundTrip
pub mod Settings
use bnc.Prelude.{ℕ, ◌+◌, Bool, List, [], ◌∷◌, Option, none, some, if◌then◌else◌}
use bnc.Prelude.Bytes.{Bytes, codes}
use bnc.Device.Floats.{Floats}
use bnc.Device.Protocols.{Pulse, Protocols, new_protocol}

-- What the program uses of boost::property_tree. `parse` and `print` are its read_json and
-- write_json, and `parse_error` is the diagnostic text for a payload that does not parse.
-- `get_child` gives the children, without their keys, of the tree at a path, or `none` where it
-- throws; `get` the text at a path; `push_back` adds a child with the key "". The conversions are
-- those of its stream translators, an int as its bit pattern.
pub record Trees (F : Floats) : Type 1 where
  pub Tree : Type 0
  pub parse : Bytes → Option Tree
  pub parse_error : Bytes → Bytes
  pub print : Tree → Bytes
  pub value : Tree → Bytes
  pub get : Bytes → Tree → Option Bytes
  pub get_child : Bytes → Tree → Option (List Tree)
  pub empty : Tree
  pub put : Bytes → Bytes → Tree → Tree
  pub push_back : Tree → Tree → Tree
  pub add_child : Bytes → Tree → Tree → Tree
  pub to_int : Bytes → Option ℕ
  pub to_bool : Bytes → Option Bool
  pub to_double : Bytes → Option F.Double
  pub print_int : ℕ → Bytes
  pub print_bool : Bool → Bytes

-- What reading comes to: a value, an exception, or undefined behaviour.
pub data Reading (A : Type 0) : Type 0 where
  accepted : A → Reading A
  threw : Reading A
  undefined : Reading A

module _ (F : Floats) (T : Trees F) where
  open F use {Double, of_int, mul, div, print_g}
  open T use {
    Tree, parse, print, get, get_child, empty, put, push_back, add_child, to_int, to_bool,
    to_double, print_int, print_bool,
  }

  -- `pt.get_optional< T >( path )`
  abbrev convert : {A : Type 0} → (Bytes → Option A) → Option Bytes → Option A
  convert f none = none
  convert f (some s) = f s

  -- `if ( auto v = ... ) x = v.get()`
  abbrev assign : {A B : Type 0} → (A → B → B) → Option A → B → B
  assign f none x = x
  assign f (some v) x = f v x

  -- `/ std::micro::den`
  abbrev pub from_micro : Double → Double
  from_micro v = div v (of_int 1000000)

  abbrev pub to_micro : Double → Double
  to_micro v = mul v (of_int 1000000)

  abbrev set_state : Bool → Pulse Double → Pulse Double
  set_state v x = record x { state = if v then 1 else 0 }

  unfoldable pub read_pulse : Tree → Pulse Double → Pulse Double
  read_pulse t x = assign set_state (convert to_bool (get (codes "state") t)) (
      assign (λ v y. record y { polarity = v }) (convert to_bool (get (codes "polarity") t))
        (assign (λ v y. record y { width = from_micro v })
          (convert to_double (get (codes "width") t))
          (assign (λ v y. record y { delay = from_micro v })
            (convert to_double (get (codes "delay") t)) x)))

  -- The loop over the pulses. A ninth names the element behind the array, which is undefined: `none`.
  unfoldable pub read_pulses : List (Pulse Double) → List Tree → Option (List (Pulse Double))
  unfolding read_pulse
  read_pulses xs [] = some xs
  read_pulses [] (t ∷ ts) = none
  read_pulses (x ∷ xs) (t ∷ ts) = elim (read_pulses xs ts) [
    | none ↦ none
    | some ys ↦ some (read_pulse t x ∷ ys)
  ]

  -- The loop over the protocols. A protocol without pulses throws.
  unfoldable pub read_protocols : List Tree → Reading (List (List (Pulse Double)))
  unfolding read_pulses
  read_protocols [] = Reading.accepted []
  read_protocols (t ∷ ts) = elim (get_child (codes "pulses") t) [
    | none ↦ Reading.threw
    | some us ↦ elim (read_pulses (new_protocol F) us) [
      | none ↦ Reading.undefined
      | some xs ↦ elim (read_protocols ts) [
        | Reading.accepted rest ↦ Reading.accepted (xs ∷ rest)
        | Reading.threw ↦ Reading.threw
        | Reading.undefined ↦ Reading.undefined
      ]
    ]
  ]

  -- What is read of a tree into the settings `p`.
  unfoldable pub read_tree : Protocols Double → Tree → Reading (Protocols Double)
  unfolding read_protocols
  read_tree p t =
      let stated =
        assign (λ v q. record q { state = v }) (convert to_int (get (codes "protocols.state") t))
          p in
      let timed =
        assign (λ v q. record q { interval = from_micro v })
          (convert to_double (get (codes "protocols.interval") t)) stated in
      elim (get_child (codes "protocols.protocol") t) [
        | none ↦ Reading.threw
        | some ts ↦ elim (read_protocols ts) [
          | Reading.accepted all ↦ Reading.accepted (record timed { protocols = all })
          | Reading.threw ↦ Reading.threw
          | Reading.undefined ↦ Reading.undefined
        ]
      ]

  -- `read_json`
  unfoldable pub read_json : Bytes → Protocols Double → Reading (Protocols Double)
  unfolding read_tree
  read_json json p = elim (parse json) [ none ↦ Reading.threw | some t ↦ read_tree p t ]

  unfoldable pub write_pulse : Pulse Double → Tree
  write_pulse x = put (codes "state") (print_int x.state) (
      put (codes "polarity") (print_bool x.polarity) (
        put (codes "width") (print_g (to_micro x.width))
          (put (codes "delay") (print_g (to_micro x.delay)) empty)))

  unfoldable pub write_pulses : List (Pulse Double) → Tree → Tree
  unfolding write_pulse
  write_pulses [] t = t
  write_pulses (x ∷ xs) t = write_pulses xs (push_back (write_pulse x) t)

  unfoldable pub write_protocols : ℕ → List (List (Pulse Double)) → Tree → Tree
  unfolding write_pulses
  write_protocols index [] t = t
  write_protocols index (xs ∷ rest) t =
      let proto =
        add_child (codes "pulses") (write_pulses xs empty)
          (put (codes "index") (print_int index) empty) in
      write_protocols (index + 1) rest (push_back proto t)

  unfoldable pub write_tree : Protocols Double → Tree
  unfolding write_protocols
  write_tree p = add_child (codes "protocols.protocol") (write_protocols 0 p.protocols empty) (
      put (codes "protocols.state") (print_int p.state) (
        put (codes "protocols.interval") (print_g (to_micro p.interval))
          (put (codes "inst_full") p.full (put (codes "idn") p.idn empty))))

  unfoldable pub write_json : Protocols Double → Bytes
  unfolding write_tree
  write_json p = print (write_tree p)
