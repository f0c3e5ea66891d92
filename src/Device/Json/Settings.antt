-- ===== src/Device/Json/Settings.antt =====
-- All the settings, written as JSON and read back.
use bnc.Prelude.{
  ℕ, ◌+◌, List, [], ◌∷◌, ◌++◌, some, ◌≡◌, refl, ap, sym, arith, All, ◌∙◌, length, map, append_assoc,
  append-nil,
}
use bnc.Prelude.Bytes.{codes, starts_with}
use bnc.Device.Floats.{Floats}
use bnc.Device.Protocols.{Pulse, Protocols, new_protocol, delay_pulse_count}
use bnc.Device.Json.{
  Trees, Reading, read_json, write_json, read_tree, write_tree, read_protocols, write_protocols,
  read_pulses, write_pulses, write_pulse, to_micro,
}
use bnc.Device.Json.RoundTrip.{IsLawful, apart, Exact, ExactPulse, read_pulse-write_pulse}

module _ (F : Floats) (T : Trees F) where
  open F use {Double, print_g}
  open T use {Tree, parse, print, get, get_child, put, add_child, empty, print_int}

  -- A protocol that is kept: eight pulses, each exact in JSON.
  pub record ExactProtocol (xs : List (Pulse Double)) : Type 0 where
    pub eight : length xs ≡ delay_pulse_count
    pub exact : All (ExactPulse F T) xs

  -- The tree of a protocol, and those of several from `index` on.
  abbrev proto : ℕ → List (Pulse Double) → Tree
  proto index xs =
      add_child (codes "pulses") (write_pulses F T xs empty)
        (put (codes "index") (print_int index) empty)

  abbrev protos : ℕ → List (List (Pulse Double)) → List Tree
  protos index [] = []
  protos index (xs ∷ rest) = proto index xs ∷ protos (index + 1) rest

  module _ (law : IsLawful F T) where
    get_child-write_pulses :
        (xs : List (Pulse Double)) (t : Tree) (ts : List Tree)
        → get_child [] t ≡ some ts
        → get_child [] (write_pulses F T xs t) ≡ some (ts ++ map (write_pulse F T) xs)
    unfolding write_pulses
    get_child-write_pulses [] t ts h = h ∙ ap some (sym (append-nil ts))
    get_child-write_pulses (x ∷ xs) t ts h =
        get_child-write_pulses xs _ (ts ++ write_pulse F T x ∷ [])
          (law.get_child-push_back (write_pulse F T x) t ts h)
        ∙ ap some (append_assoc ts (write_pulse F T x ∷ []) (map (write_pulse F T) xs))

    get_child-write_protocols :
        (all : List (List (Pulse Double))) (index : ℕ) (t : Tree) (ts : List Tree)
        → get_child [] t ≡ some ts
        → get_child [] (write_protocols F T index all t) ≡ some (ts ++ protos index all)
    unfolding write_protocols
    get_child-write_protocols [] index t ts h = h ∙ ap some (sym (append-nil ts))
    get_child-write_protocols (xs ∷ rest) index t ts h =
        get_child-write_protocols rest (index + 1) _ (ts ++ proto index xs ∷ [])
          (law.get_child-push_back (proto index xs) t ts h)
        ∙ ap some (append_assoc ts (proto index xs ∷ []) (protos (index + 1) rest))

    read_pulses-map :
        (xs ys : List (Pulse Double))
        → length ys ≡ length xs
        → All (ExactPulse F T) xs
        → read_pulses F T ys (map (write_pulse F T) xs) ≡ some xs
    unfolding read_pulses
    read_pulses-map [] [] l v = refl
    read_pulses-map [] (y ∷ ys) l v = ground arith
    read_pulses-map (x ∷ xs) [] l v = ground arith
    read_pulses-map (x ∷ xs) (y ∷ ys) l v =
        rw
          (
            read_pulses,
            read_pulses-map xs ys (omega (arith, l)) v.1,
            read_pulse-write_pulse F T law x y v.0,
          )
          refl

    get_child-proto :
        (index : ℕ) (xs : List (Pulse Double))
        → get_child (codes "pulses") (proto index xs) ≡ some (map (write_pulse F T) xs)
    unfolding starts_with
    get_child-proto index xs =
        law.get_child-add_child (codes "pulses") _ _ (
          law.get_child-put_other (codes "index") (codes "pulses") _ _
            (record { not_within = refl; not_around = refl })
          ∙ law.get_child-empty (codes "pulses") refl)
        ∙ get_child-write_pulses xs empty [] law.get_child-empty_nil

    read_protocols-protos :
        (all : List (List (Pulse Double))) (index : ℕ)
        → All ExactProtocol all
        → read_protocols F T (protos index all) ≡ Reading.accepted all
    unfolding read_protocols
    read_protocols-protos [] index v = refl
    read_protocols-protos (xs ∷ rest) index v =
        rw
          (
            read_protocols,
            get_child-proto index xs,
            read_pulses-map xs (new_protocol F) (sym v.0.eight) v.0.exact,
            read_protocols-protos rest (index + 1) v.1,
          )
          refl

    get_interval :
        (p : Protocols Double)
        → get (codes "protocols.interval") (write_tree F T p)
          ≡ some (print_g (to_micro F T p.interval))
    unfolding write_tree starts_with
    get_interval p =
        law.get-add_child_other (codes "protocols.protocol") (codes "protocols.interval") _ _
          (apart F T law _ _ refl refl)
        ∙ law.get-put_other (codes "protocols.state") (codes "protocols.interval") _ _
            (apart F T law _ _ refl refl)
        ∙ law.get-put (codes "protocols.interval") _ _

    get_state :
        (p : Protocols Double)
        → get (codes "protocols.state") (write_tree F T p) ≡ some (print_int p.state)
    unfolding write_tree starts_with
    get_state p =
        law.get-add_child_other (codes "protocols.protocol") (codes "protocols.state") _ _
          (apart F T law _ _ refl refl)
        ∙ law.get-put (codes "protocols.state") _ _

    get_child-write_tree :
        (p : Protocols Double)
        → get_child (codes "protocols.protocol") (write_tree F T p) ≡ some (protos 0 p.protocols)
    unfolding write_tree starts_with
    get_child-write_tree p =
        law.get_child-add_child (codes "protocols.protocol") _ _ (
          law.get_child-put_other (codes "protocols.state") (codes "protocols.protocol") _ _
            (apart F T law _ _ refl refl)
          ∙ law.get_child-put_other (codes "protocols.interval") (codes "protocols.protocol") _ _
              (apart F T law _ _ refl refl)
          ∙ law.get_child-put_other (codes "inst_full") (codes "protocols.protocol") _ _
              (apart F T law _ _ refl refl)
          ∙ law.get_child-put_other (codes "idn") (codes "protocols.protocol") _ _
              (apart F T law _ _ refl refl)
          ∙ law.get_child-empty (codes "protocols.protocol") refl)
        ∙ get_child-write_protocols p.protocols 0 empty [] law.get_child-empty_nil

    read_tree-write_tree :
        (p q : Protocols Double)
        → Exact F T p.interval
        → All ExactProtocol p.protocols
        → read_tree F T q (write_tree F T p)
          ≡ Reading.accepted (record p { idn = q.idn; full = q.full })
    unfolding read_tree
    read_tree-write_tree p q e v =
        rw
          (
            read_tree,
            get_child-write_tree p,
            read_protocols-protos p.protocols 0 v,
            get_state p,
            get_interval p,
            law.to_int-print_int p.state,
            e.read_back,
            e.divided,
          )
          refl

    -- For trees as boost documents them: if the text that is written for the settings `p` parses to
    -- the tree it was written from, the interval and each pulse are exact in JSON, each state of a
    -- channel is 0 or 1, and each protocol has eight pulses, then reading that text into any settings
    -- gives `p`, but for the two names of the generator, which are not read.
    pub read_json-write_json :
        (p q : Protocols Double)
        → parse (write_json F T p) ≡ some (write_tree F T p)
        → Exact F T p.interval
        → All ExactProtocol p.protocols
        → read_json F T (write_json F T p) q
          ≡ Reading.accepted (record p { idn = q.idn; full = q.full })
    unfolding read_json
    read_json-write_json p q h e v = rw (read_json, h) (read_tree-write_tree p q e v)
