-- ===== src/Tests/Writing.antt =====
-- Settings of httpd/dgprotocols.cpp written and read back, with trees that satisfy what boost documents.
use bnc.Prelude.{
  ℕ, ◌*◌, ◌/◌, Bool, true, false, List, [], ◌∷◌, ◌++◌, ◌≡◌, refl, ap, sym, ◌∙◌, Option, some, none,
  is_empty, if◌then◌else◌, replicate, append-nil, Bool-cases, inl, inr, if_true, if_false, ◌||◌,
}
use bnc.Prelude.Bytes.{
  Bytes, codes, equal, equal_iff, equal_refl, to_string, to_string-some, value_of,
  value_of-to_string, starts_with, starts_with-append,
}
use bnc.Device.Protocols.{Pulse, Protocols, new_protocols}
use bnc.Device.Json.{
  Trees, Reading, read_json, write_json, write_tree, write_protocols, write_pulses, write_pulse,
}
use bnc.Device.Json.RoundTrip.{Apart, IsLawful, Exact, ExactPulse}
use bnc.Device.Json.Settings.{ExactProtocol, read_json-write_json}
use bnc.Tests.Commanding.{whole}

-- The texts at paths, the children with names, newest first, and those without.
mutual
  data Tree : Type 0 where
    node : List (Bytes × Bytes) → Forest → Forest → Tree

  data Forest : Type 0 where
    end : Forest
    child : Bytes → Tree → Forest → Forest

abbrev lookup : Bytes → List (Bytes × Bytes) → Option Bytes
lookup p [] = none
lookup p ((q, v) ∷ l) = if equal p q then some v else lookup p l

abbrev trees : Forest → List Tree
trees end = []
trees (child k t f) = t ∷ trees f

abbrev children : Tree → List Tree
children (node l named f) = trees f

abbrev children_at : Bytes → Forest → Option (List Tree)
children_at p end = none
children_at p (child k t f) = if equal p k then some (children t) else children_at p f

abbrev get : Bytes → Tree → Option Bytes
get p (node l named f) = lookup p l

abbrev get_child : Bytes → Tree → Option (List Tree)
get_child p (node l named f) = if is_empty p then some (trees f) else children_at p named

abbrev put : Bytes → Bytes → Tree → Tree
put p v (node l named f) = node ((p, v) ∷ l) named f

abbrev push_last : Tree → Forest → Forest
push_last u end = child [] u end
push_last u (child k t f) = child k t (push_last u f)

abbrev push_back : Tree → Tree → Tree
push_back u (node l named f) = node l named (push_last u f)

abbrev add_child : Bytes → Tree → Tree → Tree
add_child p u (node l named f) = node l (child p u named) f

abbrev to_number : Bytes → Option ℕ
to_number s = if is_empty s then none else some (value_of 0 s)

abbrev to_bool : Bytes → Option Bool
to_bool s =
    if equal s (codes "0") || equal s (codes "false")
    then some false
    else if equal s (codes "1") || equal s (codes "true")
    then some true
    else none

abbrev print_bool : Bool → Bytes
print_bool v = if v then codes "true" else codes "false"

abbrev trees_of : (Bytes → Option Tree) → Trees whole
trees_of parse = record {
  Tree = Tree;
  parse = parse;
  parse_error = λ s. codes "parse error";
  print = λ t. codes "{}";
  value = λ t. [];
  get = get;
  get_child = get_child;
  empty = node [] end end;
  put = put;
  push_back = push_back;
  add_child = add_child;
  to_int = to_number;
  to_bool = to_bool;
  to_double = to_number;
  print_int = to_string;
  print_bool = print_bool;
}

Apart-equal : (p q : Bytes) → Apart p q → equal q p ≡ false
Apart-equal p q a = elim (Bool-cases (equal q p)) [
  | inl e ↦
      let same = (equal_iff q p).0 e in
      let within : starts_with q q ≡ true =
        ap (starts_with q) (sym (append-nil q)) ∙ starts_with-append q [] in
      let around : starts_with q p ≡ true = ap (starts_with q) (sym same) ∙ within in
      cc (a.not_around)
  | inr e ↦ e
]

to_number-to_string : (n : ℕ) → to_number (to_string n) ≡ some n
to_number-to_string n =
    let (c, s, e) = to_string-some n in
    if_false (is_empty (to_string n)) none (some (value_of 0 (to_string n))) (ap is_empty e)
    ∙ ap some (value_of-to_string n)

trees-push_last : (u : Tree) (f : Forest) → trees (push_last u f) ≡ trees f ++ u ∷ []
trees-push_last u end = refl
trees-push_last u (child k t f) = ap (λ l. t ∷ l) (trees-push_last u f)

get_child-push_back :
    (u t : Tree) (ts : List Tree)
    → get_child [] t ≡ some ts
    → get_child [] (push_back u t) ≡ some (ts ++ u ∷ [])
get_child-push_back u (node l named f) ts h =
    ap some (trees-push_last u f) ∙ ap (λ o. elim o [ none ↦ none | some x ↦ some (x ++ u ∷ []) ]) h

get_child-add_child :
    (p : Bytes) (u t : Tree) → get_child p t ≡ none → get_child p (add_child p u t) ≡ get_child [] u
get_child-add_child [] u (node l named f) h = cc
get_child-add_child (c ∷ p) (node m names g) (node l named f) h =
    if_true (equal (c ∷ p) (c ∷ p)) _ _ (equal_refl (c ∷ p))

get-put : (p v : Bytes) (t : Tree) → get p (put p v t) ≡ some v
get-put p v (node l named f) = if_true (equal p p) _ _ (equal_refl p)

get-put_other : (p q v : Bytes) (t : Tree) → Apart p q → get q (put p v t) ≡ get q t
get-put_other p q v (node l named f) a = if_false (equal q p) _ _ (Apart-equal p q a)

get-add_child_other : (p q : Bytes) (u t : Tree) → Apart p q → get q (add_child p u t) ≡ get q t
get-add_child_other p q u (node l named f) a = refl

get_child-put_other :
    (p q v : Bytes) (t : Tree) → Apart p q → get_child q (put p v t) ≡ get_child q t
get_child-put_other p q v (node l named f) a = refl

to_bool-print_bool : (v : Bool) → to_bool (print_bool v) ≡ some v
unfolding equal
to_bool-print_bool true = refl
to_bool-print_bool false = refl

trees_of-IsLawful : (parse : Bytes → Option Tree) → IsLawful whole (trees_of parse)
unfolding equal to_string
trees_of-IsLawful parse = record {
  get-put = get-put;
  get-put_other = get-put_other;
  get-add_child_other = get-add_child_other;
  get_child-put_other = get_child-put_other;
  get_child-add_child = get_child-add_child;
  get_child-empty = λ p e. if_false (is_empty p) _ _ e;
  get_child-empty_nil = refl;
  get_child-push_back = get_child-push_back;
  to_int-print_int = to_number-to_string;
  to_bool-print_bool = to_bool-print_bool;
  to_bool-print_zero = refl;
  to_bool-print_one = refl;
}

abbrev pulse : Pulse ℕ
pulse = record { delay = 2; width = 5; polarity = true; state = 1 }

abbrev settings : Protocols ℕ
settings = record {
  idn = codes "BNC";
  full = codes "565";
  interval = 3;
  state = 1;
  protocols = replicate 8 pulse ∷ [];
}

written : Tree
unfolding write_tree write_protocols write_pulses write_pulse to_string
written = write_tree whole (trees_of (λ s. none)) settings

abbrev lawful_trees : Trees whole
lawful_trees = trees_of (λ s. some written)

exact : (v : ℕ) → v * 1000000 / 1000000 ≡ v → Exact whole lawful_trees v
exact v e = record {
  scaled = v * 1000000;
  read_back = to_number-to_string (v * 1000000);
  divided = e;
}

exact_pulse : ExactPulse whole lawful_trees pulse
exact_pulse = record { delay = exact 2 refl; width = exact 5 refl; flag = inr refl }

exact_protocol : ExactProtocol whole lawful_trees (replicate 8 pulse)
exact_protocol = record {
  eight = refl;
  exact = (
    exact_pulse,
    (
      exact_pulse,
      (exact_pulse, (exact_pulse, (exact_pulse, (exact_pulse, (exact_pulse, (exact_pulse, tt)))))),
    ),
  );
}

reads_written :
    lawful_trees.parse (write_json whole lawful_trees settings)
    ≡ some (write_tree whole lawful_trees settings)
unfolding write_tree write_protocols write_pulses write_pulse written
reads_written = refl

read_json-write_json_example :
    read_json whole lawful_trees (write_json whole lawful_trees settings) (new_protocols whole)
    ≡ Reading.accepted (record settings { idn = []; full = [] })
read_json-write_json_example =
    read_json-write_json whole lawful_trees (trees_of-IsLawful (λ s. some written)) settings
      (new_protocols whole) reads_written (exact 3 refl) (exact_protocol, tt)
