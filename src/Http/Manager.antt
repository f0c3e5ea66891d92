-- ===== src/Http/Manager.antt =====
-- httpd/connection_manager.hpp and httpd/connection_manager.cpp: the sets of the connections. A
-- connection is a number, in the order of the pointers to them. What an operation does to its
-- connections' sockets is in Server.antt.
use bnc.Prelude.{ℕ, Bool, true, false, List, [], ◌∷◌, ltb, ◌==◌, if◌then◌else◌}

pub record Manager : Type 0 where
  pub connections : List ℕ
  pub sse_objects : List ℕ
  pub sse_connected : Bool

abbrev pub new_manager : Manager
new_manager = record { connections = []; sse_objects = []; sse_connected = false }

-- `insert` of a std::set, which is in ascending order.
unfoldable pub insert : ℕ → List ℕ → List ℕ
insert c [] = c ∷ []
insert c (x ∷ xs) =
    let more = insert c xs in if c == x then x ∷ xs else if ltb c x then c ∷ x ∷ xs else x ∷ more

-- `erase` of a key.
unfoldable pub erase : ℕ → List ℕ → List ℕ
erase c [] = []
erase c (x ∷ xs) = let more = erase c xs in if c == x then more else x ∷ more

unfoldable pub start : ℕ → Manager → Manager
unfolding insert
start c m = record m { connections = insert c m.connections }

unfoldable pub stop : ℕ → Manager → Manager
unfolding erase
stop c m = record m { connections = erase c m.connections }

unfoldable pub stop_all : Manager → Manager
stop_all m = record m { connections = [] }

unfoldable pub sse_start : ℕ → Manager → Manager
unfolding insert erase
sse_start c m = record {
  connections = erase c m.connections;
  sse_objects = insert c m.sse_objects;
  sse_connected = true;
}

unfoldable pub sse_stop : ℕ → Manager → Manager
unfolding erase
sse_stop c m = record m { sse_objects = erase c m.sse_objects }

unfoldable pub sse_stop_all : Manager → Manager
sse_stop_all m = record m { sse_objects = [] }
