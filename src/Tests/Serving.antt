-- ===== src/Tests/Serving.antt =====
-- The server, httpd/server.cpp, with one client.
use bnc.Prelude.{◌⊎◌, ℕ, suc, [], ◌∷◌, refl, Option, some, none, ◌≡◌, count, true, ◌++◌}
use bnc.Prelude.Bytes.{codes, Bytes}
use bnc.Http.Reply.{ok}
use bnc.Http.Parser.{is_digit, parse, consume_in, not_token, is_ctl}
use bnc.Http.Handler.{Backend}
use bnc.Http.Connection.{Connection, new_connection, on_read}
use bnc.Http.Server.{
  Server, read_some, accept, wait_signal, success, new_server, complete, follow, on_accept, Step,
  completes, begins, goes_on,
}
use bnc.Http.Server.WellFormed.{WellFormed}
use bnc.Http.Server.Accepting.{is_accept, Reachable-is_accept}
use bnc.Http.Server.Defined.{Overflows, Misused, complete-Overflows}
use bnc.Http.Server.Invariant.{Reachable-WellFormed}

abbrev site : Backend
site = record {
  State = ℕ;
  http_request = λ s method path content. (suc s, content);
  is_defined = λ s. true;
  open_file = λ name. none;
  doc_root = codes "/srv";
}

abbrev memory : ℕ → Connection
memory i = new_connection ok

abbrev or_self : Option (Server ℕ) → Server ℕ → Server ℕ
or_self none w = w
or_self (some v) w = v

abbrev listening : Server ℕ
listening = new_server 0 memory

-- A client connects, and then sends a request that is refused.
connected : Server ℕ
unfolding complete
connected =
    or_self (complete site accept success [] ok (record listening { pending = wait_signal ∷ [] }))
      listening

refused : Server ℕ
unfolding complete connected
refused =
    or_self
      (complete site (read_some 0) success (codes "\r\n") ok
        (record connected { pending = wait_signal ∷ accept ∷ [] }))
      connected

connects : Step site listening connected
unfolding complete connected on_accept
connects = completes (wait_signal ∷ []) [] accept success [] ok connected refl refl

refuses : Step site connected refused
unfolding complete refused connected on_read parse consume_in not_token is_ctl follow
refuses =
    completes (wait_signal ∷ []) (accept ∷ []) (read_some 0) success (codes "\r\n") ok refused refl
      refl

Reachable-WellFormed_example : WellFormed refused
Reachable-WellFormed_example =
    Reachable-WellFormed site 0 memory refused
      (goes_on connected refused (goes_on listening connected begins connects) refuses)

still_accepting : refused.accepting ≡ true
unfolding refused connected complete on_read parse consume_in not_token is_ctl follow on_accept
still_accepting = refl

Reachable-is_accept_example : count is_accept refused.pending ≡ 1
Reachable-is_accept_example =
    Reachable-is_accept site 0 memory refused
      (goes_on connected refused (goes_on listening connected begins connects) refuses)
      still_accepting

abbrev large_version : Bytes
large_version = codes "GET /a HTTP/2147483600"

overflows :
    complete site
      (read_some 0)
      success
      large_version
      ok
      (record connected { pending = (wait_signal ∷ []) ++ (accept ∷ []) })
    ≡ none
unfolding complete connected on_accept on_read parse consume_in not_token is_ctl is_digit
overflows = refl

connected_pending : connected.pending ≡ (wait_signal ∷ []) ++ (read_some 0 ∷ accept ∷ [])
unfolding complete connected on_accept
connected_pending = refl

complete-Overflows_example :
    Overflows site connected (read_some 0) success large_version
    ⊎ Misused site connected (read_some 0) success large_version
complete-Overflows_example =
    complete-Overflows site 0 memory connected (wait_signal ∷ []) (accept ∷ []) (read_some 0)
      success large_version ok (goes_on listening connected begins connects) connected_pending
      overflows
