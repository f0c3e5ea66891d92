-- ===== src/Device/Receive.antt =====
-- `bnc565::handle_receive`: from pieces of the serial line to whole replies.
pub mod Lines
use bnc.Prelude.{ℕ, Bool, ◌&&◌, List, [], ◌∷◌, ◌++◌, leb, ◌==◌, if◌then◌else◌}
use bnc.Prelude.Bytes.{Bytes}

-- `receiving_data_` and `que_`.
pub record Receiver : Type 0 where
  pub receiving_data : Bytes
  pub que : List Bytes

-- std::isprint in the C locale.
abbrev pub is_print : ℕ → Bool
is_print c = leb 32 c && leb c 126

-- One round of the loop. A byte that is neither printable nor '\n' is dropped.
unfoldable pub receive_byte : Receiver → ℕ → Receiver
receive_byte r c =
    if is_print c
    then record r { receiving_data = r.receiving_data ++ c ∷ [] }
    else if c == b'\r'
    then r
    else if c == b'\n'
    then record { receiving_data = []; que = r.que ++ r.receiving_data ∷ [] }
    else r

unfoldable pub handle_receive : Receiver → Bytes → Receiver
unfolding receive_byte
handle_receive r [] = r
handle_receive r (c ∷ s) = handle_receive (receive_byte r c) s
