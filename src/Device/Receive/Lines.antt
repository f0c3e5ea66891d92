-- ===== src/Device/Receive/Lines.antt =====
-- The reads of httpd/serialport.cpp and the replies that httpd/bnc565.cpp makes of them.
use bnc.Prelude.{
  ℕ, Bool, true, false, List, [], ◌∷◌, ◌++◌, ◌==◌, if◌then◌else◌, ◌≡◌, refl, arith, append-nil,
  Bool-cases, ◌∙◌, map, ◌||◌, ap, sym, inl, append_assoc, inr, is_empty,
}
use bnc.Prelude.Bytes.{Bytes}
use bnc.Device.Serial.{SerialPort, handle_read, read_bytes}
use bnc.Device.Receive.{Receiver, is_print, receive_byte, handle_receive}

pub handle_receive-append :
    (r : Receiver) (s t : Bytes) → handle_receive r (s ++ t) ≡ handle_receive (handle_receive r s) t
unfolding handle_receive
handle_receive-append r [] t = refl
handle_receive-append r (c ∷ s) t = handle_receive-append (receive_byte r c) s t

-- What the reader has, once it is given what the port still holds.
abbrev settled : Bytes × Receiver → Receiver
settled (inbuf, r) = handle_receive r inbuf

read_bytes-settled :
    (s inbuf : Bytes) (r : Receiver)
    → settled (read_bytes handle_receive inbuf r s) ≡ handle_receive r (inbuf ++ s)
unfolding read_bytes
read_bytes-settled [] inbuf r = rw append-nil
read_bytes-settled (c ∷ s) inbuf r = elim (Bool-cases (c == b'\r' || c == b'\n')) [
  | inl e ↦ rw e (
      read_bytes-settled s [] (handle_receive r (inbuf ++ c ∷ []))
      ∙ sym (handle_receive-append r (inbuf ++ c ∷ []) s)
      ∙ rw append_assoc)
  | inr e ↦ rw e (read_bytes-settled s (inbuf ++ c ∷ []) r ∙ rw append_assoc)
]

-- One completed read: whether it failed, and its bytes.
abbrev pub Read : Type 0
Read = Bool × Bytes

abbrev pub deliver : SerialPort × Receiver → List Read → SerialPort × Receiver
deliver (p, r) [] = (p, r)
deliver (p, r) ((error, s) ∷ rs) = deliver (handle_read handle_receive p r error s) rs

-- The bytes of the reads that did not fail, in order.
abbrev pub stream : List Read → Bytes
stream [] = []
stream ((error, s) ∷ rs) = (if error then [] else s) ++ stream rs

read_bytes-append :
    (s t inbuf : Bytes) (r : Receiver)
    → read_bytes handle_receive inbuf r (s ++ t)
      ≡ (let q = read_bytes handle_receive inbuf r s in read_bytes handle_receive q.0 q.1 t)
unfolding read_bytes
read_bytes-append [] t inbuf r = refl
read_bytes-append (c ∷ s) t inbuf r = elim (Bool-cases (c == b'\r' || c == b'\n')) [
  | inl e ↦ rw e (read_bytes-append s t [] (handle_receive r (inbuf ++ c ∷ [])))
  | inr e ↦ rw e (read_bytes-append s t (inbuf ++ c ∷ []) r)
]

-- However the serial line cuts its bytes into reads, failed reads between them included, the port
-- and the replies received end up as after one read of all the bytes.
pub deliver-stream :
    (rs : List Read) (p : SerialPort) (r : Receiver)
    → deliver (p, r) rs ≡ handle_read handle_receive p r false (stream rs)
unfolding handle_read
deliver-stream [] p r = unfold read_bytes in refl
deliver-stream ((true, s) ∷ rs) p r = deliver-stream rs p r
deliver-stream ((false, s) ∷ rs) p r =
    deliver-stream rs _ _
    ∙ ap (λ (q : Bytes × Receiver). (record p { inbuf = q.0 }, q.1))
        (sym (read_bytes-append s (stream rs) p.inbuf r))

-- The complete lines of a text, and what stands behind the last '\n'.
abbrev add_byte : ℕ → List Bytes × Bytes → List Bytes × Bytes
add_byte c ([], rest) = ([], c ∷ rest)
add_byte c (l ∷ ls, rest) = ((c ∷ l) ∷ ls, rest)

abbrev pub split_lines : Bytes → List Bytes × Bytes
split_lines [] = ([], [])
split_lines (c ∷ s) = let q = split_lines s in if c == b'\n' then ([] ∷ q.0, q.1) else add_byte c q

abbrev pub printable : Bytes → Bytes
printable [] = []
printable (c ∷ s) = if is_print c then c ∷ printable s else printable s

-- The lines of a text are added to what was received before: the first completes a line that was
-- begun.
abbrev extend : Receiver → List Bytes × Bytes → Receiver
extend r ([], rest) = record r { receiving_data = r.receiving_data ++ printable rest }
extend r (l ∷ ls, rest) = record {
  receiving_data = printable rest;
  que = r.que ++ ((r.receiving_data ++ printable l) ∷ map printable ls);
}

receive_byte-extend :
    (c : ℕ) (r : Receiver) (q : List Bytes × Bytes)
    → extend (receive_byte r c) q ≡ extend r (if c == b'\n' then ([] ∷ q.0, q.1) else add_byte c q)
unfolding receive_byte
receive_byte-extend c r ([], rest) =
    ground
      (arith, append_assoc r.receiving_data (c ∷ []) (printable rest), append-nil r.receiving_data)
receive_byte-extend c r (l ∷ ls, rest) = ground (
  arith,
  append_assoc r.receiving_data (c ∷ []) (printable l),
  append_assoc r.que (r.receiving_data ∷ []) (printable l ∷ map printable ls),
  append-nil r.receiving_data,
)

handle_receive-extend : (s : Bytes) (r : Receiver) → handle_receive r s ≡ extend r (split_lines s)
unfolding handle_receive
handle_receive-extend [] r = rw append-nil
handle_receive-extend (c ∷ s) r =
    handle_receive-extend s (receive_byte r c) ∙ receive_byte-extend c r (split_lines s)

extend_clean :
    (r : Receiver) (q : List Bytes × Bytes)
    → r.receiving_data ≡ []
    → q.1 ≡ []
    → extend r q ≡ record { receiving_data = []; que = r.que ++ map printable q.0 }
extend_clean r ([], rest) h k = ground (arith, append-nil r.que)
extend_clean r (l ∷ ls, rest) h k = ground arith

-- Behind a '\n' the port holds nothing back.
read_bytes_newline :
    (inbuf t : Bytes) (r : Receiver) → (read_bytes handle_receive inbuf r (t ++ b'\n' ∷ [])).0 ≡ []
read_bytes_newline inbuf t r = rw read_bytes-append (unfold read_bytes in refl)

read_bytes-handle_receive :
    (t inbuf : Bytes) (r : Receiver)
    → (read_bytes handle_receive inbuf r (t ++ b'\n' ∷ [])).1
      ≡ handle_receive r (inbuf ++ (t ++ b'\n' ∷ []))
unfolding handle_receive
read_bytes-handle_receive t inbuf r =
    rw read_bytes_newline at (read_bytes-settled (t ++ b'\n' ∷ []) inbuf r)

add_byte_rest :
    (c : ℕ) (q : List Bytes × Bytes)
    → q.1 ≡ []
    → is_empty q.0 ≡ false
    → (is_empty (add_byte c q).0 ≡ false) × ((add_byte c q).1 ≡ [])
add_byte_rest c ([], rest) h k = cc
add_byte_rest c (l ∷ ls, rest) h k = (refl, h)

split_lines_newline :
    (t : Bytes)
    → (is_empty (split_lines (t ++ b'\n' ∷ [])).0 ≡ false)
      × ((split_lines (t ++ b'\n' ∷ [])).1 ≡ [])
split_lines_newline [] = (refl, refl)
split_lines_newline (c ∷ t) =
    ground (arith, split_lines_newline t, add_byte_rest c (split_lines (t ++ b'\n' ∷ [])))

-- From a port and a receiver that hold nothing back, reads that end with a '\n' leave nothing back,
-- and add one reply for each line of all their bytes together, in order: the printable bytes of
-- that line. How the bytes are cut into reads, and failed reads, do not matter.
pub deliver-split_lines :
    (rs : List Read) (t : Bytes) (p : SerialPort) (r : Receiver)
    → stream rs ≡ t ++ b'\n' ∷ []
    → p.inbuf ≡ []
    → r.receiving_data ≡ []
    → (deliver (p, r) rs).1
      ≡ record { receiving_data = []; que = r.que ++ map printable (split_lines (stream rs)).0 }
unfolding handle_read
deliver-split_lines rs t p r e k h =
    rw (deliver-stream, e, k)
      (read_bytes-handle_receive t [] r
        ∙ handle_receive-extend (t ++ b'\n' ∷ []) r
        ∙ extend_clean r (split_lines (t ++ b'\n' ∷ [])) h (split_lines_newline t).1)
