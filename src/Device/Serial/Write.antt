-- ===== src/Device/Serial/Write.antt =====
-- httpd/serialport.cpp: what `write` returns, and the buffer that it leaves.
use bnc.Prelude.{
  ap, Bool, true, false, not, ◌&&◌, ◌||◌, Bool-cases, inl, inr, List, [], ◌∷◌, ◌≡◌, refl, ◌∙◌,
  if_false, is_empty, length, ◌==◌,
}
use bnc.Prelude.Bytes.{Bytes}
use bnc.Device.Serial.{SerialPort, Written, handle_write, wait_for, write}

-- The wait ends by what happens here, before its limit: a wake, or a completed write that has not failed
-- and has transferred all of the bytes.
abbrev ends_wait : Bytes → Written → Bool
ends_wait bytes Written.woken = true
ends_wait bytes (Written.completed error n) = not error && length bytes == n

abbrev pub any_ends_wait : Bytes → List Written → Bool
any_ends_wait bytes [] = false
any_ends_wait bytes (w ∷ ws) = ends_wait bytes w || any_ends_wait bytes ws

wait_for_lem :
    (p : SerialPort) (bytes : Bytes) (ws : List Written)
    → (wait_for (record p { outbuf = bytes }) ws).0 ≡ any_ends_wait bytes ws
unfolding wait_for handle_write
wait_for_lem p bytes [] = refl
wait_for_lem p bytes (Written.woken ∷ ws) = refl
wait_for_lem p bytes (Written.completed true n ∷ ws) = wait_for_lem p bytes ws
wait_for_lem p bytes (Written.completed false n ∷ ws) = elim (Bool-cases (length bytes == n)) [
  | inl e ↦ rw e refl
  | inr e ↦ rw e (wait_for_lem p bytes ws)
]

-- `write` of some bytes returns true exactly when, before its limit, the condition variable wakes with
-- no notification, or a write completes that has not failed and has transferred as many bytes.
pub write_lem :
    (p : SerialPort) (bytes : Bytes) (ws : List Written)
    → is_empty bytes ≡ false
    → (write p bytes ws).0 ≡ any_ends_wait bytes ws
unfolding write
write_lem p bytes ws e =
    ap (λ (r : Bool × SerialPort). r.0) (if_false _ _ _ e) ∙ wait_for_lem p bytes ws
