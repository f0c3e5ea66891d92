-- ===== src/Arp/Usb.antt =====
-- httpd/arpproxy.cpp: `bulk_transfer` and the register commands over it. libusb and the device are
-- the record `Usb`: `bulk_out` and `bulk_in` are `libusb_bulk_transfer` at an endpoint, with the
-- code it returns, an int as its bit pattern, and what was received; `wait` is the time that passes
-- in `sleep_for`, in microseconds; `left` is what stands at an index of a buffer where nothing was
-- received.
use bnc.Prelude.{
  ℕ, zero, suc, ◌-◌, ◌^◌, Bool, true, false, Option, none, some, List, [], ◌∷◌, ◌++◌, ◌==◌,
  if◌then◌else◌, get_elem?, length,
}
use bnc.Prelude.Bytes.{Bytes}
use bnc.Arp.Words.{le32, of_bytes, merge}

pub record Usb : Type 1 where
  pub Bus : Type 0
  pub bulk_out : Bus → ℕ → Bytes → ℕ × Bus
  pub bulk_in : Bus → ℕ → ℕ → ℕ × Bytes × Bus
  pub wait : Bus → ℕ → Bus
  pub left : Bus → ℕ → ℕ

abbrev pub cmd_bulk_out : ℕ
cmd_bulk_out = 0x01

abbrev pub reg_bulk_out : ℕ
reg_bulk_out = 0x04

abbrev pub cmd_bulk_in : ℕ
cmd_bulk_in = 0x81

abbrev pub reg_bulk_in : ℕ
reg_bulk_in = 0x88

-- -1, for no open device.
abbrev pub no_device : ℕ
no_device = 2 ^ 32 - 1

-- `CmdRegVectorWrite`: the bytes sent, three words for each item.
unfoldable pub vector_bytes : List (ℕ × ℕ) → Bytes
vector_bytes [] = []
vector_bytes ((addr, word) ∷ items) =
    le32 0x0f000c15 ++ (le32 addr ++ (le32 word ++ vector_bytes items))

module _ (U : Usb) where
  open U use {Bus, bulk_out, bulk_in, wait, left}

  -- `usb_device_handle_`, which is null or not, and the device.
  pub record Link : Type 0 where
    pub is_open : Bool
    pub bus : Bus

  unfoldable pub transfer_out : Link → ℕ → Bytes → ℕ × Link
  transfer_out l ep sent =
      let (rcode, bus) = bulk_out l.bus ep sent in
      if l.is_open then (rcode, record l { bus = bus }) else (no_device, l)

  unfoldable pub transfer_in : Link → ℕ → ℕ → ℕ × Bytes × Link
  transfer_in l ep size =
      let (rcode, received, bus) = bulk_in l.bus ep size in
      if l.is_open then (rcode, received, record l { bus = bus }) else (no_device, [], l)

  unfoldable pub sleep_for : Link → ℕ → Link
  sleep_for l microseconds = record l { bus = wait l.bus microseconds }

  -- A byte of the buffer after a transfer.
  unfoldable pub byte_at : Link → Bytes → ℕ → ℕ
  byte_at l received i = elim (get_elem? received i) [ none ↦ left l.bus i | some c ↦ c ]

  -- The word that bytes 4 to 7 of the answer make, whatever the number of bytes received.
  unfoldable pub answer_of : Link → Bytes → ℕ
  unfolding byte_at
  answer_of l received =
      of_bytes (byte_at l received 4) (byte_at l received 5) (byte_at l received 6)
        (byte_at l received 7)

  -- `CmdRegRead`: the word, or `none` for false.
  unfoldable pub cmd_reg_read : Link → ℕ → Option ℕ × Link
  unfolding transfer_out transfer_in answer_of
  cmd_reg_read l addr =
      let (sent, l1) = transfer_out l reg_bulk_out (0x14 ∷ 0x08 ∷ 0 ∷ 0 ∷ le32 addr) in
      let (rcode, received, l2) = transfer_in l1 reg_bulk_in 8 in
      if sent == 0
      then if rcode == 0 then (some (answer_of l2 received), l2) else (none, l2)
      else (none, l1)

  unfoldable pub cmd_reg_write : Link → ℕ → ℕ → Bool × Link
  unfolding transfer_out transfer_in
  cmd_reg_write l addr word =
      let (sent, l1) =
        transfer_out l reg_bulk_out (0x15 ∷ 0x0c ∷ 0 ∷ 0x0f ∷ le32 addr ++ le32 word) in
      let (rcode, received, l2) = transfer_in l1 reg_bulk_in 8 in
      if sent == 0 then (rcode == 0, l2) else (false, l1)

  -- `CmdRegBitWrite`, which compares the Boolean result of the write with 0.
  unfoldable pub cmd_reg_bit_write : Link → ℕ → ℕ → ℕ → Bool × Link
  unfolding cmd_reg_read cmd_reg_write merge
  cmd_reg_bit_write l addr word mask =
      let (found, l1) = cmd_reg_read l addr in
      elim found [
        | none ↦ (false, l1)
        | some value ↦
            let (written, l2) = cmd_reg_write l1 addr (merge value word mask) in
            (if written then false else true, l2)
      ]

  -- The reads of `CmdRegVectorWriteHelper`, one for each item until one fails.
  unfoldable pub read_answers : Link → ℕ → Bool × Link
  unfolding transfer_in
  read_answers l zero = (true, l)
  read_answers l (suc n) =
      let (rcode, received, l1) = transfer_in l reg_bulk_in 8 in
      elim (rcode == 0) [ true ↦ read_answers l1 n | false ↦ (false, l1) ]

  unfoldable pub cmd_reg_vector_write : Link → List (ℕ × ℕ) → Bool × Link
  unfolding transfer_out vector_bytes read_answers
  cmd_reg_vector_write l items =
      let (sent, l1) = transfer_out l reg_bulk_out (vector_bytes items) in
      elim (sent == 0) [ true ↦ read_answers l1 (length items) | false ↦ (false, l1) ]
