-- ===== src/Arp/Proxy.antt =====
-- httpd/arpproxy.cpp, `arpproxy::impl`: its state, and the handlers that its one thread runs. A
-- handler is given by `io_service_.post` to the queue `posted`. What `notification_handler_` is called
-- with is kept in `notices`, and what `actuals_handler_` is called with in `reported`, the latest last;
-- bnc.Arp.Facade has what comes of a call where they are not registered. The arrays of 32 elements are
-- functions of an address, and every address here is one of the headers. What is logged is left out.
pub mod Sync
pub mod Synced
pub mod Switched
pub mod Flags
pub mod Quiet
use Prim.Native.Nat.{bit_and, bit_or}
use bnc.Prelude.{
  ℕ, zero, suc, ◌+◌, ◌-◌, ◌*◌, ◌%◌, ◌^◌, Bool, true, false, ◌&&◌, Option, none, some, List, [], ◌∷◌,
  ◌++◌, ◌==◌, if◌then◌else◌, is_empty,
}
use bnc.Prelude.Bytes.{Bytes, codes}
use bnc.Device.Floats.{Floats}
use bnc.Arp.Words.{complement}
use bnc.Arp.Usb.{
  Usb, Link, transfer_out, transfer_in, sleep_for, cmd_reg_read, cmd_reg_write, cmd_bulk_out,
  cmd_bulk_in,
}
use bnc.Arp.Setpoints.{Headers, Setpoint, Entry, setpts_map, find_addr, find_id}
use bnc.Arp.Status.{make_actual_status}

-- `ARP_OFFSET_HV + addr * 4`, of uint32_t.
abbrev pub hv_register : ℕ → ℕ
hv_register addr = (0x4800 + addr * 4) % 2 ^ 32

abbrev pub all_ones : ℕ
all_ones = 2 ^ 32 - 1

-- The bits that are set, and the vent valve's bit that is cleared, in the pumps' and valves' word.
unfoldable pub pumps_on : ℕ → ℕ
unfolding complement
pumps_on v =
    bit_and (bit_or v (bit_or (bit_or (bit_or 0x8000 0x4000) 0x80) 0x1f)) (complement 0x2000)

-- `v & ~mask | f`, where `f` is the mask or 0.
unfoldable pub flagged : ℕ → ℕ → Bool → ℕ
unfolding complement
flagged v mask value = bit_or (bit_and v (complement mask)) (if value then mask else 0)

module _ (F : Floats) where
  pub data Job : Type 0 where
    initialize : Job
    digitizer_initialize : Job
    device_on : Bool → Job
    read_actuals : Job
    setvoltage : ℕ → F.Double → Job
    setflag : ℕ → ℕ → Bool → Job

module _ (F : Floats) (D : Headers F) (U : Usb) where
  -- `timer` is the time in milliseconds that `timer_` is set to, where it is waited for.
  pub record Impl : Type 0 where
    pub link : Link U
    pub setpts : ℕ → Setpoint F
    pub actuals : ℕ → ℕ
    pub tick : ℕ
    pub service_count : ℕ
    pub ezusb_version : Bytes
    pub timer : Option ℕ
    pub posted : List (Job F)
    pub notices : List Bytes
    pub reported : List ℕ

  -- The constructor: no device is open, and the timer has been started.
  unfoldable pub new_impl : U.Bus → Impl
  new_impl b = record {
    link = record { is_open = false; bus = b };
    setpts = λ i. record { first = F.of_int 0; second = 0 };
    actuals = λ i. all_ones;
    tick = 1000;
    service_count = 0;
    ezusb_version = [];
    timer = some 1000;
    posted = [];
    notices = [];
    reported = [];
  }

  unfoldable pub post : Job F → Impl → Impl
  post j p = record p { posted = p.posted ++ j ∷ [] }

  unfoldable pub notify : Bytes → Impl → Impl
  notify text p = record p { notices = p.notices ++ text ∷ [] }

  -- The part of a set point that the device has.
  abbrev pub second_of : Impl → ℕ → ℕ
  second_of p addr = (p.setpts addr).second

  unfoldable pub put_setpt : ℕ → Setpoint F → Impl → Impl
  put_setpt addr s p = record p { setpts = λ i. if i == addr then s else p.setpts i }

  unfoldable pub put_second : ℕ → ℕ → Impl → Impl
  unfolding put_setpt
  put_second addr v p = put_setpt addr (record { first = (p.setpts addr).first; second = v }) p

  -- `CmdRegWrite` of a set point to its register.
  unfoldable pub write_setpt : ℕ → Impl → Impl
  unfolding cmd_reg_write
  write_setpt addr p = record p {
    link = (cmd_reg_write U p.link (hv_register addr) (second_of p addr)).1;
  }

  unfoldable pub setpt_json : Bytes → F.Double → Bytes
  setpt_json id v =
      codes "{ \"setpts\": [ { \"id\": \""
      ++ (id ++ (codes "\", \"value\": \"" ++ (D.print_2 v ++ codes "\" } ] }")))

  -- The two branches of `handle_device_setvoltage`; `none` is `end()`.
  unfoldable pub setvoltage_of : Option (Entry F) → ℕ → F.Double → Impl → Impl
  unfolding put_setpt write_setpt notify setpt_json
  setvoltage_of none addr v p = p
  setvoltage_of (some e) addr v p =
      notify (setpt_json e.id v)
        (write_setpt addr (put_setpt addr (record { first = v; second = e.device_value v }) p))

  unfoldable pub handle_device_setvoltage : ℕ → F.Double → Impl → Impl
  unfolding find_addr setpts_map setvoltage_of
  handle_device_setvoltage addr v p = setvoltage_of (find_addr F addr (setpts_map F D)) addr v p

  -- "on" or "off" of each switch at the address with the mask.
  unfoldable pub checkbox_items : ℕ → ℕ → Setpoint F → List (Entry F) → Bytes → Bytes
  checkbox_items addr mask s [] out = out
  checkbox_items addr mask s (e ∷ es) out =
      let item =
        codes "{ \"id\": \""
        ++ (e.id ++ (codes "\", \"value\": \"" ++ (e.to_string s ++ codes "\" }"))) in
      let more = if is_empty out then item else out ++ (codes ", " ++ item) in
      checkbox_items addr mask s es (if e.addr == addr && e.mask == mask then more else out)

  -- What is sent where a flag has changed: the switches, if there are any, and the status.
  unfoldable pub announce : ℕ → ℕ → Impl → Impl
  unfolding notify checkbox_items setpts_map make_actual_status
  announce addr mask p =
      let items = checkbox_items addr mask (p.setpts addr) (setpts_map F D) [] in
      let p1 =
        if is_empty items
        then p
        else notify (codes "{ \"checkbox\": [ " ++ (items ++ codes " ]}")) p in
      notify
        (codes "{ \"notify\": [{ \"id\": \"status\", \"value\": \""
          ++ (make_actual_status F D p1.actuals ++ codes "\" } ]}"))
        p1

  -- The modules all on or all off, in two words.
  unfoldable pub switch_modules : Bool → Impl → Impl
  unfolding put_second write_setpt complement
  switch_modules value p =
      let p1 = put_second D.setpt_aux1 (if value then 0x1fff else 0x0001) p in
      let aux2 = second_of p1 D.setpt_aux2 in
      let p2 =
        put_second D.setpt_aux2
          (if value then bit_or aux2 0x001e else bit_and aux2 (complement 0x001e)) p1 in
      write_setpt D.setpt_aux2 (write_setpt D.setpt_aux1 p2)

  unfoldable pub put_flag : ℕ → ℕ → Bool → Impl → Impl
  unfolding put_second write_setpt flagged
  put_flag addr mask value p =
      write_setpt addr (put_second addr (flagged (second_of p addr) mask value) p)

  -- The first part of `handle_device_setflag`.
  unfoldable pub change_flag : ℕ → ℕ → Bool → Impl → Impl
  unfolding switch_modules put_flag put_second pumps_on
  change_flag addr mask value p =
      if addr == D.setpt_aux1
      then if mask == all_ones then switch_modules value p else put_flag addr mask value p
      else if addr == D.setpt_aux2
      then put_flag addr mask value p
      else if addr == D.setpt_pump_valve_ctrl
      then put_flag addr mask value (put_second addr (pumps_on (second_of p addr)) p)
      else p

  unfoldable pub handle_device_setflag : ℕ → ℕ → Bool → Impl → Impl
  unfolding change_flag announce
  handle_device_setflag addr mask value p =
      let p1 = change_flag addr mask value p in
      if second_of p addr == second_of p1 addr then p1 else announce addr mask p1

  unfoldable pub handle_device_on : Bool → Impl → Impl
  unfolding put_second write_setpt handle_device_setflag pumps_on
  handle_device_on on p =
      let addr = D.setpt_pump_valve_ctrl in
      handle_device_setflag D.setpt_aux1 all_ones on
        (write_setpt addr (put_second addr (pumps_on (second_of p addr)) p))
