-- ===== src/Arp/Worker.antt =====
-- httpd/arpproxy.cpp, `arpproxy::impl`: the handlers that start the device and read it, the timer, and
-- the run of the posted handlers. What usbmanager does with a device that comes or goes is an argument:
-- whether it was opened and claimed, and whether the handle is null after that.
pub mod Ends
pub mod Numbers
pub mod Synced
use bnc.Prelude.{
  ℕ, zero, suc, ◌+◌, ◌-◌, ◌*◌, ◌%◌, ◌^◌, Bool, true, false, ◌&&◌, Option, none, some, List, [], ◌∷◌,
  ◌++◌, ◌==◌, if◌then◌else◌,
}
use bnc.Prelude.Bytes.{Bytes, codes}
use bnc.Device.Floats.{Floats}
use bnc.Arp.Usb.{
  Usb, Link, transfer_out, transfer_in, sleep_for, cmd_reg_read, cmd_bulk_out, cmd_bulk_in,
}
use bnc.Arp.Vector.{Run}
use bnc.Arp.Digitizer.{handle_device_digitizer_initialize}
use bnc.Arp.Setpoints.{Headers, Setpoint, Entry, setpts_map, find_id}
use bnc.Arp.Proxy.{
  Job, Impl, post, notify, all_ones, handle_device_setvoltage, handle_device_setflag,
  handle_device_on, hv_register,
}

-- `CMD_REG_WRITE`, `CMD_SFR_WRITE`, `CMD_EP2468_INIT` and `CMD_MODIFIED_DATE`.
abbrev cmd_reg_write_code : ℕ
cmd_reg_write_code = 0x31

abbrev cmd_sfr_write_code : ℕ
cmd_sfr_write_code = 0x20

abbrev cmd_ep2468_init : ℕ
cmd_ep2468_init = 0x34

-- The two frames of `handle_device_fpga_reset`, and the two of `handle_device_initialize`.
abbrev fpga_reset_frame : Bytes
fpga_reset_frame =
    cmd_reg_write_code ∷ 0x01 ∷ 0xe6 ∷ 0x80 ∷ cmd_sfr_write_code ∷ 0xb3 ∷ 0x00 ∷ cmd_sfr_write_code
    ∷ 0xb5 ∷ 0x00 ∷ cmd_reg_write_code ∷ 0xc2 ∷ 0xe6 ∷ 0xf7 ∷ []

abbrev fpga_clear_frame : Bytes
fpga_clear_frame =
    cmd_reg_write_code ∷ 0xc2 ∷ 0xe6 ∷ 0xff ∷ cmd_reg_write_code ∷ 0x01 ∷ 0xe6 ∷ 0x03 ∷ []

abbrev pub ctrl_init_frame : Bytes
ctrl_init_frame =
    cmd_reg_write_code ∷ 0x01 ∷ 0xe6 ∷ 0x03 ∷ cmd_ep2468_init ∷ cmd_sfr_write_code ∷ 0xb1 ∷ 0x00
    ∷ cmd_sfr_write_code ∷ 0xb6 ∷ 0x00 ∷ []

abbrev pub ctrl_init2_frame : Bytes
ctrl_init2_frame = cmd_sfr_write_code ∷ 0xb1 ∷ 0x40 ∷ cmd_sfr_write_code ∷ 0xb6 ∷ 0x40 ∷ []

module _ (F : Floats) (D : Headers F) (U : Usb) where
  unfoldable pub handle_device_fpga_reset : Impl F D U → Impl F D U
  unfolding transfer_out sleep_for
  handle_device_fpga_reset p =
      let (rcode, l1) = transfer_out U p.link cmd_bulk_out fpga_reset_frame in
      let (rcode2, l2) = transfer_out U (sleep_for U l1 100_000) cmd_bulk_out fpga_clear_frame in
      record p { link = if rcode == 0 then l2 else l1 }

  unfoldable pub read_device_version : Impl F D U → Impl F D U
  unfolding transfer_out transfer_in
  read_device_version p =
      let (rcode, l1) = transfer_out U p.link cmd_bulk_out (0x40 ∷ []) in
      let (rcode2, received, l2) = transfer_in U l1 cmd_bulk_in 8 in
      if rcode == 0
      then record p { link = l2; ezusb_version = if rcode2 == 0 then received else p.ezusb_version }
      else record p { link = l1 }

  -- The timer is stopped, and set again only where both frames were sent.
  unfoldable pub handle_device_initialize : Impl F D U → Impl F D U
  unfolding transfer_out handle_device_fpga_reset
  handle_device_initialize p =
      let (rcode, l1) = transfer_out U p.link cmd_bulk_out ctrl_init_frame in
      let (rcode2, l2) = transfer_out U l1 cmd_bulk_out ctrl_init2_frame in
      let stopped = record p { timer = none; tick = 0 } in
      if rcode == 0
      then if rcode2 == 0
        then record (handle_device_fpga_reset (record stopped { link = l2 })) { timer = some 1200 }
        else record stopped { link = l2 }
      else record stopped { link = l1 }

  -- A register that is not read leaves the last word.
  unfoldable pub read_actual : ℕ → Impl F D U → Impl F D U
  unfolding cmd_reg_read
  read_actual addr p =
      let (found, l) = cmd_reg_read U p.link (hv_register addr) in
      record p {
        link = l;
        actuals = elim found [
          | none ↦ p.actuals
          | some word ↦ λ i. if i == addr then word else p.actuals i
        ];
      }

  unfoldable pub read_actuals_from : ℕ → ℕ → Impl F D U → Impl F D U
  unfolding read_actual
  read_actuals_from zero addr p = p
  read_actuals_from (suc n) addr p = read_actuals_from n (addr + 1) (read_actual addr p)

  unfoldable pub handle_device_read_actuals : Impl F D U → Impl F D U
  unfolding read_actuals_from
  handle_device_read_actuals p =
      let p1 = read_actuals_from 32 0 p in record p1 { reported = p1.reported ++ p1.tick ∷ [] }

  -- One second later, with no error; an error, as of a timer that was stopped, does nothing. A size_t
  -- counts the ticks.
  unfoldable pub on_timer : Bool → Impl F D U → Impl F D U
  unfolding read_device_version post
  on_timer error p =
      let ticked = record p { tick = (p.tick + 1) % 2 ^ 64 } in
      let first =
        post F D U (Job.digitizer_initialize)
          (post F D U (Job.device_on false) (read_device_version ticked)) in
      let p1 = if p.link.is_open then (if p.tick == 0 then first else ticked) else p in
      let p2 =
        if p.link.is_open && p1.service_count == 0
        then post F D U Job.read_actuals (record p1 { service_count = 1 })
        else p1 in
      if error then p else record p2 { timer = some 1000 }

  unfoldable pub on_device_attached : Bool → Bool → Bool → Impl F D U → Impl F D U
  unfolding post
  on_device_attached handle opened claimed p =
      let p1 = record p { link = record p.link { is_open = handle } } in
      if opened && claimed then post F D U Job.initialize p1 else p1

  unfoldable pub on_device_detached : Bool → Impl F D U → Impl F D U
  unfolding notify
  on_device_detached handle p =
      notify F D U (codes "{ \"notify\": [{ \"id\": \"status\", \"value\": \"offline\" } ]}")
        (record p { link = record p.link { is_open = handle } })

  -- `device_setvoltage` and `device_setflag`, and with them both forms of `arpproxy::set`. Nothing is
  -- posted where the table has no entry of the name.
  unfoldable pub post_voltage : Option (Entry F) → F.Double → Impl F D U → Impl F D U
  unfolding post
  post_voltage none v p = p
  post_voltage (some e) v p = post F D U (Job.setvoltage e.addr v) p

  unfoldable pub device_setvoltage : Bytes → F.Double → Impl F D U → Impl F D U
  unfolding find_id setpts_map post_voltage
  device_setvoltage id v p = post_voltage (find_id F id (setpts_map F D)) v p

  unfoldable pub post_flag : Option (Entry F) → Bool → Impl F D U → Impl F D U
  unfolding post
  post_flag none value p = p
  post_flag (some e) value p = post F D U (Job.setflag e.addr e.mask value) p

  unfoldable pub device_setflag : Bytes → Bool → Impl F D U → Impl F D U
  unfolding find_id setpts_map post_flag
  device_setflag id value p = post_flag (find_id F id (setpts_map F D)) value p

  -- A handler that the thread takes from the queue, where the callbacks that it calls are registered;
  -- bnc.Arp.Facade has the exception that it ends with where they are not. `none` is a run of the digitizer's table that has
  -- no end or no defined one.
  unfoldable pub after_digitizer : Run U → Impl F D U → Option (Impl F D U)
  after_digitizer (Run.returned r) p = some (record p { link = r.link })
  after_digitizer Run.run_undefined p = none
  after_digitizer Run.run_endless p = none

  unfoldable pub run_job : Job F → Impl F D U → Option (Impl F D U)
  unfolding handle_device_initialize handle_device_digitizer_initialize handle_device_on
      handle_device_read_actuals handle_device_setvoltage handle_device_setflag after_digitizer
  run_job Job.initialize p = some (handle_device_initialize p)
  run_job Job.digitizer_initialize p =
      after_digitizer (handle_device_digitizer_initialize U p.link) p
  run_job (Job.device_on on) p = some (handle_device_on F D U on p)
  run_job Job.read_actuals p =
      let p1 = handle_device_read_actuals p in
      some (record p1 { service_count = p1.service_count - 1 })
  run_job (Job.setvoltage addr v) p = some (handle_device_setvoltage F D U addr v p)
  run_job (Job.setflag addr mask value) p = some (handle_device_setflag F D U addr mask value p)

  -- The handlers that are posted, in their order; what they post comes after them.
  unfoldable pub run_jobs : List (Job F) → Impl F D U → Option (Impl F D U)
  unfolding run_job
  run_jobs [] p = some p
  run_jobs (j ∷ js) p = elim (run_job j p) [ none ↦ none | some p1 ↦ run_jobs js p1 ]
