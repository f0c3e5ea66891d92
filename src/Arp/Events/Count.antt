-- ===== src/Arp/Events/Count.antt =====
-- httpd/arpproxy.cpp: the reads of the actual values that are in the queue, over each handler.
use bnc.Prelude.{
  ℕ, zero, suc, ◌+◌, ◌≡◌, refl, sym, ◌∙◌, Bool, true, false, Bool-cases, inl, inr, List, [], ◌∷◌,
  ◌++◌, ◌==◌, if◌then◌else◌, if_true, if_false, subst, is_empty, arith, Option, none, some,
}
use bnc.Prelude.Bytes.{Bytes, codes}
use bnc.Device.Floats.{Floats}
use bnc.Arp.Usb.{Usb, transfer_out, cmd_bulk_out}
use bnc.Arp.Setpoints.{Headers, Entry, setpts_map, find_addr}
use bnc.Arp.Proxy.{
  Job, Impl, post, notify, put_setpt, put_second, write_setpt, setvoltage_of,
  handle_device_setvoltage, announce, switch_modules, put_flag, change_flag, handle_device_setflag,
  handle_device_on, second_of, all_ones, pumps_on, checkbox_items,
}
use bnc.Arp.Worker.{
  handle_device_fpga_reset, read_device_version, handle_device_initialize, read_actual,
  read_actuals_from, handle_device_read_actuals, ctrl_init_frame, ctrl_init2_frame,
}

module _ (F : Floats) where
  abbrev pub is_read : Job F → ℕ
  is_read Job.read_actuals = 1
  is_read Job.initialize = 0
  is_read Job.digitizer_initialize = 0
  is_read (Job.device_on on) = 0
  is_read (Job.setvoltage addr v) = 0
  is_read (Job.setflag addr mask value) = 0

  abbrev pub reads : List (Job F) → ℕ
  reads [] = 0
  reads (j ∷ js) = is_read j + reads js

  pub reads_last : (js : List (Job F)) (j : Job F) → reads (js ++ j ∷ []) ≡ reads js + is_read j
  reads_last [] j = omega arith
  reads_last (i ∷ js) j = rw (reads_last js j) (omega arith)

module _ (F : Floats) (D : Headers F) (U : Usb) where
  -- As many reads are in the queue, and are counted.
  pub record Keeps (p q : Impl F D U) : Type 0 where
    pub queued : reads F q.posted ≡ reads F p.posted
    pub counted : q.service_count ≡ p.service_count

  pub Keeps-refl : (p : Impl F D U) → Keeps p p
  Keeps-refl p = record { queued = refl; counted = refl }

  pub Keeps-trans : (p q r : Impl F D U) → Keeps p q → Keeps q r → Keeps p r
  Keeps-trans p q r k l = record { queued = l.queued ∙ k.queued; counted = l.counted ∙ k.counted }

  pub Keeps-if :
      (b : Bool) (p q r : Impl F D U) → Keeps p q → Keeps p r → Keeps p (if b then q else r)
  Keeps-if true p q r k l = k
  Keeps-if false p q r k l = l

  -- A handler that is posted and is no read.
  pub post-Keeps : (j : Job F) (p : Impl F D U) → is_read F j ≡ 0 → Keeps p (post F D U j p)
  unfolding post
  post-Keeps j p e = record {
    queued = reads_last F p.posted j ∙ rw e (omega arith);
    counted = refl;
  }

  setvoltage_of-Keeps :
      (o : Option (Entry F)) (addr : ℕ) (v : F.Double) (p : Impl F D U)
      → Keeps p (setvoltage_of F D U o addr v p)
  unfolding setvoltage_of write_setpt put_setpt notify
  setvoltage_of-Keeps none addr v p = Keeps-refl p
  setvoltage_of-Keeps (some e) addr v p = record { queued = refl; counted = refl }

  pub handle_device_setvoltage-Keeps :
      (addr : ℕ) (v : F.Double) (p : Impl F D U) → Keeps p (handle_device_setvoltage F D U addr v p)
  unfolding handle_device_setvoltage
  handle_device_setvoltage-Keeps addr v p =
      setvoltage_of-Keeps (find_addr F addr (setpts_map F D)) addr v p

  switch_modules-Keeps : (value : Bool) (p : Impl F D U) → Keeps p (switch_modules F D U value p)
  unfolding switch_modules put_second put_setpt write_setpt
  switch_modules-Keeps value p = record { queued = refl; counted = refl }

  put_flag-Keeps :
      (addr mask : ℕ) (value : Bool) (p : Impl F D U) → Keeps p (put_flag F D U addr mask value p)
  unfolding put_flag put_second put_setpt write_setpt
  put_flag-Keeps addr mask value p = record { queued = refl; counted = refl }

  put_second-Keeps : (addr v : ℕ) (p : Impl F D U) → Keeps p (put_second F D U addr v p)
  unfolding put_second put_setpt
  put_second-Keeps addr v p = record { queued = refl; counted = refl }

  notify-Keeps : (text : Bytes) (p : Impl F D U) → Keeps p (notify F D U text p)
  unfolding notify
  notify-Keeps text p = record { queued = refl; counted = refl }

  change_flag-Keeps :
      (addr mask : ℕ) (value : Bool) (p : Impl F D U)
      → Keeps p (change_flag F D U addr mask value p)
  unfolding change_flag
  change_flag-Keeps addr mask value p =
      let pumps = put_second F D U addr (pumps_on (second_of F D U p addr)) p in
      let flag = put_flag-Keeps addr mask value p in
      Keeps-if (addr == D.setpt_aux1) p _ _
        (Keeps-if (mask == all_ones) p _ _ (switch_modules-Keeps value p) flag)
        (Keeps-if (addr == D.setpt_aux2) p _ _ flag (
          Keeps-if (addr == D.setpt_pump_valve_ctrl) p _ _
            (Keeps-trans p pumps _ (put_second-Keeps addr _ p)
              (put_flag-Keeps addr mask value pumps))
            (Keeps-refl p)))

  announce-Keeps : (addr mask : ℕ) (p : Impl F D U) → Keeps p (announce F D U addr mask p)
  unfolding announce
  announce-Keeps addr mask p =
      let items = checkbox_items F D U addr mask (p.setpts addr) (setpts_map F D) [] in
      let boxes = notify F D U (codes "{ \"checkbox\": [ " ++ (items ++ codes " ]}")) p in
      let p1 = if is_empty items then p else boxes in
      Keeps-trans p p1 _ (Keeps-if (is_empty items) p _ _ (Keeps-refl p) (notify-Keeps _ p))
        (notify-Keeps _ p1)

  pub handle_device_setflag-Keeps :
      (addr mask : ℕ) (value : Bool) (p : Impl F D U)
      → Keeps p (handle_device_setflag F D U addr mask value p)
  unfolding handle_device_setflag
  handle_device_setflag-Keeps addr mask value p =
      let p1 = change_flag F D U addr mask value p in
      let k = change_flag-Keeps addr mask value p in
      Keeps-if (second_of F D U p addr == second_of F D U p1 addr) p _ _ k
        (Keeps-trans p p1 _ k (announce-Keeps addr mask p1))

  write_setpt-Keeps : (addr : ℕ) (p : Impl F D U) → Keeps p (write_setpt F D U addr p)
  unfolding write_setpt
  write_setpt-Keeps addr p = record { queued = refl; counted = refl }

  pub handle_device_on-Keeps : (on : Bool) (p : Impl F D U) → Keeps p (handle_device_on F D U on p)
  unfolding handle_device_on
  handle_device_on-Keeps on p =
      let addr = D.setpt_pump_valve_ctrl in
      let p1 = put_second F D U addr (pumps_on (second_of F D U p addr)) p in
      let p2 = write_setpt F D U addr p1 in
      Keeps-trans p p2 _
        (Keeps-trans p p1 p2 (put_second-Keeps addr _ p) (write_setpt-Keeps addr p1))
        (handle_device_setflag-Keeps D.setpt_aux1 all_ones on p2)

  -- Over an equation of the later state.
  Keeps-same : (p q r : Impl F D U) → r ≡ q → Keeps p q → Keeps p r
  Keeps-same p q r e k = subst (Keeps p) (sym e) k

  pub read_device_version-Keeps : (p : Impl F D U) → Keeps p (read_device_version F D U p)
  unfolding read_device_version
  read_device_version-Keeps p =
      let (rcode, l1) = transfer_out U p.link cmd_bulk_out (0x40 ∷ []) in
      elim (Bool-cases (rcode == 0)) [
        | inl e ↦ Keeps-same p _ _ (if_true _ _ _ e) (record { queued = refl; counted = refl })
        | inr e ↦ Keeps-same p _ _ (if_false _ _ _ e) (record { queued = refl; counted = refl })
      ]

  pub handle_device_initialize-Keeps : (p : Impl F D U) → Keeps p (handle_device_initialize F D U p)
  unfolding handle_device_initialize handle_device_fpga_reset
  handle_device_initialize-Keeps p =
      let (rcode, l1) = transfer_out U p.link cmd_bulk_out ctrl_init_frame in
      let (rcode2, l2) = transfer_out U l1 cmd_bulk_out ctrl_init2_frame in
      elim (Bool-cases (rcode == 0)) [
        | inl e ↦ elim (Bool-cases (rcode2 == 0)) [
          | inl f ↦
              Keeps-same p _ _ (if_true _ _ _ e ∙ if_true _ _ _ f)
                (record { queued = refl; counted = refl })
          | inr f ↦
              Keeps-same p _ _ (if_true _ _ _ e ∙ if_false _ _ _ f)
                (record { queued = refl; counted = refl })
        ]
        | inr e ↦ Keeps-same p _ _ (if_false _ _ _ e) (record { queued = refl; counted = refl })
      ]

  read_actuals_from-Keeps :
      (n addr : ℕ) (p : Impl F D U) → Keeps p (read_actuals_from F D U n addr p)
  unfolding read_actuals_from read_actual
  read_actuals_from-Keeps zero addr p = Keeps-refl p
  read_actuals_from-Keeps (suc n) addr p =
      let k = read_actuals_from-Keeps n (addr + 1) (read_actual F D U addr p) in
      record { queued = k.queued; counted = k.counted }

  pub handle_device_read_actuals-Keeps :
      (p : Impl F D U) → Keeps p (handle_device_read_actuals F D U p)
  unfolding handle_device_read_actuals
  handle_device_read_actuals-Keeps p =
      let k = read_actuals_from-Keeps 32 0 p in record { queued = k.queued; counted = k.counted }
