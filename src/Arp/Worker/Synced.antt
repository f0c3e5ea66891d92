-- ===== src/Arp/Worker/Synced.antt =====
-- httpd/arpproxy.cpp: the set points and the registers of a device with no fault, over the run of the
-- posted handlers.
use bnc.Prelude.{
  subst, ℕ, zero, suc, ◌+◌, ◌^◌, ◌<◌, ◌≡◌, refl, sym, ap, ◌∙◌, Bool, true, inl, inr, [],
  Option-cases, arith, Option, none, some, List, ◌∷◌, All,
}
use bnc.Device.Floats.{Floats}
use bnc.Arp.Usb.{Usb, Link, cmd_reg_read}
use bnc.Arp.Board.{Board, Registers}
use bnc.Arp.Board.Commands.{linked, cmd_reg_read-Leaves}
use bnc.Arp.Vector.{Run}
use bnc.Arp.Vector.Refines.{vector_interpreter-reference}
use bnc.Arp.Digitizer.{digitizer_items, handle_device_digitizer_initialize}
use bnc.Arp.Digitizer.Runs.{digitizer_items-FitsItem}
use bnc.Prelude.{some-injective}
use bnc.Arp.Setpoints.{Headers, Setpoint}
use bnc.Arp.Proxy.{Impl, Job, hv_register}
use bnc.Arp.Proxy.Sync.{Good, Agrees, linked_eta}
use bnc.Arp.Proxy.Switched.{handle_device_on-Agrees}
use bnc.Arp.Proxy.Synced.{
  Moves, Moves-refl, Moves-trans, HeadersFit, handle_device_on-Moves, handle_device_setflag-Moves,
  handle_device_setvoltage-Moves,
}
use bnc.Arp.Worker.{
  read_actual, read_actuals_from, handle_device_read_actuals, after_digitizer, run_job, run_jobs,
}
use bnc.Arp.Digitizer.Outside.{reference-keeps, digitizer_items-Outside, Outside-other}

module _ (F : Floats) (D : Headers F) (U : Usb) (B : Board U) where
  open B use {regs, waiting}

  -- A state with another link to a device that is as idle and has the same registers.
  relinked-Moves :
      (p q : Impl F D U) (l : Link U) (c : U.Bus)
      → Good F D U B p
      → q.link ≡ l
      → q.setpts ≡ p.setpts
      → l ≡ linked U c
      → waiting c ≡ []
      → ((a : ℕ) → a < 32 → regs c (hv_register a) ≡ regs p.link.bus (hv_register a))
      → Moves F D U B p q
  relinked-Moves p q l c g e s h idle same =
      let now = e ∙ h in
      record {
        good = record {
          is_open = ap (λ (x : Link U). x.is_open) now;
          idle = ap (λ (x : Link U). waiting x.bus) now ∙ idle;
          words = λ a. subst (λ (f : ℕ → Setpoint F). (f a).second < 2 ^ 32) (sym s) (g.words a);
        };
        kept = λ a small agree.
            ap (λ (x : Link U). regs x.bus (hv_register a)) now
            ∙ same a small
            ∙ agree
            ∙ ap (λ (f : ℕ → Setpoint F). (f a).second) (sym s);
      }

  read_actual-Moves :
      (addr : ℕ) (p : Impl F D U) → Good F D U B p → Moves F D U B p (read_actual F D U addr p)
  unfolding read_actual
  read_actual-Moves addr p g =
      let (c, e, idle, same) =
        cmd_reg_read-Leaves U B p.link.bus (hv_register addr) g.idle (omega arith) in
      let eta = linked_eta F D U B p.link g.is_open in
      let after =
        ap (λ (l : Link U). (cmd_reg_read U l (hv_register addr)).1) eta
        ∙ ap (λ (r : Option ℕ × Link U). r.1) e in
      relinked-Moves p (read_actual F D U addr p) _ c g refl refl after idle
        (λ a small. ap (λ (f : Registers). f (hv_register a)) same)

  read_actuals_from-Moves :
      (n addr : ℕ) (p : Impl F D U)
      → Good F D U B p
      → Moves F D U B p (read_actuals_from F D U n addr p)
  unfolding read_actuals_from
  read_actuals_from-Moves zero addr p g = Moves-refl F D U B p g
  read_actuals_from-Moves (suc n) addr p g =
      let m = read_actual-Moves addr p g in
      Moves-trans F D U B p _ _ m (read_actuals_from-Moves n (addr + 1) _ m.good)

  digitizer-Moves :
      (p q : Impl F D U)
      → Good F D U B p
      → after_digitizer F D U (handle_device_digitizer_initialize U p.link) p ≡ some q
      → Moves F D U B p q
  unfolding handle_device_digitizer_initialize after_digitizer
  digitizer-Moves p q g h =
      let (c, e, idle, same) =
        vector_interpreter-reference U B digitizer_items p.link.bus g.idle
          digitizer_items-FitsItem in
      let run =
        ap (λ (l : Link U). after_digitizer F D U (handle_device_digitizer_initialize U l) p)
          (linked_eta F D U B p.link g.is_open)
        ∙ ap (λ (r : Run U). after_digitizer F D U r p) e in
      let now : q ≡ record p { link = linked U c } = some-injective (sym h ∙ run) in
      relinked-Moves p q _ c g (ap (λ (x : Impl F D U). x.link) now)
        (ap (λ (x : Impl F D U). x.setpts) now) refl idle
        (λ a small.
          ap (λ (f : Registers). f (hv_register a)) same
          ∙ reference-keeps (hv_register a) true digitizer_items _
              (Outside-other a digitizer_items small digitizer_items-Outside))

  -- A handler other than the one that starts the device anew, at an address of the arrays.
  abbrev pub JobFits : Job F → Type 0
  JobFits Job.initialize = ⊥
  JobFits Job.digitizer_initialize = Unit
  JobFits (Job.device_on on) = Unit
  JobFits Job.read_actuals = Unit
  JobFits (Job.setvoltage addr v) = addr < 32
  JobFits (Job.setflag addr mask value) = (addr < 32) × (mask < 2 ^ 32)

  run_job-Moves :
      (j : Job F) (p q : Impl F D U)
      → HeadersFit F D
      → Good F D U B p
      → JobFits j
      → run_job F D U j p ≡ some q
      → Moves F D U B p q
  unfolding run_job handle_device_read_actuals
  run_job-Moves Job.initialize p q fit g h e = elim h [ ]
  run_job-Moves Job.digitizer_initialize p q fit g h e = digitizer-Moves p q g e
  run_job-Moves (Job.device_on on) p q fit g h e =
      subst (Moves F D U B p) (some-injective e) (handle_device_on-Moves F D U B on p fit g)
  run_job-Moves Job.read_actuals p q fit g h e =
      let m = read_actuals_from-Moves 32 0 p g in
      let r =
        relinked-Moves _ q _ _ m.good (ap (λ (x : Impl F D U). x.link) (sym (some-injective e)))
          (ap (λ (x : Impl F D U). x.setpts) (sym (some-injective e)))
          (linked_eta F D U B _ m.good.is_open) m.good.idle (λ a small. refl) in
      Moves-trans F D U B p _ q m r
  run_job-Moves (Job.setvoltage addr v) p q fit g h e =
      subst (Moves F D U B p) (some-injective e)
        (handle_device_setvoltage-Moves F D U B addr v p fit h g)
  run_job-Moves (Job.setflag addr mask value) p q fit g (small, w) e =
      subst (Moves F D U B p) (some-injective e)
        (handle_device_setflag-Moves F D U B addr mask value p fit small w g)

  pub run_jobs-Moves :
      (js : List (Job F)) (p q : Impl F D U)
      → HeadersFit F D
      → Good F D U B p
      → All JobFits js
      → run_jobs F D U js p ≡ some q
      → Moves F D U B p q
  unfolding run_jobs
  run_jobs-Moves [] p q fit g h e =
      subst (Moves F D U B p) (some-injective e) (Moves-refl F D U B p g)
  run_jobs-Moves (j ∷ js) p q fit g (h, hs) e = elim (Option-cases (run_job F D U j p)) [
    | inl n ↦ absurd (let stuck : none ≡ some q = rw (n, run_jobs) at e in cc)
    | inr (p1, r) ↦
        let m = run_job-Moves j p p1 fit g h r in
        Moves-trans F D U B p p1 q m (run_jobs-Moves js p1 q fit m.good hs (rw (r, run_jobs) at e))
  ]

  -- On a device with no fault: once the modules have been switched by `handle_device_on`, the words of
  -- the modules and of the pumps and valves that the device's registers have are those of the set
  -- points, whatever handlers run after it, but for the one that starts the device anew.
  pub run_jobs-Agrees :
      (on : Bool) (js : List (Job F)) (p q : Impl F D U)
      → HeadersFit F D
      → Good F D U B p
      → All JobFits js
      → run_jobs F D U (Job.device_on on ∷ js) p ≡ some q
      → Agrees F D U B q D.setpt_aux1
        × Agrees F D U B q D.setpt_aux2
        × Agrees F D U B q D.setpt_pump_valve_ctrl
  unfolding run_jobs run_job
  run_jobs-Agrees on js p q fit g h e =
      let (aux1, aux2, pump) = handle_device_on-Agrees F D U B on p fit g in
      let first = handle_device_on-Moves F D U B on p fit g in
      let m = run_jobs-Moves js _ q fit first.good h e in
      (
        m.kept D.setpt_aux1 fit.aux1_lt aux1,
        m.kept D.setpt_aux2 fit.aux2_lt aux2,
        m.kept D.setpt_pump_valve_ctrl fit.pump_lt pump,
      )
