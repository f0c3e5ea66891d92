-- ===== src/Arp/Events/Reads.antt =====
-- httpd/arpproxy.cpp, `service_count_`: one read of the actual values is posted at a time.
use bnc.Prelude.{
  ◌+◌, ◌%◌, ◌^◌, ◌-◌, ◌≤◌, ◌≡◌, refl, sym, ap, subst, Bool, true, false, ◌&&◌, Bool-cases, inl, inr,
  List, [], ◌∷◌, ◌==◌, if◌then◌else◌, if_true, if_false, arith, Option, none, some, some-injective,
}
use bnc.Device.Floats.{Floats}
use bnc.Arp.Usb.{Usb}
use bnc.Arp.Vector.{Run}
use bnc.Arp.Digitizer.{handle_device_digitizer_initialize}
use bnc.Arp.Setpoints.{Headers, Entry, setpts_map, find_id}
use bnc.Arp.Proxy.{Job, Impl, post, new_impl, notify}
use bnc.Arp.Worker.{
  run_job, after_digitizer, on_timer, on_device_attached, on_device_detached, device_setvoltage,
  device_setflag, post_voltage, post_flag, read_device_version, handle_device_read_actuals,
  after_digitizer,
}
use bnc.Arp.Worker.Ends.{run_job-some}
use bnc.Arp.Events.{Event, run_first, react}
use bnc.Arp.Events.Count.{
  is_read, reads, reads_last, Keeps, Keeps-refl, Keeps-trans, Keeps-if, post-Keeps,
  handle_device_setvoltage-Keeps, handle_device_setflag-Keeps, handle_device_on-Keeps,
  read_device_version-Keeps, handle_device_initialize-Keeps, handle_device_read_actuals-Keeps,
}

module _ (F : Floats) (D : Headers F) (U : Usb) where
  -- `service_count_` is the number of reads in the queue, at most one.
  pub record OneRead (p : Impl F D U) : Type 0 where
    pub counts : p.service_count ≡ reads F p.posted
    pub at_most_one : p.service_count ≤ 1

  OneRead-Keeps : (p q : Impl F D U) → OneRead p → Keeps F D U p q → OneRead q
  OneRead-Keeps p q o k =
      let same = k.counted in
      let queued = k.queued in
      let counts = o.counts in
      let one = o.at_most_one in record { counts = omega arith; at_most_one = omega arith }

  OneRead-if : (b : Bool) (p q : Impl F D U) → OneRead p → OneRead q → OneRead (if b then p else q)
  OneRead-if true p q o n = o
  OneRead-if false p q o n = n

  -- A read is posted only where none is counted.
  post_read-OneRead :
      (b : Bool) (p : Impl F D U)
      → OneRead p
      → OneRead (
          if b && p.service_count == 0
          then post F D U Job.read_actuals (record p { service_count = 1 })
          else p)
  unfolding post
  post_read-OneRead false p o = o
  post_read-OneRead true p o = elim (Bool-cases (p.service_count == 0)) [
    | inl e ↦
        let counts = o.counts in
        let last = reads_last F p.posted Job.read_actuals in
        let none_yet : p.service_count ≡ 0 = ground arith in
        subst OneRead (sym (if_true _ _ _ e))
          (record { counts = omega arith; at_most_one = omega arith })
    | inr e ↦ subst OneRead (sym (if_false _ _ _ e)) o
  ]

  on_timer-OneRead : (error : Bool) (p : Impl F D U) → OneRead p → OneRead (on_timer F D U error p)
  unfolding on_timer
  on_timer-OneRead error p o =
      let ticked = record p { tick = (p.tick + 1) % 2 ^ 64 } in
      let ticked_keeps : Keeps F D U p ticked = record { queued = refl; counted = refl } in
      let versioned = read_device_version F D U ticked in
      let off = post F D U (Job.device_on false) versioned in
      let first = post F D U Job.digitizer_initialize off in
      let first_keeps = Keeps-trans F D U p ticked first ticked_keeps (
        Keeps-trans F D U ticked versioned first (read_device_version-Keeps F D U ticked) (
          Keeps-trans F D U versioned off first
            (post-Keeps F D U (Job.device_on false) versioned refl)
            (post-Keeps F D U Job.digitizer_initialize off refl))) in
      let p1 = if p.link.is_open then (if p.tick == 0 then first else ticked) else p in
      let p1_keeps =
        Keeps-if F D U p.link.is_open p _ _
          (Keeps-if F D U (p.tick == 0) p _ _ first_keeps ticked_keeps) (Keeps-refl F D U p) in
      let o2 = post_read-OneRead p.link.is_open p1 (OneRead-Keeps p p1 o p1_keeps) in
      OneRead-if error p _ o (record { counts = o2.counts; at_most_one = o2.at_most_one })

  post_voltage-Keeps :
      (e : Option (Entry F)) (v : F.Double) (p : Impl F D U)
      → Keeps F D U p (post_voltage F D U e v p)
  unfolding post_voltage
  post_voltage-Keeps none v p = Keeps-refl F D U p
  post_voltage-Keeps (some e) v p = post-Keeps F D U (Job.setvoltage e.addr v) p refl

  post_flag-Keeps :
      (e : Option (Entry F)) (value : Bool) (p : Impl F D U)
      → Keeps F D U p (post_flag F D U e value p)
  unfolding post_flag
  post_flag-Keeps none value p = Keeps-refl F D U p
  post_flag-Keeps (some e) value p = post-Keeps F D U (Job.setflag e.addr e.mask value) p refl

  on_device_attached-Keeps :
      (handle opened claimed : Bool) (p : Impl F D U)
      → Keeps F D U p (on_device_attached F D U handle opened claimed p)
  unfolding on_device_attached
  on_device_attached-Keeps handle opened claimed p =
      let p1 = record p { link = record p.link { is_open = handle } } in
      let relinked : Keeps F D U p p1 = record { queued = refl; counted = refl } in
      Keeps-if F D U (opened && claimed) p _ _
        (Keeps-trans F D U p p1 _ relinked (post-Keeps F D U Job.initialize p1 refl)) relinked

  on_device_detached-Keeps :
      (handle : Bool) (p : Impl F D U) → Keeps F D U p (on_device_detached F D U handle p)
  unfolding on_device_detached notify
  on_device_detached-Keeps handle p = record { queued = refl; counted = refl }

  -- A handler that is no read is taken off the queue.
  taken-OneRead :
      (j : Job F) (js : List (Job F)) (p : Impl F D U)
      → OneRead p
      → p.posted ≡ j ∷ js
      → is_read F j ≡ 0
      → OneRead (record p { posted = js })
  taken-OneRead j js p o e z =
      let counts = o.counts in
      let queued = ap (reads F) e in record { counts = omega arith; at_most_one = o.at_most_one }

  done-OneRead : (p q r : Impl F D U) → OneRead p → Keeps F D U p q → some q ≡ some r → OneRead r
  done-OneRead p q r o k e = subst OneRead (some-injective e) (OneRead-Keeps p q o k)

  after_digitizer-Keeps :
      (d : Run U) (p q : Impl F D U) → after_digitizer F D U d p ≡ some q → Keeps F D U p q
  unfolding after_digitizer
  after_digitizer-Keeps (Run.returned d) p q e =
      subst (Keeps F D U p) (some-injective e) (record { queued = refl; counted = refl })
  after_digitizer-Keeps Run.run_undefined p q e = absurd (let stuck : none ≡ some q = e in cc)
  after_digitizer-Keeps Run.run_endless p q e = absurd (let stuck : none ≡ some q = e in cc)

  read_actuals-OneRead :
      (js : List (Job F)) (p : Impl F D U)
      → OneRead p
      → p.posted ≡ Job.read_actuals ∷ js
      → (let p1 = handle_device_read_actuals F D U (record p { posted = js }) in
          OneRead (record p1 { service_count = p1.service_count - 1 }))
  read_actuals-OneRead js p o e =
      let k = handle_device_read_actuals-Keeps F D U (record p { posted = js }) in
      let kept = k.queued in
      let counted = k.counted in
      let counts = o.counts in
      let one = o.at_most_one in
      let queued = ap (reads F) e in record { counts = omega arith; at_most_one = omega arith }

  -- The state that a handler, taken off the queue, leaves.
  run_job-OneRead :
      (j : Job F) (js : List (Job F)) (p q : Impl F D U)
      → OneRead p
      → p.posted ≡ j ∷ js
      → run_job F D U j (record p { posted = js }) ≡ some q
      → OneRead q
  unfolding run_job
  run_job-OneRead Job.initialize js p q o e r =
      done-OneRead _ _ q (taken-OneRead Job.initialize js p o e refl)
        (handle_device_initialize-Keeps F D U (record p { posted = js })) r
  run_job-OneRead Job.digitizer_initialize js p q o e r =
      OneRead-Keeps (record p { posted = js }) q
        (taken-OneRead Job.digitizer_initialize js p o e refl)
        (after_digitizer-Keeps (handle_device_digitizer_initialize U p.link)
          (record p { posted = js }) q r)
  run_job-OneRead (Job.device_on on) js p q o e r =
      done-OneRead _ _ q (taken-OneRead (Job.device_on on) js p o e refl)
        (handle_device_on-Keeps F D U on (record p { posted = js })) r
  run_job-OneRead Job.read_actuals js p q o e r =
      subst OneRead (some-injective r) (read_actuals-OneRead js p o e)
  run_job-OneRead (Job.setvoltage addr v) js p q o e r =
      done-OneRead _ _ q (taken-OneRead (Job.setvoltage addr v) js p o e refl)
        (handle_device_setvoltage-Keeps F D U addr v (record p { posted = js })) r
  run_job-OneRead (Job.setflag addr mask value) js p q o e r =
      done-OneRead _ _ q (taken-OneRead (Job.setflag addr mask value) js p o e refl)
        (handle_device_setflag-Keeps F D U addr mask value (record p { posted = js })) r

  -- The handler that is taken runs to its end.
  run_first-OneRead :
      (js : List (Job F)) (p : Impl F D U)
      → OneRead p
      → p.posted ≡ js
      → (q : Impl F D U) × (run_first F D U js p ≡ some q) × OneRead q
  unfolding run_first
  run_first-OneRead [] p o e = (p, refl, o)
  run_first-OneRead (j ∷ js) p o e =
      let (q, r) = run_job-some F D U j (record p { posted = js }) in
      (q, r, run_job-OneRead j js p q o e r)

  pub react-OneRead :
      (e : Event F) (p : Impl F D U)
      → OneRead p
      → (q : Impl F D U) × (react F D U e p ≡ some q) × OneRead q
  unfolding react device_setvoltage device_setflag
  react-OneRead (Event.timer error) p o = (_, refl, on_timer-OneRead error p o)
  react-OneRead (Event.attached handle opened claimed) p o =
      (_, refl, OneRead-Keeps p _ o (on_device_attached-Keeps handle opened claimed p))
  react-OneRead (Event.detached handle) p o =
      (_, refl, OneRead-Keeps p _ o (on_device_detached-Keeps handle p))
  react-OneRead (Event.set_value id v) p o =
      (_, refl, OneRead-Keeps p _ o (post_voltage-Keeps (find_id F id (setpts_map F D)) v p))
  react-OneRead (Event.set_flag id value) p o =
      (_, refl, OneRead-Keeps p _ o (post_flag-Keeps (find_id F id (setpts_map F D)) value p))
  react-OneRead Event.take_job p o = run_first-OneRead p.posted p o refl

  pub new_impl-OneRead : (b : U.Bus) → OneRead (new_impl F D U b)
  unfolding new_impl
  new_impl-OneRead b = record { counts = refl; at_most_one = omega arith }
