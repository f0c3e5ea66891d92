-- ===== src/Arp/Worker/Ends.antt =====
-- httpd/arpproxy.cpp: the thread's run of the posted handlers comes to an end.
use bnc.Prelude.{◌≡◌, refl, some, List, [], ◌∷◌}
use bnc.Device.Floats.{Floats}
use bnc.Arp.Usb.{Usb}
use bnc.Arp.Digitizer.Runs.{handle_device_digitizer_initialize-returned}
use bnc.Arp.Setpoints.{Headers}
use bnc.Arp.Proxy.{Job, Impl}
use bnc.Arp.Worker.{run_job, run_jobs, after_digitizer}

module _ (F : Floats) (D : Headers F) (U : Usb) where
  pub run_job-some : (j : Job F) (p : Impl F D U) → (q : Impl F D U) × (run_job F D U j p ≡ some q)
  unfolding run_job after_digitizer
  run_job-some Job.initialize p = (_, refl)
  run_job-some Job.digitizer_initialize p =
      let (r, e) = handle_device_digitizer_initialize-returned U p.link in
      (record p { link = r.link }, rw (e, run_job, after_digitizer) refl)
  run_job-some (Job.device_on on) p = (_, refl)
  run_job-some Job.read_actuals p = (_, refl)
  run_job-some (Job.setvoltage addr v) p = (_, refl)
  run_job-some (Job.setflag addr mask value) p = (_, refl)

  -- Where no callback is called that is not registered, as bnc.Arp.Facade.Registered has it, each of a
  -- list of handlers runs to its end.
  pub run_jobs-some :
      (js : List (Job F)) (p : Impl F D U) → (q : Impl F D U) × (run_jobs F D U js p ≡ some q)
  unfolding run_jobs
  run_jobs-some [] p = (p, refl)
  run_jobs-some (j ∷ js) p =
      let (p1, e) = run_job-some j p in let (q, r) = run_jobs-some js p1 in (q, rw (e, run_jobs) r)
