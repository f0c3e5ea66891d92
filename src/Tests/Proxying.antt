-- ===== src/Tests/Proxying.antt =====
-- The register commands and the proxy of httpd/arpproxy.cpp, on a device that keeps registers.
use bnc.Prelude.{ℕ, ◌^◌, ◌<◌, ◌≡◌, refl, true, false, some, List, [], ◌∷◌, arith, ◌==◌, ◌-◌}
use bnc.Prelude.Bytes.{codes, to_string}
use bnc.Arp.Usb.{cmd_reg_bit_write}
use bnc.Arp.Board.{store}
use bnc.Arp.Board.Commands.{linked, Leaves, cmd_reg_bit_write-Leaves}
use bnc.Arp.Words.{merge}
use bnc.Arp.Bits.{bit}
use Prim.Native.Nat.{bit_and}
use bnc.Arp.Vector.{CommandVector, Detail, Run, Result, vector_interpreter}
use bnc.Arp.Vector.Ends.{vector_interpreter-returned}
use bnc.Arp.Vector.Reference.{reference, meaning, after_meaning}
use bnc.Arp.Vector.Refines.{RefinesRun, vector_interpreter-reference}
use bnc.Arp.Digitizer.{handle_device_digitizer_initialize}
use bnc.Arp.Digitizer.Runs.{handle_device_digitizer_initialize-last}
use bnc.Arp.Setpoints.{Headers, Supply}
use bnc.Arp.Proxy.{Job, Impl, second_of, handle_device_setflag, handle_device_setvoltage, post}
use bnc.Arp.Proxy.Sync.{Good, Agrees}
use bnc.Arp.Proxy.Synced.{HeadersFit}
use bnc.Arp.Worker.{run_jobs, device_setvoltage}
use bnc.Arp.Worker.Synced.{run_jobs-Agrees}
use bnc.Arp.Worker.Ends.{run_jobs-some}
use bnc.Arp.Worker.Numbers.{setvoltage-switch}
use bnc.Arp.Proxy.Quiet.{handle_device_setflag-twice, bit-handle_device_setflag}
use bnc.Tests.Boards.{Bench, bench, bench_board}
use bnc.Tests.Commanding.{whole}

abbrev pub blank : Bench
blank = record { memory = λ a. 0; queue = [] }

abbrev item : CommandVector → ℕ → ℕ → ℕ → ℕ → Detail
item c addr value mask max_loop = record {
  command = c;
  addr = addr;
  value = value;
  mask = mask;
  max_loop = max_loop;
}

-- Two writes at once, a wait, a read, a comparison that never holds, and one that does.
abbrev mixed : List Detail
mixed =
    item CommandVector.tblval_write 0x100 7 0 0
    ∷ item CommandVector.tblval_write 0x104 9 0 0
    ∷ item CommandVector.tblval_wait 0 50 0 0
    ∷ item CommandVector.tblval_read 0x104 0 0 0
    ∷ item CommandVector.tblval_comp 0x100 8 15 3
    ∷ item CommandVector.tblval_comp_n 0x100 8 15 3
    ∷ []

vector_interpreter-returned_example :
    (s : Result bench) × (vector_interpreter bench mixed (linked bench blank) ≡ Run.returned s)
vector_interpreter-returned_example =
    vector_interpreter-returned bench mixed (linked bench blank) (omega arith)

vector_interpreter-reference_example :
    RefinesRun bench bench_board
      (vector_interpreter bench mixed (linked bench blank))
      (reference true mixed (bench_board.regs blank))
vector_interpreter-reference_example =
    vector_interpreter-reference bench bench_board mixed blank refl (omega arith)

mixed_outcome : (reference true mixed (λ a. 0)).ok ≡ true
unfolding reference meaning after_meaning store
mixed_outcome = refl

cmd_reg_bit_write-Leaves_example :
    Leaves bench bench_board
      (cmd_reg_bit_write bench (linked bench blank) 0x200 0x30 0xf0)
      false
      (store (bench_board.regs blank) 0x200 (merge (bench_board.regs blank 0x200) 0x30 0xf0))
cmd_reg_bit_write-Leaves_example =
    cmd_reg_bit_write-Leaves bench bench_board blank 0x200 0x30 0xf0 refl (omega arith)
      (omega arith)

handle_device_digitizer_initialize-last_example :
    (s : Result bench) × (handle_device_digitizer_initialize bench (linked bench blank)
      ≡ Run.returned s)
    × (s.ok ≡ (bit_and (bench_board.regs blank 0x4320) 0xffff_ffff == 0x1000_0000))
handle_device_digitizer_initialize-last_example =
    handle_device_digitizer_initialize-last bench bench_board blank refl

abbrev supply_number : Supply → ℕ
supply_number s = elim s [
  | Supply.det ↦ 0
  | Supply.ext_in ↦ 1
  | Supply.ext_out ↦ 2
  | Supply.ent_in ↦ 3
  | Supply.ent_out ↦ 4
  | Supply.sel_in ↦ 5
  | Supply.sel_out ↦ 6
  | Supply.turn_in ↦ 7
  | Supply.turn_out ↦ 8
  | Supply.turn_m ↦ 9
  | Supply.einzel ↦ 10
  | Supply.acc ↦ 11
  | Supply.push ↦ 12
  | Supply.filament ↦ 13
  | Supply.ion ↦ 14
  | Supply.heater_20w ↦ 15
  | Supply.heater_50w ↦ 16
  | Supply.heater_100w ↦ 17
  | Supply.press_gauge ↦ 18
]

abbrev pub headers : Headers whole
headers = record {
  setpt = supply_number;
  setpt_aux1 = 20;
  setpt_aux2 = 21;
  setpt_pump_valve_ctrl = 22;
  act = supply_number;
  act_pump_valve_ctrl = 22;
  act_dev_state_monitor = 23;
  act_aux1_alarm = 24;
  act_aux2_alarm = 25;
  device_value = λ s v. 5;
  world_value = λ s n. n;
  sub = λ a b. a - b;
  pow10 = λ v. v;
  print_2 = λ v. to_string v;
  print_e4 = λ v. to_string v;
}

supply_number_lt : (s : Supply) → supply_number s < 20
supply_number_lt Supply.det = omega arith
supply_number_lt Supply.ext_in = omega arith
supply_number_lt Supply.ext_out = omega arith
supply_number_lt Supply.ent_in = omega arith
supply_number_lt Supply.ent_out = omega arith
supply_number_lt Supply.sel_in = omega arith
supply_number_lt Supply.sel_out = omega arith
supply_number_lt Supply.turn_in = omega arith
supply_number_lt Supply.turn_out = omega arith
supply_number_lt Supply.turn_m = omega arith
supply_number_lt Supply.einzel = omega arith
supply_number_lt Supply.acc = omega arith
supply_number_lt Supply.push = omega arith
supply_number_lt Supply.filament = omega arith
supply_number_lt Supply.ion = omega arith
supply_number_lt Supply.heater_20w = omega arith
supply_number_lt Supply.heater_50w = omega arith
supply_number_lt Supply.heater_100w = omega arith
supply_number_lt Supply.press_gauge = omega arith

headers_fit : HeadersFit whole headers
headers_fit = record {
  aux1_lt = omega arith;
  aux2_lt = omega arith;
  pump_lt = omega arith;
  setpt_lt = λ s. omega (arith, supply_number_lt s);
  device_value_lt = λ s v. omega arith;
}

-- The modules are on, and the sample inlet's valve is to be opened.
abbrev proxy : Impl whole headers bench
proxy = record {
  link = linked bench blank;
  setpts = λ i. record { first = 0; second = 0x2000 };
  actuals = λ i. 2 ^ 32 - 1;
  tick = 1;
  service_count = 0;
  ezusb_version = [];
  timer = some 1000;
  posted = [];
  notices = [];
  reported = [];
}

proxy-Good : Good whole headers bench bench_board proxy
proxy-Good = record { is_open = refl; idle = refl; words = λ a. omega arith }

abbrev jobs : List (Job whole)
jobs =
    Job.setflag 22 0x0400 true
    ∷ Job.digitizer_initialize
    ∷ Job.setvoltage 3 250
    ∷ Job.read_actuals
    ∷ []

ran :
    (q : Impl whole headers bench) × (run_jobs whole headers bench (Job.device_on true ∷ jobs) proxy
      ≡ some q)
ran = run_jobs-some whole headers bench (Job.device_on true ∷ jobs) proxy

ended : Impl whole headers bench
ended = ran.0

run_jobs-Agrees_example :
    Agrees whole headers bench bench_board ended (headers.setpt_aux1)
    × Agrees whole headers bench bench_board ended (headers.setpt_aux2)
    × Agrees whole headers bench bench_board ended (headers.setpt_pump_valve_ctrl)
unfolding ended
run_jobs-Agrees_example =
    run_jobs-Agrees whole headers bench bench_board true jobs proxy ended headers_fit proxy-Good
      (omega arith) (ran.1)

handle_device_setflag-twice_example :
    (handle_device_setflag whole headers bench 22 0x0400 true
      (handle_device_setflag whole headers bench 22 0x0400 true proxy)).notices
    ≡ (handle_device_setflag whole headers bench 22 0x0400 true proxy).notices
handle_device_setflag-twice_example =
    handle_device_setflag-twice whole headers bench 22 0x0400 true proxy (omega arith) (omega arith)
      (omega arith)

bit-handle_device_setflag_example :
    bit 13 (
      second_of whole headers bench
        (handle_device_setflag whole headers bench headers.setpt_pump_valve_ctrl 0x0400 true proxy)
        headers.setpt_pump_valve_ctrl)
    ≡ 0
unfolding bit
bit-handle_device_setflag_example =
    bit-handle_device_setflag whole headers bench 13 0x0400 true proxy (omega arith) (omega arith)
      (omega arith) (omega arith) (omega arith)

setvoltage-switch_example :
    (device_setvoltage whole headers bench (codes "switch-h50w") 20 proxy
      ≡ post whole headers bench (Job.setvoltage headers.setpt_aux1 20) proxy)
    × (second_of whole headers bench
          (handle_device_setvoltage whole headers bench headers.setpt_aux1 20 proxy)
          headers.setpt_aux1
        ≡ 0)
setvoltage-switch_example =
    setvoltage-switch whole headers bench 20 proxy
      (λ s e. absurd (omega (arith, supply_number_lt s)))
