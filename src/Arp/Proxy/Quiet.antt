-- ===== src/Arp/Proxy/Quiet.antt =====
-- httpd/arpproxy.cpp, `handle_device_setflag`: the set point that it leaves, and what it announces.
use bnc.Prelude.{
  ==_iff, ℕ, ◌^◌, ◌<◌, ◌≡◌, ◌≢◌, refl, sym, ap, ◌∙◌, Bool, true, false, Bool-cases, inl, inr, arith,
  ◌==◌, if◌then◌else◌, if_true, if_false,
}
use bnc.Device.Floats.{Floats}
use bnc.Arp.Usb.{Usb}
use bnc.Arp.Bits.{bit}
use bnc.Arp.Setpoints.{Headers, Setpoint}
use bnc.Arp.Proxy.{
  Impl, put_setpt, put_second, write_setpt, put_flag, pumps_on, flagged, switch_modules,
  change_flag, announce, notify, handle_device_setflag, all_ones, second_of,
}
use bnc.Arp.Proxy.Flags.{flag_word, bit-flagged, bit-pumps_word, flag_word_twice}

module _ (F : Floats) (D : Headers F) (U : Usb) where
  -- A field that both branches leave is left.
  field-if {ℓ} :
      {A : Type ℓ} (g : Impl F D U → A) (b : Bool) (x y : Impl F D U) (s : A)
      → g x ≡ s
      → g y ≡ s
      → g (if b then x else y) ≡ s
  field-if g true x y s h k = h
  field-if g false x y s h k = k

  second-put_second :
      (addr v : ℕ) (p : Impl F D U) → second_of F D U (put_second F D U addr v p) addr ≡ v
  unfolding put_second put_setpt
  second-put_second addr v p =
      ap (λ (s : Setpoint F). s.second) (if_true (addr == addr) _ _ (ground arith))

  second-put_flag :
      (addr mask : ℕ) (value : Bool) (p : Impl F D U)
      → second_of F D U (put_flag F D U addr mask value p) addr
        ≡ flagged (second_of F D U p addr) mask value
  unfolding put_flag write_setpt
  second-put_flag addr mask value p = second-put_second addr _ p

  second-switch_modules :
      (addr : ℕ) (value : Bool) (p : Impl F D U)
      → (addr == D.setpt_aux1) ≡ true
      → D.setpt_aux1 ≢ D.setpt_aux2
      → second_of F D U (switch_modules F D U value p) addr ≡ (if value then 0x1fff else 0x0001)
  unfolding switch_modules put_second put_setpt write_setpt
  second-switch_modules addr value p t n =
      let other : (addr == D.setpt_aux2) ≡ false = ground arith in
      ap (λ (s : Setpoint F). s.second) (if_false (addr == D.setpt_aux2) _ _ other)
      ∙ ap (λ (s : Setpoint F). s.second) (if_true (addr == D.setpt_aux1) _ _ t)

  -- The word that a flag leaves.
  abbrev word_of : ℕ → ℕ → Bool → Impl F D U → ℕ
  word_of addr mask value p =
      flag_word D.setpt_aux1 D.setpt_aux2 D.setpt_pump_valve_ctrl addr mask value
        (second_of F D U p addr)

  second-change_flag :
      (addr mask : ℕ) (value : Bool) (p : Impl F D U)
      → D.setpt_aux1 ≢ D.setpt_aux2
      → second_of F D U (change_flag F D U addr mask value p) addr ≡ word_of addr mask value p
  unfolding change_flag flag_word
  second-change_flag addr mask value p n =
      let at = λ (q : Impl F D U). second_of F D U q addr in
      let one = second-put_flag addr mask value p in
      elim (Bool-cases (addr == D.setpt_aux1)) [
        | inl t ↦ elim (Bool-cases (mask == all_ones)) [
          | inl m ↦
              ap at (if_true _ _ _ t ∙ if_true _ _ _ m)
              ∙ second-switch_modules addr value p t n
              ∙ sym (if_true _ _ _ t ∙ if_true _ _ _ m)
          | inr m ↦
              ap at (if_true _ _ _ t ∙ if_false _ _ _ m)
              ∙ one
              ∙ sym (if_true _ _ _ t ∙ if_false _ _ _ m)
        ]
        | inr t ↦ elim (Bool-cases (addr == D.setpt_aux2)) [
          | inl u ↦
              ap at (if_false _ _ _ t ∙ if_true _ _ _ u)
              ∙ one
              ∙ sym (if_false _ _ _ t ∙ if_true _ _ _ u)
          | inr u ↦ elim (Bool-cases (addr == D.setpt_pump_valve_ctrl)) [
            | inl v ↦
                let two =
                  second-put_flag addr mask value
                    (put_second F D U addr (pumps_on (second_of F D U p addr)) p)
                  ∙ ap (λ (x : ℕ). flagged x mask value) (second-put_second addr _ p) in
                ap at (if_false _ _ _ t ∙ if_false _ _ _ u ∙ if_true _ _ _ v)
                ∙ two
                ∙ sym (if_false _ _ _ t ∙ if_false _ _ _ u ∙ if_true _ _ _ v)
            | inr v ↦
                ap at (if_false _ _ _ t ∙ if_false _ _ _ u ∙ if_false _ _ _ v)
                ∙ sym (if_false _ _ _ t ∙ if_false _ _ _ u ∙ if_false _ _ _ v)
          ]
        ]
      ]

  setpts-announce :
      (addr mask : ℕ) (p : Impl F D U) → (announce F D U addr mask p).setpts ≡ p.setpts
  unfolding announce notify
  setpts-announce addr mask p = field-if (λ (q : Impl F D U). q.setpts) _ p _ p.setpts refl refl

  pub second-setflag :
      (addr mask : ℕ) (value : Bool) (p : Impl F D U)
      → D.setpt_aux1 ≢ D.setpt_aux2
      → second_of F D U (handle_device_setflag F D U addr mask value p) addr
        ≡ word_of addr mask value p
  unfolding handle_device_setflag
  second-setflag addr mask value p n =
      let p1 = change_flag F D U addr mask value p in
      field-if (λ (q : Impl F D U). second_of F D U q addr) _ p1 (announce F D U addr mask p1)
        (second_of F D U p1 addr) refl
        (ap (λ (f : ℕ → Setpoint F). (f addr).second) (setpts-announce addr mask p1))
      ∙ second-change_flag addr mask value p n

  notices-change_flag :
      (addr mask : ℕ) (value : Bool) (p : Impl F D U)
      → (change_flag F D U addr mask value p).notices ≡ p.notices
  unfolding change_flag switch_modules put_flag put_second put_setpt write_setpt
  notices-change_flag addr mask value p =
      let g = λ (q : Impl F D U). q.notices in
      field-if g (addr == D.setpt_aux1) _ _ p.notices
        (field-if g (mask == all_ones) _ _ p.notices refl refl)
        (field-if g (addr == D.setpt_aux2) _ _ p.notices refl
          (field-if g (addr == D.setpt_pump_valve_ctrl) _ p p.notices refl refl))

  -- A flag that is set to the value it was just set to announces nothing more. The modules' two words
  -- have different addresses; the mask and the word before are uint32_t.
  pub handle_device_setflag-twice :
      (addr mask : ℕ) (value : Bool) (p : Impl F D U)
      → D.setpt_aux1 ≢ D.setpt_aux2
      → second_of F D U p addr < 2 ^ 32
      → mask < 2 ^ 32
      → (handle_device_setflag F D U addr mask value
          (handle_device_setflag F D U addr mask value p)).notices
        ≡ (handle_device_setflag F D U addr mask value p).notices
  unfolding handle_device_setflag
  handle_device_setflag-twice addr mask value p n h w =
      let q = handle_device_setflag F D U addr mask value p in
      let q1 = change_flag F D U addr mask value q in
      let before = second-setflag addr mask value p n in
      let after = second-change_flag addr mask value q n in
      let word =
        λ (x : ℕ). flag_word D.setpt_aux1 D.setpt_aux2 D.setpt_pump_valve_ctrl addr mask value x in
      let same : second_of F D U q addr ≡ second_of F D U q1 addr =
        before
        ∙ sym (
            flag_word_twice D.setpt_aux1 D.setpt_aux2 D.setpt_pump_valve_ctrl addr mask value
              (second_of F D U p addr) h w)
        ∙ ap word (sym before)
        ∙ sym after in
      let quiet : (second_of F D U q addr == second_of F D U q1 addr) ≡ true =
        (==_iff _ _).1 same in
      ap (λ (x : Impl F D U). x.notices) (if_true _ q1 _ quiet)
      ∙ notices-change_flag addr mask value q

  -- The bits of the pumps' and valves' word after a flag of it was set: each bit of the mask has the
  -- value; of the others, the vent valve's is 0 and the pumps' and gauge's are 1, whatever they were,
  -- and the rest are left. The addresses are different, and the mask is a uint32_t.
  pub bit-handle_device_setflag :
      (k mask : ℕ) (value : Bool) (p : Impl F D U)
      → D.setpt_aux1 ≢ D.setpt_aux2
      → D.setpt_pump_valve_ctrl ≢ D.setpt_aux1
      → D.setpt_pump_valve_ctrl ≢ D.setpt_aux2
      → k < 32
      → mask < 2 ^ 32
      → bit k (
          second_of F D U
            (handle_device_setflag F D U D.setpt_pump_valve_ctrl mask value p)
            D.setpt_pump_valve_ctrl)
        ≡ (if bit k mask == 1
            then (if value then 1 else 0)
            else if k == 13
            then 0
            else if bit k 0xc09f == 1
            then 1
            else bit k (second_of F D U p D.setpt_pump_valve_ctrl))
  unfolding flag_word
  bit-handle_device_setflag k mask value p n n1 n2 h w =
      let pump = D.setpt_pump_valve_ctrl in
      let v = second_of F D U p pump in
      let word : word_of pump mask value p ≡ flagged (pumps_on v) mask value =
        if_false (pump == D.setpt_aux1) _ _ (ground arith)
        ∙ if_false (pump == D.setpt_aux2) _ _ (ground arith)
        ∙ if_true (pump == pump) _ _ (ground arith) in
      ap (bit k) (second-setflag pump mask value p n ∙ word)
      ∙ bit-flagged k (pumps_on v) mask value h w
      ∙ ap (λ (x : ℕ). if bit k mask == 1 then (if value then 1 else 0) else x)
          (bit-pumps_word k v h)
