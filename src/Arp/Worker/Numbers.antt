-- ===== src/Arp/Worker/Numbers.antt =====
-- httpd/arpproxy.cpp, `arpproxy::set` with a number, for a name of the table that is a switch.
use bnc.Prelude.{
  ℕ, zero, suc, ◌≡◌, ◌≢◌, refl, sym, ap, ◌∙◌, true, false, Bool-cases, inl, inr, Option, none, some,
  List, [], ◌∷◌, All, ◌==◌, if_true, get_elem?, some-injective, subst, if_false, ==_iff,
}
use bnc.Prelude.Bytes.{codes, equal}
use bnc.Device.Floats.{Floats}
use bnc.Arp.Usb.{Usb}
use bnc.Arp.Setpoints.{
  Headers, Setpoint, Entry, Supply, id_hv_setpts, setpts_map, to_map, find_addr, find_id, switch,
  switch_hv, voltage, insert, before,
}
use bnc.Arp.Setpoints.Fits.{Found, to_map-All, find_addr-Found}
use bnc.Arp.Proxy.{
  Job, Impl, post, second_of, setvoltage_of, handle_device_setvoltage, notify, write_setpt,
  put_setpt,
}
use bnc.Arp.Worker.{device_setvoltage, post_voltage}

module _ (F : Floats) where
  All-get {ℓ} :
      (P : Entry F → Type ℓ) (es : List (Entry F)) (n : ℕ) (e : Entry F)
      → get_elem? es n ≡ some e
      → All P es
      → P e
  All-get P [] n e h a = absurd (cc)
  All-get P (x ∷ xs) zero e h a = subst P (some-injective h) (a.0)
  All-get P (x ∷ xs) (suc n) e h a = All-get P xs n e h (a.1)

  -- Nothing is found where no entry has the address.
  find_addr-none :
      (addr : ℕ) (es : List (Entry F))
      → find_addr F addr es ≡ none
      → All (λ e. (e.addr == addr) ≡ false) es
  unfolding find_addr
  find_addr-none addr [] h = tt
  find_addr-none addr (e ∷ es) h = elim (Bool-cases (e.addr == addr)) [
    | inl t ↦ absurd (let found : some e ≡ none = sym (if_true _ _ _ t) ∙ h in cc)
    | inr f ↦ (f, find_addr-none addr es (sym (if_false _ _ _ f) ∙ h))
  ]

  module _ (D : Headers F) where
    -- An entry of the modules' word gives 0.
    ZeroAt : Entry F → Type 0
    ZeroAt e = (e.addr ≡ D.setpt_aux1) → (v : F.Double) → e.device_value v ≡ 0

    setpts_map-ZeroAt : ((s : Supply) → D.setpt s ≢ D.setpt_aux1) → All ZeroAt (setpts_map F D)
    unfolding setpts_map id_hv_setpts switch switch_hv voltage ZeroAt
    setpts_map-ZeroAt n =
        let other : (s : Supply)
            → D.setpt s ≡ D.setpt_aux1
            → (v : F.Double) → D.device_value s v ≡ 0 =
          λ s e v. absurd (n s e) in
        to_map-All F ZeroAt (id_hv_setpts F D) (
          (λ e v. refl),
          (
            (λ e v. refl),
            (
              (λ e v. refl),
              (
                (λ e v. refl),
                (
                  (λ e v. refl),
                  (
                    other Supply.det,
                    (
                      other Supply.ext_in,
                      (
                        other Supply.ext_out,
                        (
                          other Supply.ent_in,
                          (
                            other Supply.ent_out,
                            (
                              other Supply.sel_out,
                              (
                                other Supply.sel_in,
                                (
                                  other Supply.turn_in,
                                  (
                                    other Supply.turn_out,
                                    (
                                      other Supply.turn_m,
                                      (
                                        other Supply.einzel,
                                        (
                                          other Supply.acc,
                                          (
                                            other Supply.push,
                                            (
                                              other Supply.filament,
                                              (
                                                other Supply.ion,
                                                (
                                                  other Supply.heater_20w,
                                                  (
                                                    other Supply.heater_50w,
                                                    (
                                                      other Supply.heater_100w,
                                                      (
                                                        (λ e v. refl),
                                                        ((λ e v. refl), ((λ e v. refl), tt)),
                                                      ),
                                                    ),
                                                  ),
                                                ),
                                              ),
                                            ),
                                          ),
                                        ),
                                      ),
                                    ),
                                  ),
                                ),
                              ),
                            ),
                          ),
                        ),
                      ),
                    ),
                  ),
                ),
              ),
            ),
          ),
        )

    find_addr-addr :
        (addr : ℕ) (es : List (Entry F)) → Found F (λ e. e.addr ≡ addr) (find_addr F addr es)
    unfolding find_addr
    find_addr-addr addr [] = tt
    find_addr-addr addr (e ∷ es) = elim (Bool-cases (e.addr == addr)) [
      | inl t ↦ subst (Found F (λ e. e.addr ≡ addr)) (sym (if_true _ _ _ t)) ((==_iff _ _).0 t)
      | inr f ↦
          subst (Found F (λ e. e.addr ≡ addr)) (sym (if_false _ _ _ f)) (find_addr-addr addr es)
    ]

    -- There is an entry at the address of the modules' word.
    find_addr-some : find_addr F D.setpt_aux1 (setpts_map F D) ≢ none
    unfolding setpts_map id_hv_setpts to_map insert before equal switch switch_hv voltage
    find_addr-some h =
        let all = find_addr-none D.setpt_aux1 (setpts_map F D) h in
        let wrong =
          All-get (λ e. (e.addr == D.setpt_aux1) ≡ false) (setpts_map F D) 19 _ refl all in
        let right : (D.setpt_aux1 == D.setpt_aux1) ≡ true = (==_iff _ _).1 refl in
        absurd (let no : true ≡ false = sym right ∙ wrong in cc)

    module _ (U : Usb) where
      second-setvoltage_of :
          (o : Option (Entry F)) (v : F.Double) (p : Impl F D U)
          → o ≢ none
          → Found F ZeroAt o
          → Found F (λ e. e.addr ≡ D.setpt_aux1) o
          → second_of F D U (setvoltage_of F D U o D.setpt_aux1 v p) D.setpt_aux1 ≡ 0
      unfolding setvoltage_of notify write_setpt put_setpt ZeroAt
      second-setvoltage_of none v p n h k = absurd (n refl)
      second-setvoltage_of (some e) v p n h k =
          ap (λ (s : Setpoint F). s.second)
            (if_true (D.setpt_aux1 == D.setpt_aux1) _ _ ((==_iff _ _).1 refl))
          ∙ h k v

      -- A number that is set to "switch-h50w", which is among the set points that are voltages, is
      -- taken for a device value of 0 in the word that the switch is one bit of: all modules are off.
      -- No supply has that word.
      pub setvoltage-switch :
          (v : F.Double) (p : Impl F D U)
          → ((s : Supply) → D.setpt s ≢ D.setpt_aux1)
          → (device_setvoltage F D U (codes "switch-h50w") v p
              ≡ post F D U (Job.setvoltage D.setpt_aux1 v) p)
            × (second_of F D U (handle_device_setvoltage F D U D.setpt_aux1 v p) D.setpt_aux1 ≡ 0)
      unfolding device_setvoltage post_voltage find_id setpts_map id_hv_setpts to_map insert before
          equal switch switch_hv voltage handle_device_setvoltage
      setvoltage-switch v p n = (
        refl,
        second-setvoltage_of (find_addr F D.setpt_aux1 (setpts_map F D)) v p find_addr-some
            (find_addr-Found F ZeroAt D.setpt_aux1 (setpts_map F D) (setpts_map-ZeroAt n))
            (find_addr-addr D.setpt_aux1 (setpts_map F D)),
      )
