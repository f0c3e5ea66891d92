-- ===== src/Arp/Setpoints/Fits.antt =====
-- httpd/arpproxy.cpp, `__idHVSetpts`: what every entry of the table has.
use bnc.Prelude.{
  ℕ, ◌^◌, ◌<◌, ◌==◌, Bool, true, false, Option, none, some, List, [], ◌∷◌, All, if◌then◌else◌,
  arith,
}
use bnc.Device.Floats.{Floats}
use bnc.Arp.Setpoints.{
  Headers, Entry, Supply, before, insert, to_map, id_hv_setpts, setpts_map, find_addr, switch,
  switch_hv, voltage,
}

module _ (F : Floats) (P : Entry F → Type 0) where
  -- What is found, if anything, has the property.
  abbrev pub Found : Option (Entry F) → Type 0
  Found none = Unit
  Found (some e) = P e

  Found-if : (b : Bool) (x y : Option (Entry F)) → Found x → Found y → Found (if b then x else y)
  Found-if true x y h k = h
  Found-if false x y h k = k

  All-if : (b : Bool) (x y : List (Entry F)) → All P x → All P y → All P (if b then x else y)
  All-if true x y h k = h
  All-if false x y h k = k

  insert-All : (e : Entry F) (es : List (Entry F)) → P e → All P es → All P (insert F e es)
  unfolding insert
  insert-All e [] h hs = (h, tt)
  insert-All e (x ∷ xs) h (k, ks) =
      All-if (before e.id x.id) _ _ (h, (k, ks)) (k, insert-All e xs h ks)

  pub to_map-All : (es : List (Entry F)) → All P es → All P (to_map F es)
  unfolding to_map
  to_map-All [] h = tt
  to_map-All (e ∷ es) (h, hs) = insert-All e (to_map F es) h (to_map-All es hs)

  pub find_addr-Found : (addr : ℕ) (es : List (Entry F)) → All P es → Found (find_addr F addr es)
  unfolding find_addr
  find_addr-Found addr [] h = tt
  find_addr-Found addr (e ∷ es) (h, hs) =
      Found-if (e.addr == addr) _ _ h (find_addr-Found addr es hs)

module _ (F : Floats) where
  -- The device values of an entry are words.
  abbrev pub EntryFits : Entry F → Type 0
  EntryFits e = (v : F.Double) → e.device_value v < 2 ^ 32

  pub setpts_map-Fits :
      (D : Headers F)
      → ((s : Supply) (v : F.Double) → D.device_value s v < 2 ^ 32)
      → All EntryFits (setpts_map F D)
  unfolding setpts_map id_hv_setpts switch switch_hv voltage
  setpts_map-Fits D fit =
      let zero_fits : (v : F.Double) → 0 < 2 ^ 32 = λ v. omega arith in
      to_map-All F EntryFits (id_hv_setpts F D) (
        zero_fits,
        (
          zero_fits,
          (
            zero_fits,
            (
              zero_fits,
              (
                zero_fits,
                (
                  (λ v. fit Supply.det v),
                  (
                    (λ v. fit Supply.ext_in v),
                    (
                      (λ v. fit Supply.ext_out v),
                      (
                        (λ v. fit Supply.ent_in v),
                        (
                          (λ v. fit Supply.ent_out v),
                          (
                            (λ v. fit Supply.sel_out v),
                            (
                              (λ v. fit Supply.sel_in v),
                              (
                                (λ v. fit Supply.turn_in v),
                                (
                                  (λ v. fit Supply.turn_out v),
                                  (
                                    (λ v. fit Supply.turn_m v),
                                    (
                                      (λ v. fit Supply.einzel v),
                                      (
                                        (λ v. fit Supply.acc v),
                                        (
                                          (λ v. fit Supply.push v),
                                          (
                                            (λ v. fit Supply.filament v),
                                            (
                                              (λ v. fit Supply.ion v),
                                              (
                                                (λ v. fit Supply.heater_20w v),
                                                (
                                                  (λ v. fit Supply.heater_50w v),
                                                  (
                                                    (λ v. fit Supply.heater_100w v),
                                                    (zero_fits, (zero_fits, (zero_fits, tt))),
                                                  ),
                                                ),
                                              ),
                                            ),
                                          ),
                                        ),
                                      ),
                                    ),
                                  ),
                                ),
                              ),
                            ),
                          ),
                        ),
                      ),
                    ),
                  ),
                ),
              ),
            ),
          ),
        ),
      )
