-- ===== src/Device/Control/Pulses.antt =====
-- httpd/dgctl.cpp: the pulses that `dgctl` keeps, and the interval. The commands of the web pages use
-- none of them.
use bnc.Prelude.{
  ℕ, zero, suc, Bool, true, false, List, [], ◌∷◌, ◌≡◌, refl, Option, none, some, length, replicate,
  subst, some-injective,
}
use bnc.Device.Floats.{Floats}
use bnc.Device.Bnc565.{Driver, interval, set_interval}
use bnc.Device.Control.{Control, commit}

abbrev pub nitem : ℕ
nitem = 6

module _ {ℓ} {A : Type ℓ} where
  -- `operator []` of std::array; behind the end it is undefined.
  unfoldable element : List A → ℕ → Option A
  element [] i = none
  element (v ∷ vs) zero = some v
  element (v ∷ vs) (suc i) = element vs i

  unfoldable store : List A → ℕ → A → Option (List A)
  store [] i x = none
  store (v ∷ vs) zero x = some (x ∷ vs)
  store (v ∷ vs) (suc i) x = elim (store vs i x) [ none ↦ none | some ws ↦ some (v ∷ ws) ]

module _ (F : Floats) where
  open F use {Double, lit}

  -- `bnc565::pulse`
  unfoldable pub driver_pulse : Driver Double → ℕ → Double × Double
  driver_pulse d channel = (lit 0 0, lit 0 0)

  -- `bnc565::setPulse`
  unfoldable pub set_driver_pulse : Driver Double → ℕ → Double × Double → Driver Double
  set_driver_pulse d channel t = d

  -- The loop of `update` over the pulses from a channel on.
  unfoldable pulses_from : Driver Double → ℕ → List (Double × Double) → List (Double × Double)
  unfolding driver_pulse
  pulses_from d channel [] = []
  pulses_from d channel (v ∷ vs) = driver_pulse d channel ∷ pulses_from d (suc channel) vs

  unfoldable pub update : Control Double → Control Double
  unfolding pulses_from
  update c = record c { pulses = pulses_from c.driver 0 c.pulses }

  -- The constructor.
  unfoldable pub new_control : Driver Double → Control Double
  unfolding update
  new_control d = update (record {
    driver = d;
    is_active = false;
    is_dirty = false;
    pulser_interval = lit 1 3;
    pulses = replicate nitem (lit 0 0, lit 0 0);
  })

  unfoldable pub size : Control Double → ℕ
  size c = length c.pulses

  unfoldable pub pulse : Control Double → ℕ → Option (Double × Double)
  unfolding element
  pulse c idx = element c.pulses idx

  stored : Control Double → Option (List (Double × Double)) → Option (Control Double)
  stored c none = none
  stored c (some vs) = some (record c { pulses = vs; is_dirty = true })

  unfoldable pub set_pulse : Control Double → ℕ → Double × Double → Option (Control Double)
  unfolding store stored
  set_pulse c idx v = stored c (store c.pulses idx v)

  unfoldable pub pulser_interval : Control Double → Double
  unfolding interval
  pulser_interval c = interval c.driver

  unfoldable pub set_pulser_interval : Control Double → Double → Control Double
  unfolding set_interval
  set_pulser_interval c v = record c { driver = set_interval c.driver v }

  unfoldable pub is_active : Control Double → Bool
  is_active c = c.is_active

  commit-stored :
      (c e : Control Double) (vs : Option (List (Double × Double)))
      → c.driver.is_open ≡ false
      → stored c vs ≡ some e
      → (commit e).driver ≡ (commit c).driver
  unfolding commit stored
  commit-stored c e none closed same = absurd (let stuck : none ≡ some e = same in cc)
  commit-stored c e (some vs) closed same =
      subst (λ x. (commit x).driver ≡ (commit c).driver) (some-injective same) (rw closed refl)

  -- With no generator connected, an interval that was set is lost by a commit, which takes the member of
  -- `dgctl` that nothing sets; pulses that were set have no effect on the driver.
  pub commit-set_pulser_interval :
      (c e : Control Double) (idx : ℕ) (t : Double × Double) (v : Double)
      → c.driver.is_open ≡ false
      → set_pulse c idx t ≡ some e
      → (commit (set_pulser_interval c v) ≡ commit c) × ((commit e).driver ≡ (commit c).driver)
  unfolding commit set_pulser_interval set_interval set_pulse
  commit-set_pulser_interval c e idx t v closed same =
      (rw closed refl, commit-stored c e (store c.pulses idx t) closed same)
