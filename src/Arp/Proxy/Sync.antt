-- ===== src/Arp/Proxy/Sync.antt =====
-- httpd/arpproxy.cpp: the set points and the registers of a device with no fault.
use bnc.Prelude.{
  subst, ℕ, ◌^◌, ◌<◌, ◌≡◌, ◌≢◌, sym, ap, ◌∙◌, Bool, true, false, Bool-cases, ◌⊎◌, inl, inr, [],
  arith, ◌==◌, if_true, if_false,
}
use bnc.Device.Floats.{Floats}
use bnc.Arp.Usb.{Usb, Link, cmd_reg_write}
use bnc.Arp.Board.{Board, store}
use bnc.Arp.Board.Commands.{linked, cmd_reg_write-Leaves}
use bnc.Arp.Setpoints.{Headers, Setpoint}
use bnc.Arp.Proxy.{Impl, hv_register, second_of, put_setpt, write_setpt}

module _ (F : Floats) (D : Headers F) (U : Usb) (B : Board U) where
  open B use {regs, waiting}

  -- An open device with no answer waiting, and set points that are words.
  pub record Good (p : Impl F D U) : Type 0 where
    pub is_open : p.link.is_open ≡ true
    pub idle : waiting p.link.bus ≡ []
    pub words : (a : ℕ) → second_of F D U p a < 2 ^ 32

  -- The register of a set point has its value.
  abbrev pub Agrees : Impl F D U → ℕ → Type 0
  Agrees p a = regs p.link.bus (hv_register a) ≡ second_of F D U p a

  pub linked_eta : (l : Link U) → l.is_open ≡ true → l ≡ linked U l.bus
  linked_eta l e = ap (λ (o : Bool). record l { is_open = o }) e

  -- The link after a set point has been written.
  written :
      (addr : ℕ) (p : Impl F D U)
      → Good p
      → (c : U.Bus) × ((write_setpt F D U addr p).link ≡ linked U c)
        × (waiting c ≡ [])
        × (regs c ≡ store (regs p.link.bus) (hv_register addr) (second_of F D U p addr))
  unfolding write_setpt
  written addr p g =
      let word = second_of F D U p addr in
      let (c, e, idle, now) =
        cmd_reg_write-Leaves U B p.link.bus (hv_register addr) word g.idle (omega arith)
          (g.words addr) in
      let same = linked_eta p.link g.is_open in
      (
        c,
        ap (λ (l : Link U). (cmd_reg_write U l (hv_register addr) word).1) same
            ∙ ap (λ (r : Bool × Link U). r.1) e,
        idle,
        now,
      )

  pub write_setpt-Good : (addr : ℕ) (p : Impl F D U) → Good p → Good (write_setpt F D U addr p)
  unfolding write_setpt
  write_setpt-Good addr p g =
      let (c, e, idle, now) = written addr p g in
      record {
        is_open = ap (λ (l : Link U). l.is_open) e;
        idle = ap (λ (l : Link U). waiting l.bus) e ∙ idle;
        words = g.words;
      }

  -- The set point that is written agrees, and those that agreed still do.
  pub write_setpt-Agrees :
      (addr a : ℕ) (p : Impl F D U)
      → Good p
      → addr < 32
      → a < 32
      → (a ≡ addr) ⊎ Agrees p a
      → Agrees (write_setpt F D U addr p) a
  unfolding write_setpt store
  write_setpt-Agrees addr a p g small low h =
      let (c, e, idle, now) = written addr p g in
      let here =
        ap (λ (l : Link U). regs l.bus (hv_register a)) e
        ∙ ap (λ (f : ℕ → ℕ). f (hv_register a)) now in
      elim (Bool-cases (hv_register a == hv_register addr)) [
        | inl t ↦
            let equal : a ≡ addr = ground arith in
            here ∙ if_true _ _ _ t ∙ ap (second_of F D U p) (sym equal)
        | inr f ↦
            let differ : a ≢ addr = ground arith in
            elim h [ inl same ↦ absurd (differ same) | inr kept ↦ here ∙ if_false _ _ _ f ∙ kept ]
      ]

  pub put_setpt-Good :
      (addr : ℕ) (s : Setpoint F) (p : Impl F D U)
      → s.second < 2 ^ 32
      → Good p
      → Good (put_setpt F D U addr s p)
  unfolding put_setpt
  put_setpt-Good addr s p w g = record {
    is_open = g.is_open;
    idle = g.idle;
    words = λ a. elim (Bool-cases (a == addr)) [
      | inl t ↦
          subst (λ (x : Setpoint F). x.second < 2 ^ 32) (sym (if_true (a == addr) s (p.setpts a) t))
            w
      | inr f ↦
          subst (λ (x : Setpoint F). x.second < 2 ^ 32)
            (sym (if_false (a == addr) s (p.setpts a) f)) (g.words a)
    ];
  }

  pub put_setpt-Agrees :
      (addr a : ℕ) (s : Setpoint F) (p : Impl F D U)
      → a ≢ addr
      → Agrees p a
      → Agrees (put_setpt F D U addr s p) a
  unfolding put_setpt
  put_setpt-Agrees addr a s p n h =
      let other : (a == addr) ≡ false = ground arith in
      h ∙ ap (λ (x : Setpoint F). x.second) (sym (if_false (a == addr) s (p.setpts a) other))
