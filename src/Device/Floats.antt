-- ===== src/Device/Floats.antt =====
-- What the program uses of double and of the conversions in boost. `lit m e` is the value of the
-- literal m * 10 ^ -e; `print` and `print_g` are boost::format with %1% and %g; `read` and `read_int`
-- are boost::lexical_cast, `none` where it throws. An int is written as its bit pattern.
use bnc.Prelude.{ℕ, Option}
use bnc.Prelude.Bytes.{Bytes}

pub record Floats : Type 1 where
  pub Double : Type 0
  pub lit : ℕ → ℕ → Double
  pub of_int : ℕ → Double
  pub add : Double → Double → Double
  pub mul : Double → Double → Double
  pub div : Double → Double → Double
  pub print : Double → Bytes
  pub print_g : Double → Bytes
  pub read : Bytes → Option Double
  pub read_int : Bytes → Option ℕ
