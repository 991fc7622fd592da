-- ===== src/Jitter/Double.antt =====
-- `double`, which the source takes from the machine: the operations that the estimates of
-- jitter and round-trip time use.
-- Nothing is assumed of them.
use rtstream.Prelude.{Bool}
use rtstream.Prelude.Int.{ℤ}

pub record Double : Type 1 where
  pub Num : Type 0
  pub of_int : ℤ → Num
  pub to_int : Num → ℤ
  pub negate : Num → Num
  pub plus : Num → Num → Num
  pub minus : Num → Num → Num
  pub times : Num → Num → Num
  pub over : Num → Num → Num
  pub less : Num → Num → Bool
  pub equal : Num → Num → Bool
