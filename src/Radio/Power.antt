-- ===== src/Radio/Power.antt =====
-- `TxPower` of model.rs. Products of `u64` saturate at its largest value, which products of two
-- `u32` never reach.
use cathub.Prelude.{
  ℕ, ◌-◌, ◌*◌, ◌/◌, ◌^◌, ◌≡◌, Option, none, some, arith, ◌==◌, ltb, leb, if◌then◌else◌, min,
  saturating_add,
}
use cathub.Radio.Model.{TxPower}

abbrev pub relative_scale : ℕ
relative_scale = 1000000

abbrev u32_max : ℕ
u32_max = 2 ^ 32 - 1

abbrev u64_max : ℕ
u64_max = 2 ^ 64 - 1

abbrev pub saturating_mul : ℕ → ℕ → ℕ → ℕ
saturating_mul top m n = min (m * n) top

-- `u32::try_from(n).ok()`.
abbrev pub to_u32 : ℕ → Option ℕ
to_u32 n = if leb n u32_max then some n else none

unfoldable pub from_milliwatts : ℕ → ℕ → TxPower
from_milliwatts milliwatts max_milliwatts = record {
  relative_millionths =
      if max_milliwatts == 0
      then 0
      else min (saturating_mul u64_max milliwatts relative_scale / max_milliwatts) relative_scale;
  milliwatts = milliwatts;
  max_milliwatts = some max_milliwatts;
}

unfoldable pub from_watts : ℕ → ℕ → TxPower
unfolding from_milliwatts
from_watts watts max_watts =
    from_milliwatts (saturating_mul u32_max watts 1000) (saturating_mul u32_max max_watts 1000)

unfoldable pub from_relative_millionths : ℕ → ℕ → Option TxPower
from_relative_millionths relative milliwatts =
    if ltb relative_scale relative
    then none
    else some (record {
      relative_millionths = relative;
      milliwatts = milliwatts;
      max_milliwatts =
          if relative == 0
          then none
          else to_u32 (
              saturating_add u64_max (saturating_mul u64_max milliwatts relative_scale)
                (relative / 2)
              / relative);
    })

abbrev pub scaled : Option ℕ → ℕ → Option ℕ
scaled none relative = none
scaled (some most) relative = to_u32 (
    saturating_add u64_max (saturating_mul u64_max most relative) (relative_scale / 2)
    / relative_scale)

unfoldable pub milliwatts_for_relative : TxPower → ℕ → Option ℕ
milliwatts_for_relative p relative =
    if ltb relative_scale relative
    then none
    else if relative == p.relative_millionths
    then some p.milliwatts
    else if relative == 0
    then some 0
    else scaled p.max_milliwatts relative

-- A power that a downstream daemon reported answers, at the level it was reported for, exactly the
-- milliwatts reported.
pub from_relative_millionths-milliwatts_for_relative :
    (relative milliwatts : ℕ) (p : TxPower)
    → from_relative_millionths relative milliwatts ≡ some p
    → milliwatts_for_relative p relative ≡ some milliwatts
unfolding from_relative_millionths milliwatts_for_relative
from_relative_millionths-milliwatts_for_relative relative milliwatts p e = ground (arith, e)
