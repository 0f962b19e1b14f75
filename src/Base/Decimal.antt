-- ===== src/Base/Decimal.antt =====
-- The decimal text of a number, as `format!("{n}")` prints it.
use Prim.Native.Nat.{ℕ, zero, suc, ◌+◌, ◌/◌, ◌%◌}
use mathlib.Core.List.{[], ◌∷◌}
use local_proxy.Base.Strings.{Text}
use local_proxy.Base.Test.{ltb, if◌then◌else◌}

digits_onto : ℕ → ℕ → Text → Text
digits_onto zero n acc = acc
digits_onto (suc fuel) n acc =
    let shown = (b'0' + n % 10) ∷ acc in
    let rest = digits_onto fuel (n / 10) shown in if ltb n 10 then shown else rest

-- A number has no more digits than its value and one.
unfoldable pub show_nat : ℕ → Text
unfolding digits_onto
show_nat n = digits_onto (suc n) n []
