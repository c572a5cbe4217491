-- ===== src/Base/Decimal.antt =====
-- Numbers in decimal, as the `%d` of `fmt` and `strconv.Itoa` print them, for up to 20 digits.
use Prim.Native.Nat.{ℕ, zero, suc, ◌+◌, ◌/◌, ◌%◌}
use mathlib.Core.Logic.{ite}
use mathlib.Core.List.{List, [], ◌∷◌}
use native.Mathlib.Decide.{dec_lt}

show_digits : ℕ → ℕ → List ℕ → List ℕ
show_digits zero n acc = acc
show_digits (suc fuel) n acc =
    let more = show_digits fuel (n / 10) ((b'0' + n % 10) ∷ acc) in
    ite (dec_lt n 10) ((b'0' + n) ∷ acc) more

unfoldable pub show_ℕ : ℕ → List ℕ
unfolding show_digits dec_lt
show_ℕ n = show_digits 20 n []
