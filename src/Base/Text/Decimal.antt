-- ===== src/Base/Text/Decimal.antt =====
-- The decimal text of a number, as fmt's %d writes it, and strconv.Atoi on digits.
pub mod Laws
use Prim.Native.Nat.{ℕ, zero, suc, ◌+◌, ◌-◌, ◌*◌, ◌/◌, ◌%◌}
use Prim.Native.Char.{code}
use Prim.Native.String.{String, [], ◌∷◌}
use Prim.Native.String
use mathlib.Core.Path.{◌≡◌, refl}
use mathlib.Core.Bool.{Bool, true, false, ◌&&◌}
use mathlib.Core.Option.{Option, none, some}
use cliapp.Base.Tests.{ltb, leb, if◌then◌else◌}

-- The text of a digit; a number past 9 does not occur.
unfoldable pub digit : ℕ → String
digit zero = "0"
digit (suc zero) = "1"
digit (suc (suc zero)) = "2"
digit (suc (suc (suc zero))) = "3"
digit (suc (suc (suc (suc zero)))) = "4"
digit (suc (suc (suc (suc (suc zero))))) = "5"
digit (suc (suc (suc (suc (suc (suc zero)))))) = "6"
digit (suc (suc (suc (suc (suc (suc (suc zero))))))) = "7"
digit (suc (suc (suc (suc (suc (suc (suc (suc zero)))))))) = "8"
digit n = "9"

-- The number itself is fuel enough: a division by ten makes it smaller.
unfoldable pub itoa_from : ℕ → ℕ → String
unfolding digit
itoa_from zero n = ""
itoa_from (suc f) n =
    let shorter = itoa_from f (n / 10) in
    if ltb n 10 then digit n else String.◌++◌ shorter (digit (n % 10))

unfoldable pub itoa : ℕ → String
unfolding itoa_from
itoa n = itoa_from (suc n) n

unfoldable pub atoi_from : ℕ → String → Option ℕ
atoi_from acc [] = some acc
atoi_from acc (c ∷ s) =
    let rest = atoi_from (acc * 10 + (code c - 48)) s in
    if leb 48 (code c) && leb (code c) 57 then rest else none

abbrev pub is_empty : String → Bool
is_empty [] = true
is_empty (c ∷ s) = false

unfoldable pub atoi : String → Option ℕ
unfolding atoi_from
atoi s = if is_empty s then none else atoi_from 0 s
