-- ===== src/Base/Text/Decimal/Laws.antt =====
-- Writing a number and reading it again.
use Prim.Native.Nat.{ℕ, zero, suc, ◌+◌, ◌-◌, ◌*◌, ◌/◌, ◌%◌, ◌<◌}
use Prim.Native.Char.{code}
use Prim.Native.String.{String, [], ◌∷◌}
use Prim.Native.String
use Prim.Native.String.append
use mathlib.Core.Path.{◌≡◌, refl, ap, ◌∙◌}
use mathlib.Core.Bool.{false}
use mathlib.Core.Option.{Option, none, some}
use native.Mathlib.Omega.{arith}
use cliapp.Base.Text.Decimal.{digit, itoa_from, itoa, atoi_from, atoi, is_empty}

abbrev then_digit : ℕ → Option ℕ → Option ℕ
then_digit d none = none
then_digit d (some n) = some (n * 10 + d)

atoi_from-digit : (acc d : ℕ) → d < 10 → atoi_from acc (digit d) ≡ some (acc * 10 + d)
unfolding atoi_from digit
atoi_from-digit acc zero h = refl
atoi_from-digit acc (suc zero) h = refl
atoi_from-digit acc (suc (suc zero)) h = refl
atoi_from-digit acc (suc (suc (suc zero))) h = refl
atoi_from-digit acc (suc (suc (suc (suc zero)))) h = refl
atoi_from-digit acc (suc (suc (suc (suc (suc zero))))) h = refl
atoi_from-digit acc (suc (suc (suc (suc (suc (suc zero)))))) h = refl
atoi_from-digit acc (suc (suc (suc (suc (suc (suc (suc zero))))))) h = refl
atoi_from-digit acc (suc (suc (suc (suc (suc (suc (suc (suc zero)))))))) h = refl
atoi_from-digit acc (suc (suc (suc (suc (suc (suc (suc (suc (suc zero))))))))) h = refl
atoi_from-digit acc (suc (suc (suc (suc (suc (suc (suc (suc (suc (suc n)))))))))) h = ground arith

atoi_from-append :
    (s : String) (acc d : ℕ)
    → d < 10
    → atoi_from acc (String.◌++◌ s (digit d)) ≡ then_digit d (atoi_from acc s)
unfolding atoi_from
atoi_from-append [] acc d h = ap (atoi_from acc) (append.nil (digit d)) ∙ atoi_from-digit acc d h
atoi_from-append (c ∷ s) acc d h =
    ap (atoi_from acc) (append.cons c s (digit d))
    ∙ ground (arith, atoi_from-append s (acc * 10 + (code c - 48)) d h)

atoi_from-itoa_from : (f n : ℕ) → n < f → atoi_from 0 (itoa_from f n) ≡ some n
unfolding itoa_from
atoi_from-itoa_from zero n h = ground arith
atoi_from-itoa_from (suc f) n h = ground (
  arith,
  atoi_from-digit 0 n,
  atoi_from-append (itoa_from f (n / 10)) 0 (n % 10),
  atoi_from-itoa_from f (n / 10),
)

is_empty-digit : (d : ℕ) → is_empty (digit d) ≡ false
unfolding digit
is_empty-digit zero = refl
is_empty-digit (suc zero) = refl
is_empty-digit (suc (suc zero)) = refl
is_empty-digit (suc (suc (suc zero))) = refl
is_empty-digit (suc (suc (suc (suc zero)))) = refl
is_empty-digit (suc (suc (suc (suc (suc zero))))) = refl
is_empty-digit (suc (suc (suc (suc (suc (suc zero)))))) = refl
is_empty-digit (suc (suc (suc (suc (suc (suc (suc zero))))))) = refl
is_empty-digit (suc (suc (suc (suc (suc (suc (suc (suc zero)))))))) = refl
is_empty-digit (suc (suc (suc (suc (suc (suc (suc (suc (suc n))))))))) = refl

is_empty-append_digit : (s : String) (d : ℕ) → is_empty (String.◌++◌ s (digit d)) ≡ false
is_empty-append_digit [] d = ap is_empty (append.nil (digit d)) ∙ is_empty-digit d
is_empty-append_digit (c ∷ s) d = ap is_empty (append.cons c s (digit d))

is_empty-itoa : (n : ℕ) → is_empty (itoa n) ≡ false
unfolding itoa itoa_from
is_empty-itoa n =
    ground (arith, is_empty-digit n, is_empty-append_digit (itoa_from n (n / 10)) (n % 10))

-- A number that is written in decimals is read as itself.
pub atoi-itoa : (n : ℕ) → atoi (itoa n) ≡ some n
unfolding atoi itoa
atoi-itoa n = ground (arith, is_empty-itoa n, atoi_from-itoa_from (suc n) n)
