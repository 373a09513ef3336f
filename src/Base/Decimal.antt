-- ===== src/Base/Decimal.antt =====
-- `%d` of fmt.Sprintf: decimal numerals.
use Prim.Native.Nat.{ℕ, zero, suc, ◌+◌, ◌-◌, ◌*◌, ◌/◌, ◌%◌, ◌<◌}
use Prim.Native.Char.{Char, code}
use Prim.Native.String.{String}
use mathlib.Core.Path.{◌≡◌, refl, sym, ap, ◌∙◌}
use mathlib.Core.Logic.{inl, inr}
use native.Mathlib.Omega.{arith}
use kea_dhcp_operator.Base.Tests.{ltb, if◌then◌else◌, Bool-cases}
use kea_dhcp_operator.Base.Text.{◌<>◌}
use kea_dhcp_operator.Base.Int.{ℤ, pos, negsuc}

-- The digit of a number below ten.
abbrev digit : ℕ → Char
digit zero = "0"
digit (suc zero) = "1"
digit (suc (suc zero)) = "2"
digit (suc (suc (suc zero))) = "3"
digit (suc (suc (suc (suc zero)))) = "4"
digit (suc (suc (suc (suc (suc zero))))) = "5"
digit (suc (suc (suc (suc (suc (suc zero)))))) = "6"
digit (suc (suc (suc (suc (suc (suc (suc zero))))))) = "7"
digit (suc (suc (suc (suc (suc (suc (suc (suc zero)))))))) = "8"
digit (suc (suc (suc (suc (suc (suc (suc (suc (suc n))))))))) = "9"

-- The digits of `n`, put before `out`.
digits : ℕ → ℕ → String → String
digits zero n out = out
digits (suc fuel) n out =
    let rest = digits fuel (n / 10) (String.◌∷◌ (digit (n % 10)) out) in
    if ltb n 10 then String.◌∷◌ (digit n) out else rest

-- A number has at most as many digits as its value, and one more.
unfoldable pub decimal : ℕ → String
unfolding digits
decimal n = digits (suc n) n ""

unfoldable pub decimal_ℤ : ℤ → String
unfolding decimal
decimal_ℤ (pos n) = decimal n
decimal_ℤ (negsuc n) = "-" <> decimal (suc n)

-- Reads a numeral back, from the number that stands before it.
abbrev value : ℕ → String → ℕ
value n String.[] = n
value n (String.◌∷◌ c s) = value (n * 10 + (code c - 48)) s

code-digit : (n : ℕ) → n < 10 → code (digit n) ≡ 48 + n
code-digit zero h = refl
code-digit (suc zero) h = refl
code-digit (suc (suc zero)) h = refl
code-digit (suc (suc (suc zero))) h = refl
code-digit (suc (suc (suc (suc zero)))) h = refl
code-digit (suc (suc (suc (suc (suc zero))))) h = refl
code-digit (suc (suc (suc (suc (suc (suc zero)))))) h = refl
code-digit (suc (suc (suc (suc (suc (suc (suc zero))))))) h = refl
code-digit (suc (suc (suc (suc (suc (suc (suc (suc zero)))))))) h = refl
code-digit (suc (suc (suc (suc (suc (suc (suc (suc (suc n))))))))) h = ground arith

value-digit :
    (n d m : ℕ) (out : String)
    → d < 10
    → n * 10 + d ≡ m
    → value n (String.◌∷◌ (digit d) out) ≡ value m out
value-digit n d m out h e = ap (λ (k : ℕ). value k out) (omega (arith, code-digit d h))

value-digits : (fuel n : ℕ) (out : String) → n < fuel → value 0 (digits fuel n out) ≡ value n out
unfolding digits
value-digits zero n out h = elim h [ ]
value-digits (suc fuel) n out h = elim (Bool-cases (ltb n 10)) [
  | inl small ↦ rw small (value-digit 0 n n out (ground arith) (omega arith))
  | inr large ↦ rw large (
      value-digits fuel (n / 10) (String.◌∷◌ (digit (n % 10)) out) (ground arith)
      ∙ value-digit (n / 10) (n % 10) n out (omega arith) (omega arith))
]

value-decimal : (n : ℕ) → value 0 (decimal n) ≡ n
unfolding decimal
value-decimal n = value-digits (suc n) n "" (omega arith)

-- Different numbers have different numerals.
pub decimal-injective : (m n : ℕ) → decimal m ≡ decimal n → m ≡ n
decimal-injective m n e = sym (value-decimal m) ∙ ap (λ (s : String). value 0 s) e ∙ value-decimal n

decimal_runs : decimal 65536 ≡ "65536"
unfolding decimal
decimal_runs = refl
