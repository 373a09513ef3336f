-- ===== src/Base/Text.antt =====
-- Texts: comparison, concatenation, and the empty test of Go.
use Prim.Native.String
use Prim.Native.String.{String}
use mathlib.Core.Path.{◌≡◌, ap}
use mathlib.Core.Logic.{inl, inr}
use text.Mathlib.TextEquality.{eq_iff}
use native.Mathlib.Omega.{arith}
use kea_dhcp_operator.Base.Tests.{Bool-cases}
use mathlib.Core.Bool.{Bool, false}
use text.Mathlib.Text.{◌==◌ as text_eq}
use text.Mathlib.Text.{starts_with}
use text.Mathlib.TextPositions.{starts_with-append}
use text.Mathlib.TextLemmas

infix 50 ◌==◌
abbrev pub ◌==◌ : String → String → Bool
s == t = text_eq s t

-- `s + t` of Go, and the parts of `fmt.Sprintf` put together.
infixr 65 ◌<>◌
abbrev pub ◌<>◌ : String → String → String
s <> t = String.◌++◌ s t

pub append_cancel_left : (s t u : String) → s <> t ≡ s <> u → t ≡ u
append_cancel_left = TextLemmas.append_cancel_left

pub append_cancel_right : (s t u : String) → s <> u ≡ t <> u → s ≡ t
append_cancel_right = TextLemmas.append_cancel_right

pub append-nonempty : (s t : String) → (s == "") ≡ false → (s <> t == "") ≡ false
append-nonempty s t h = elim (Bool-cases (s <> t == "")) [
  | inl y ↦
      (let e = (TextLemmas.append-eq-nil_iff.0 ((eq_iff (s <> t) "").0 y)).0 in
        let q = (eq_iff s "").1 e in cc)
  | inr n ↦ n
]

-- A text that does not start with `p` is not `p` followed by something.
pub eq-append_other : (s p t : String) → starts_with s p ≡ false → (s == p <> t) ≡ false
eq-append_other s p t h = elim (Bool-cases (s == p <> t)) [
  | inl y ↦
      let e = (eq_iff s (p <> t)).0 y in
      let q = starts_with-append p t in cc (ap (λ u. starts_with u p) e)
  | inr n ↦ n
]

pub eq_comm : (s t : String) → (s == t) ≡ false → (t == s) ≡ false
eq_comm s t h = ground (arith, eq_iff s t, eq_iff t s)
