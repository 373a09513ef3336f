-- ===== src/Resources/StatefulSet/OrdinalNames.antt =====
-- Texts that are made from ordinals, such as the names of volumes: which of them are there, and that
-- they are distinct.
use kea_dhcp_operator.Resources.WellFormed.{is_in, are_distinct, are_all_in, is_in-append}
use native.Mathlib.Decide.{ℕ_discrete}
use kea_dhcp_operator.Base.{
  zero, suc, [], refl, ℕ, String, eq_iff, arith, false, true, List, Bool, ◌≡◌, ◌||◌, ◌==◌, ◌<◌, ◌≤◌,
  ◌++◌, ◌∷◌, ◌+◌,
}

or_true : (b : Bool) → b || true ≡ true
or_true true = refl
or_true false = refl

-- Texts that are made from ordinals, such as the names of volumes.
module _ (f : ℕ → String) (distinct : (i j : ℕ) → f i ≡ f j → i ≡ j) where
  unfoldable pub names_from : ℕ → ℕ → List String
  names_from i zero = []
  names_from i (suc n) = f i ∷ names_from (suc i) n

  pub is_in-names_from_other :
      (x : String) (i n : ℕ) (rest : List String)
      → ((k : ℕ) → (x == f k) ≡ false)
      → is_in x (names_from i n ++ rest) ≡ is_in x rest
  unfolding names_from is_in
  is_in-names_from_other x i zero rest other = refl
  is_in-names_from_other x i (suc n) rest other =
      rw (other i) (is_in-names_from_other x (suc i) n rest other)

  pub is_in-names_from_below :
      (k i n : ℕ) (rest : List String)
      → k < i
      → is_in (f k) rest ≡ false
      → is_in (f k) (names_from i n ++ rest) ≡ false
  unfolding names_from is_in
  is_in-names_from_below k i zero rest below other = other
  is_in-names_from_below k i (suc n) rest below other = ground (
    arith,
    eq_iff (f k) (f i),
    distinct k i,
    is_in-names_from_below k (suc i) n rest (omega arith) other,
  )

  pub is_in-names_from :
      (k i n : ℕ) (rest : List String)
      → i ≤ k
      → k < i + n
      → is_in (f k) (names_from i n ++ rest) ≡ true
  unfolding names_from is_in
  is_in-names_from k i zero rest from below = absurd (omega arith)
  is_in-names_from k i (suc n) rest from below = elim (ℕ_discrete k i) [
    | yes here ↦ rw here (rw ((eq_iff (f i) (f i)).1 refl))
    | no later ↦ ground (arith, is_in-names_from k (suc i) n rest (omega arith) (omega arith))
  ]

  pub are_distinct-names_from :
      (i n : ℕ) (rest : List String)
      → ((k : ℕ) → is_in (f k) rest ≡ false)
      → are_distinct rest ≡ true
      → are_distinct (names_from i n ++ rest) ≡ true
  unfolding names_from are_distinct
  are_distinct-names_from i zero rest other r = r
  are_distinct-names_from i (suc n) rest other r =
      rw (is_in-names_from_below i (suc i) n rest (omega arith) (other i))
        (are_distinct-names_from (suc i) n rest other r)

  pub are_all_in-names_from :
      (i n j m : ℕ) (before rest : List String)
      → j ≤ i
      → i + n ≤ j + m
      → are_all_in (names_from i n) (before ++ (names_from j m ++ rest)) ≡ true
  unfolding names_from are_all_in
  are_all_in-names_from i zero j m before rest from below = refl
  are_all_in-names_from i (suc n) j m before rest from below =
      rw
        (
          is_in-append (f i) before (names_from j m ++ rest),
          is_in-names_from i j m rest from (omega arith),
          or_true (is_in (f i) before),
        )
        (are_all_in-names_from (suc i) n j m before rest (omega arith) (omega arith))
