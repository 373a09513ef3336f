-- ===== src/Json/Read.antt =====
-- The inverse direction: reading a field at the type that the API structs give its key. A missing
-- key is the empty value of its type, as `json:",omitempty"` has it; a value of another type is an
-- error.
use kea_dhcp_operator.Base.{
  String, Bool, ◌≡◌, refl, Option, none, some, List, [], ◌∷◌, map, ap, arith, eq_iff, or_else-none,
  All, if◌then◌else◌, ◌>>=◌,
}
use kea_dhcp_operator.Base.Int.{ℤ}
use kea_dhcp_operator.Json.Value.{
  Json, boolean, number, text, array, object, Items, nil, cons, Object, items,
}
use kea_dhcp_operator.Json.Laws.{pointed, nonempty, any_of}

abbrev pub as_text : Json → Option String
as_text (text s) = some s
as_text _ = none

abbrev pub as_number : Json → Option ℤ
as_number (number n) = some n
as_number _ = none

abbrev pub as_boolean : Json → Option Bool
as_boolean (boolean b) = some b
as_boolean _ = none

abbrev pub as_object : Json → Option Object
as_object (object m) = some m
as_object _ = none

module _ {ℓ} {A : Type ℓ} (read : Json → Option A) where
  abbrev pub read_items : Items → Option (List A)
  read_items nil = some []
  read_items (cons v vs) = do x ← read v; xs ← read_items vs; some (x ∷ xs)

  abbrev pub as_list : Json → Option (List A)
  as_list (array vs) = read_items vs
  as_list _ = none

  -- A field that must be there.
  abbrev pub required : Option Json → Option A
  required none = none
  required (some v) = read v

  -- A pointer.
  unfoldable pub optional : Option Json → Option (Option A)
  optional none = some none
  optional (some v) = do x ← read v; some (some x)

  -- A slice.
  unfoldable pub listed : Option Json → Option (List A)
  listed none = some []
  listed (some v) = as_list v

unfoldable pub optional_text : Option Json → Option String
optional_text none = some ""
optional_text (some v) = as_text v

pub optional_text-nonempty : (s : String) → optional_text (nonempty s) ≡ some s
unfolding optional_text nonempty
optional_text-nonempty s = ground (arith, eq_iff s "")

pub optional_text-text : (s : String) → optional_text (some (text s)) ≡ some s
unfolding optional_text
optional_text-text s = refl

-- What a printer writes a reader that inverts it reads back.
module _ {ℓ} {A : Type ℓ} (read : Json → Option A) (print : A → Json)
    (inverse : (a : A) → read (print a) ≡ some a) where
  pub optional-pointed : (o : Option A) → optional read (pointed print o) ≡ some o
  unfolding optional
  optional-pointed none = refl
  optional-pointed (some a) = ap (λ (r : Option A). r >>= λ x. some (some x)) (inverse a)

  pub read_items-items : (xs : List A) → read_items read (items print xs) ≡ some xs
  read_items-items [] = refl
  read_items-items (x ∷ xs) = rw (inverse x, read_items-items xs)

  pub listed-any_of : (xs : List A) → listed read (any_of print xs) ≡ some xs
  unfolding listed
  listed-any_of [] = refl
  listed-any_of (x ∷ xs) = read_items-items (x ∷ xs)

-- The readers of the plain types invert their printers.
pub optional-number : (o : Option ℤ) → optional as_number (pointed number o) ≡ some o
optional-number = optional-pointed as_number number (λ n. refl)

pub optional-boolean : (o : Option Bool) → optional as_boolean (pointed boolean o) ≡ some o
optional-boolean = optional-pointed as_boolean boolean (λ b. refl)

pub optional-text : (o : Option String) → optional as_text (pointed text o) ≡ some o
optional-text = optional-pointed as_text text (λ s. refl)

pub listed-texts : (xs : List String) → listed as_text (any_of text xs) ≡ some xs
listed-texts = listed-any_of as_text text (λ s. refl)

pub read_items-texts : (xs : List String) → read_items as_text (items text xs) ≡ some xs
read_items-texts = read_items-items as_text text (λ s. refl)

pub ruleset read_laws = (
  or_else-none, optional_text-nonempty, optional_text-text, optional-number, optional-boolean,
  optional-text, listed-texts, read_items-texts,
)

-- The same where the reader inverts the printer only at the values with a property.
module _ {ℓ κ} {A : Type ℓ} (read : Json → Option A) (print : A → Json) (P : A → Type κ)
    (inverse : (a : A) → P a → read (print a) ≡ some a) where
  read_items-All : (xs : List A) → All P xs → read_items read (items print xs) ≡ some xs
  read_items-All [] h = refl
  read_items-All (x ∷ xs) h = rw (inverse x h.0, read_items-All xs h.1)

  pub listed-any_of-All : (xs : List A) → All P xs → listed read (any_of print xs) ≡ some xs
  unfolding listed
  listed-any_of-All [] h = refl
  listed-any_of-All (x ∷ xs) h = read_items-All (x ∷ xs) h

-- The same where a part of the value is not printed: what is read is what `strip` leaves.
module _ {ℓ} {A : Type ℓ} (read : Json → Option A) (print : A → Json) (strip : A → A)
    (inverse : (a : A) → read (print a) ≡ some (strip a)) where
  pub listed-any_of_strip : (xs : List A) → listed read (any_of print xs) ≡ some (map strip xs)
  listed-any_of_strip [] = unfold listed in refl
  listed-any_of_strip (x ∷ xs) = unfold listed in items_strip (x ∷ xs)
    where
      items_strip : (xs : List A) → read_items read (items print xs) ≡ some (map strip xs)
      items_strip [] = refl
      items_strip (x ∷ xs) = rw (inverse x, items_strip xs)
