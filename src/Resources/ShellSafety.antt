-- ===== src/Resources/ShellSafety.antt =====
-- What internal/resources/validate.go lets through has no character that a shell reads specially.
use Prim.Native.Nat.{ℕ, zero, suc}
use Prim.Native.Char.{Char, code}
use kea_dhcp_operator.Base.{
  String, Bool, true, false, ◌≡◌, refl, ap, Option, none, some, ◌==◌, ◌&&◌, ◌||◌, eqb, leb, ltb,
  arith, inl, inr, Bool-cases, ◌>>=◌, ok, eq_iff,
}
use kea_dhcp_operator.Resources.Validate.{
  is_word_char, is_path_char, is_digit, all_chars, some_chars, is_safe_name, is_safe_command,
  skip_digits, after_number, after_char, after_subnet, is_safe_subnet, is_end_of,
  validate_nad_shell_inputs, validate_hostname,
}

-- Codes outside of letters, digits, and - . / _: blanks, quotes, $ & ; | < > ( ) * ? [ ] \ ` { } ~ and
-- all that is not ASCII are among them.
abbrev pub is_special : ℕ → Bool
is_special k =
    ltb k 45 || ((leb 58 k && leb k 64) || ((leb 91 k && leb k 94) || (eqb k 96 || leb 123 k)))

abbrev pub contains : ℕ → String → Bool
contains k String.[] = false
contains k (String.◌∷◌ c s) = eqb (code c) k || contains k s

module _ (k : ℕ) (special : is_special k ≡ true) where
  path_char : (c : Char) → is_path_char c ≡ true → eqb (code c) k ≡ false
  path_char c h = ground (arith, special, h)

  word_char : (c : Char) → is_word_char c ≡ true → eqb (code c) k ≡ false
  word_char c h = ground (arith, special, h)

  contains-all_chars :
      (test : Char → Bool)
      → ((c : Char) → test c ≡ true → eqb (code c) k ≡ false)
      → (s : String) → all_chars test s ≡ true
      → contains k s ≡ false
  unfolding all_chars
  contains-all_chars test safe String.[] h = refl
  contains-all_chars test safe (String.◌∷◌ c s) h =
      ground (arith, h, safe c, contains-all_chars test safe s)

  contains-some_chars :
      (test : Char → Bool)
      → ((c : Char) → test c ≡ true → eqb (code c) k ≡ false)
      → (s : String) → some_chars test s ≡ true
      → contains k s ≡ false
  unfolding some_chars
  contains-some_chars test safe String.[] h = refl
  contains-some_chars test safe (String.◌∷◌ c s) h = contains-all_chars test safe (String.◌∷◌ c s) h

  contains-skip_digits :
      (n : ℕ) (s : String) → contains k (skip_digits n s) ≡ false → contains k s ≡ false
  unfolding skip_digits
  contains-skip_digits zero s h = h
  contains-skip_digits (suc n) String.[] h = refl
  contains-skip_digits (suc n) (String.◌∷◌ c s) h = elim (Bool-cases (is_digit c)) [
    | inl digit ↦ ground (arith, special, digit, h, contains-skip_digits n s)
    | inr other ↦ ground (arith, other, h)
  ]

  contains-after_number :
      (n : ℕ) (s rest : String)
      → after_number n s ≡ some rest
      → contains k rest ≡ false
      → contains k s ≡ false
  unfolding after_number
  contains-after_number n String.[] rest e h = refl
  contains-after_number n (String.◌∷◌ c s) rest e h = elim (Bool-cases (is_digit c)) [
    | inl digit ↦ ground (arith, special, digit, e, h, contains-skip_digits n s)
    | inr other ↦ ground (arith, other, e)
  ]

  contains-after_char :
      (m : ℕ) (s rest : String)
      → is_special m ≡ false
      → after_char m s ≡ some rest
      → contains k rest ≡ false
      → contains k s ≡ false
  unfolding after_char
  contains-after_char m String.[] rest plain e h = refl
  contains-after_char m (String.◌∷◌ c s) rest plain e h = ground (arith, special, plain, e, h)

  -- A step of a recognizer that skips no special character.
  abbrev Skips : (String → Option String) → Type 0
  Skips p = (s rest : String) → p s ≡ some rest → contains k rest ≡ false → contains k s ≡ false

  bound :
      (q : String → Option String) (o : Option String) (rest : String)
      → (o >>= q) ≡ some rest
      → (mid : String) × (o ≡ some mid) × (q mid ≡ some rest)
  bound q none rest e = ground (arith, e)
  bound q (some mid) rest e = (mid, refl, e)

  Skips-bind : (p q : String → Option String) → Skips p → Skips q → Skips (λ s. p s >>= q)
  Skips-bind p q skips_p skips_q s rest e h =
      let (mid, first, second) = bound q (p s) rest e in
      skips_p s mid first (skips_q mid rest second h)

  after_number-Skips : (n : ℕ) → Skips (after_number n)
  after_number-Skips = contains-after_number

  after_char-Skips : (m : ℕ) → is_special m ≡ false → Skips (after_char m)
  after_char-Skips m plain s rest = contains-after_char m s rest plain

  after_subnet-Skips : Skips after_subnet
  unfolding after_subnet
  after_subnet-Skips = Skips-bind _ _ (after_number-Skips 2) (
      Skips-bind _ _ (after_char-Skips 46 refl) (
        Skips-bind _ _ (after_number-Skips 2) (
          Skips-bind _ _ (after_char-Skips 46 refl) (
            Skips-bind _ _ (after_number-Skips 2) (
              Skips-bind _ _ (after_char-Skips 46 refl) (
                Skips-bind _ _ (after_number-Skips 2)
                  (Skips-bind _ _ (after_char-Skips 47 refl) (after_number-Skips 1))))))))

  at_end : (o : Option String) → is_end_of o ≡ true → o ≡ some ""
  at_end none h = ground (arith, h)
  at_end (some s) h = ap (λ (t : String). some t) ((eq_iff s "").0 h)

  contains-is_safe_subnet : (s : String) → is_safe_subnet s ≡ true → contains k s ≡ false
  unfolding is_safe_subnet
  contains-is_safe_subnet s h = after_subnet-Skips s "" (at_end (after_subnet s) h) refl

  contains-is_safe_name : (s : String) → is_safe_name s ≡ true → contains k s ≡ false
  unfolding is_safe_name
  contains-is_safe_name s = contains-some_chars is_word_char word_char s

  contains-is_safe_command : (s : String) → is_safe_command s ≡ true → contains k s ≡ false
  unfolding is_safe_command
  contains-is_safe_command s = contains-some_chars is_path_char path_char s

  contains-empty : (s : String) → (s == "") ≡ true → contains k s ≡ false
  contains-empty s h = rw ((eq_iff s "").0 h)

  -- An interface, a subnet and a command that are accepted, empty or not, have no character that a
  -- shell reads specially.
  pub contains-validate_nad_shell_inputs :
      (nad_interface nad_subnet command : String)
      → validate_nad_shell_inputs nad_interface nad_subnet command ≡ ok tt
      → (contains k nad_interface ≡ false)
        × (contains k nad_subnet ≡ false)
        × (contains k command ≡ false)
  unfolding validate_nad_shell_inputs
  contains-validate_nad_shell_inputs nad_interface nad_subnet command h = (
    ground (arith, h, contains-empty nad_interface, contains-is_safe_name nad_interface),
    ground (arith, h, contains-empty nad_subnet, contains-is_safe_subnet nad_subnet),
    ground (arith, h, contains-empty command, contains-is_safe_command command),
  )

  -- A hostname that is accepted has no character that a shell reads specially.
  pub contains-validate_hostname :
      (hostname : String) → validate_hostname hostname ≡ ok tt → contains k hostname ≡ false
  unfolding validate_hostname
  contains-validate_hostname hostname h = ground (arith, h, contains-is_safe_name hostname)
