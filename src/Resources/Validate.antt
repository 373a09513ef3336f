-- ===== src/Resources/Validate.antt =====
-- internal/resources/validate.go: the texts that are put into shell commands. Each regular expression
-- of the file is a function on the characters of the text.
use Prim.Native.Nat.{ℕ, zero, suc}
use Prim.Native.Char.{Char, code}
use kea_dhcp_operator.Base.{
  String, Bool, true, false, not, ◌<>◌, Option, none, some, ◌==◌, ◌&&◌, ◌||◌, if◌then◌else◌, eqb,
  leb, ◌>>=◌, Result, ok, error,
}

abbrev in_range : ℕ → ℕ → Char → Bool
in_range lo hi c = leb lo (code c) && leb (code c) hi

-- [0-9]
abbrev pub is_digit : Char → Bool
is_digit c = in_range 48 57 c

abbrev pub is_char : ℕ → Char → Bool
is_char n c = eqb (code c) n

-- [a-zA-Z0-9._-]
abbrev pub is_word_char : Char → Bool
is_word_char c =
    in_range 97 122 c
    || (in_range 65 90 c || (is_digit c || (is_char 46 c || (is_char 95 c || is_char 45 c))))

-- [a-zA-Z0-9._/-]
abbrev pub is_path_char : Char → Bool
is_path_char c = is_word_char c || is_char 47 c

-- `[...]*` to the end of the text, and `^[...]+$`.
unfoldable pub all_chars : (Char → Bool) → String → Bool
all_chars test String.[] = true
all_chars test (String.◌∷◌ c s) = test c && all_chars test s

unfoldable pub some_chars : (Char → Bool) → String → Bool
unfolding all_chars
some_chars test String.[] = false
some_chars test (String.◌∷◌ c s) = all_chars test (String.◌∷◌ c s)

-- safeInterfaceRe and safeHostnameRe, and safeCommandRe.
unfoldable pub is_safe_name : String → Bool
unfolding some_chars
is_safe_name s = some_chars is_word_char s

unfoldable pub is_safe_command : String → Bool
unfolding some_chars
is_safe_command s = some_chars is_path_char s

-- `[0-9]{0,n}`, as far as it goes: what separates the numbers is no digit.
unfoldable pub skip_digits : ℕ → String → String
skip_digits zero s = s
skip_digits (suc n) String.[] = ""
skip_digits (suc n) (String.◌∷◌ c s) =
    let rest = skip_digits n s in if is_digit c then rest else String.◌∷◌ c s

-- `[0-9]{1,n+1}` and what is left.
unfoldable pub after_number : ℕ → String → Option String
unfolding skip_digits
after_number n String.[] = none
after_number n (String.◌∷◌ c s) = if is_digit c then some (skip_digits n s) else none

-- One character, by its code.
unfoldable pub after_char : ℕ → String → Option String
after_char k String.[] = none
after_char k (String.◌∷◌ c s) = if is_char k c then some s else none

-- What is left of a text after the expression of safeSubnetV4Re.
unfoldable pub after_subnet : String → Option String
unfolding after_number after_char
after_subnet s = do
  s1 ← after_number 2 s
  s2 ← after_char 46 s1
  s3 ← after_number 2 s2
  s4 ← after_char 46 s3
  s5 ← after_number 2 s4
  s6 ← after_char 46 s5
  s7 ← after_number 2 s6
  s8 ← after_char 47 s7
  after_number 1 s8

abbrev pub is_end_of : Option String → Bool
is_end_of none = false
is_end_of (some s) = s == ""

unfoldable pub is_safe_subnet : String → Bool
unfolding after_subnet
is_safe_subnet s = is_end_of (after_subnet s)

-- `ValidateNADShellInputs`: an empty text passes. The message quotes the text, and has the
-- expression.
unfoldable pub validate_nad_shell_inputs : String → String → String → Result Unit
unfolding is_safe_name is_safe_command is_safe_subnet
validate_nad_shell_inputs nad_interface nad_subnet command =
    if not (nad_interface == "") && not (is_safe_name nad_interface)
    then error
        ("invalid NAD interface name \"" <> nad_interface <> "\": must match ^[a-zA-Z0-9._-]+$")
    else if not (nad_subnet == "") && not (is_safe_subnet nad_subnet)
    then error (
        "invalid NAD subnet \"" <> nad_subnet
        <> "\": must match ^[0-9]{1,3}\\.[0-9]{1,3}\\.[0-9]{1,3}\\.[0-9]{1,3}/[0-9]{1,2}$")
    else if not (command == "") && not (is_safe_command command)
    then error ("invalid command \"" <> command <> "\": must match ^[a-zA-Z0-9._/-]+$")
    else ok tt

-- `ValidateHostname`
unfoldable pub validate_hostname : String → Result Unit
unfolding is_safe_name
validate_hostname hostname =
    if not (is_safe_name hostname)
    then error ("invalid hostname \"" <> hostname <> "\": must match ^[a-zA-Z0-9._-]+$")
    else ok tt
