-- ===== src/Gateway/Args.antt =====
-- The command line of app/src/main.c. An argument is a list of bytes.
use i_mx6ull_water_qualit.Base.{
  ℕ, ◌+◌, ◌-◌, ◌*◌, ◌^◌, ◌==◌, ltb, leb, if◌then◌else◌, ◌&&◌, ◌||◌, Bool, true, false, List, [],
  ◌∷◌, Option, none, some,
}
use i_mx6ull_water_qualit.Base.Int.{ℤ, pos, negsuc}
use i_mx6ull_water_qualit.Config.Text.{str_eq, trim_front}

-- What `main` goes on with, or its exit code.
pub data Parsed : Type 0 where
  exits : ℕ → Parsed
  goes_on : List ℕ → ℤ → Parsed

abbrev pub default_test_iterations : ℤ
default_test_iterations = pos 10

-- "-c", "--config", "-h", "--help", "-v", "--version", "--test"
abbrev pub flag_c : List ℕ
flag_c = 45 ∷ 99 ∷ []

abbrev pub flag_config : List ℕ
flag_config = 45 ∷ 45 ∷ 99 ∷ 111 ∷ 110 ∷ 102 ∷ 105 ∷ 103 ∷ []

abbrev pub flag_h : List ℕ
flag_h = 45 ∷ 104 ∷ []

abbrev pub flag_help : List ℕ
flag_help = 45 ∷ 45 ∷ 104 ∷ 101 ∷ 108 ∷ 112 ∷ []

abbrev pub flag_v : List ℕ
flag_v = 45 ∷ 118 ∷ []

abbrev pub flag_version : List ℕ
flag_version = 45 ∷ 45 ∷ 118 ∷ 101 ∷ 114 ∷ 115 ∷ 105 ∷ 111 ∷ 110 ∷ []

abbrev pub flag_test : List ℕ
flag_test = 45 ∷ 45 ∷ 116 ∷ 101 ∷ 115 ∷ 116 ∷ []

abbrev pub default_config_path : List ℕ
default_config_path =
    46 ∷ 46 ∷ 47 ∷ 99 ∷ 111 ∷ 110 ∷ 102 ∷ 105 ∷ 103 ∷ 47 ∷ 103 ∷ 97 ∷ 116 ∷ 101 ∷ 119 ∷ 97 ∷ 121
    ∷ 46 ∷ 99 ∷ 111 ∷ 110 ∷ 102 ∷ []

-- `strtol` in base 10 on a `long` of 32 bits: the value, and the text after the number, `none` if
-- there is no number.
abbrev is_digit : ℕ → Bool
is_digit b = leb 48 b && leb b 57

abbrev digits_from : ℕ → List ℕ → ℕ × List ℕ
digits_from n [] = (n, [])
digits_from n (b ∷ s) =
    let rest = digits_from (n * 10 + (b - 48)) s in if is_digit b then rest else (n, b ∷ s)

abbrev starts_number : List ℕ → Bool
starts_number [] = false
starts_number (b ∷ s) = is_digit b

abbrev clamp : Bool → ℕ → ℤ
clamp true n =
    if n == 0 then pos 0 else (if ltb (2 ^ 31) n then negsuc (2 ^ 31 - 1) else negsuc (n - 1))
clamp false n = if ltb n (2 ^ 31) then pos n else pos (2 ^ 31 - 1)

abbrev unsigned : Bool → List ℕ → Option (ℤ × List ℕ)
unsigned negative s =
    let (n, rest) = digits_from 0 s in
    if starts_number s then some (clamp negative n, rest) else none

abbrev signed : List ℕ → Option (ℤ × List ℕ)
signed [] = none
signed (b ∷ s) =
    if b == 45
    then unsigned true s
    else (if b == 43 then unsigned false s else unsigned false (b ∷ s))

unfoldable pub strtol : List ℕ → Option (ℤ × List ℕ)
strtol s = signed (trim_front s)

abbrev is_end : List ℕ → Bool
is_end [] = true
is_end (b ∷ s) = false

unfoldable pub str_to_int : Option (List ℕ) → ℤ → ℤ
str_to_int none default_val = default_val
str_to_int (some str) default_val = elim (strtol str) [
  | none ↦ default_val
  | some found ↦ (if is_end found.1 then found.0 else default_val)
]

abbrev pub is_option : List ℕ → Bool
is_option [] = false
is_option (b ∷ s) = b == 45

-- The loop over the arguments that are left.
unfoldable pub parse_args : List (List ℕ) → List ℕ → ℤ → Parsed
parse_args [] config_path test_iterations = goes_on config_path test_iterations
parse_args (arg ∷ []) config_path test_iterations =
    if str_eq arg flag_c || str_eq arg flag_config
    then exits 1
    else (if str_eq arg flag_h || str_eq arg flag_help
        then exits 0
        else (if str_eq arg flag_v || str_eq arg flag_version
            then exits 0
            else (if str_eq arg flag_test
                then goes_on config_path default_test_iterations
                else exits 1)))
parse_args (arg ∷ next ∷ rest) config_path test_iterations =
    let configured = parse_args rest next test_iterations in
    let default_test = parse_args (next ∷ rest) config_path default_test_iterations in
    let number_test =
      parse_args rest config_path (str_to_int (some next) default_test_iterations) in
    if str_eq arg flag_c || str_eq arg flag_config
    then configured
    else (if str_eq arg flag_h || str_eq arg flag_help
        then exits 0
        else (if str_eq arg flag_v || str_eq arg flag_version
            then exits 0
            else (if str_eq arg flag_test
                then (if is_option next then default_test else number_test)
                else exits 1)))
