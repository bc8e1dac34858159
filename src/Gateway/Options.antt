-- ===== src/Gateway/Options.antt =====
-- Command lines of the gateway that are made of whole options.
use i_mx6ull_water_qualit.Base.{◌≡◌, refl, false, List, [], ◌∷◌, ℕ, some}
use i_mx6ull_water_qualit.Base.Int.{ℤ}
use i_mx6ull_water_qualit.Gateway.Args.{
  Parsed, goes_on, default_test_iterations, flag_c, flag_test, str_to_int, is_option, parse_args,
}

-- `-c path`, `--test number` and `--test`
pub data Choice : Type 0 where
  config : List ℕ → Choice
  test_number : List ℕ → Choice
  test_default : Choice

abbrev pub written : List Choice → List (List ℕ)
written [] = []
written (config path ∷ choices) = flag_c ∷ path ∷ written choices
written (test_number text ∷ choices) = flag_test ∷ text ∷ written choices
written (test_default ∷ choices) = flag_test ∷ written choices

-- the last choice of each kind holds
abbrev pub chosen : List Choice → List ℕ → ℤ → Parsed
chosen [] path iterations = goes_on path iterations
chosen (config other ∷ choices) path iterations = chosen choices other iterations
chosen (test_number text ∷ choices) path iterations =
    chosen choices path (str_to_int (some text) default_test_iterations)
chosen (test_default ∷ choices) path iterations = chosen choices path default_test_iterations

-- A number does not start with a dash.
abbrev pub AreNumbers : List Choice → Type 0
AreNumbers [] = Unit
AreNumbers (config path ∷ choices) = AreNumbers choices
AreNumbers (test_number text ∷ choices) = (is_option text ≡ false) × AreNumbers choices
AreNumbers (test_default ∷ choices) = AreNumbers choices

-- A command line of such options, the numbers without a dash in front, is read option by option,
-- the paths whatever they are, and of each kind the last holds.
pub parse_args-written :
    (choices : List Choice) (path : List ℕ) (iterations : ℤ)
    → AreNumbers choices
    → parse_args (written choices) path iterations ≡ chosen choices path iterations
unfolding parse_args
parse_args-written [] path iterations numbers = refl
parse_args-written (config other ∷ choices) path iterations numbers =
    parse_args-written choices other iterations numbers
parse_args-written (test_number text ∷ choices) path iterations numbers =
    rw numbers.0
      (parse_args-written choices path (str_to_int (some text) default_test_iterations) numbers.1)
parse_args-written (test_default ∷ []) path iterations numbers = refl
parse_args-written (test_default ∷ config other ∷ choices) path iterations numbers =
    parse_args-written choices other default_test_iterations numbers
parse_args-written (test_default ∷ test_number text ∷ choices) path iterations numbers =
    parse_args-written (test_number text ∷ choices) path default_test_iterations numbers
parse_args-written (test_default ∷ test_default ∷ choices) path iterations numbers =
    parse_args-written (test_default ∷ choices) path default_test_iterations numbers
