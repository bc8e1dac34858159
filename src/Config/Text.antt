-- ===== src/Config/Text.antt =====
-- The C strings of app/src/config.c: lists of bytes without their final NUL.
use i_mx6ull_water_qualit.Base.{
  ℕ, ◌+◌, ◌-◌, ◌*◌, ◌==◌, leb, if◌then◌else◌, ◌&&◌, ◌||◌, Bool, true, false, List, [], ◌∷◌, ◌++◌,
  Option, none, some, take,
}
use i_mx6ull_water_qualit.Base.Int.{ℤ, pos, negsuc}

-- `isspace` of the C locale
abbrev pub isspace : ℕ → Bool
isspace b = b == 32 || (leb 9 b && leb b 13)

-- the first loop of `trim`
unfoldable pub trim_front : List ℕ → List ℕ
trim_front [] = []
trim_front (b ∷ s) = if isspace b then trim_front s else b ∷ s

abbrev pub keep_end : ℕ → List ℕ → List ℕ
keep_end b [] = if isspace b then [] else b ∷ []
keep_end b (c ∷ kept) = b ∷ c ∷ kept

-- The second loop of `trim` walks back from the end. Its test `end > str` keeps the first byte,
-- which is no space after the first loop.
unfoldable pub trim_end : List ℕ → List ℕ
trim_end [] = []
trim_end (b ∷ s) = keep_end b (trim_end s)

unfoldable pub trim : List ℕ → List ℕ
trim s = trim_end (trim_front s)

-- `snprintf(dst, dst_size, "%s", src)` cuts at the size of `dst`.
unfoldable pub copy_string : List ℕ → ℕ → List ℕ → List ℕ
copy_string dst dst_size src = if dst_size == 0 then dst else take (dst_size - 1) src

-- `strcmp(s, t) == 0`
abbrev pub str_eq : List ℕ → List ℕ → Bool
str_eq [] [] = true
str_eq [] (c ∷ t) = false
str_eq (b ∷ s) [] = false
str_eq (b ∷ s) (c ∷ t) = b == c && str_eq s t

-- the digits of `atoi`; a value outside of `int` is undefined in C
abbrev digits : ℕ → List ℕ → ℕ
digits n [] = n
digits n (b ∷ s) =
    let rest = digits (n * 10 + (b - 48)) s in if leb 48 b && leb b 57 then rest else n

negated : ℕ → ℤ
negated n = if n == 0 then pos 0 else negsuc (n - 1)

atoi_sign : List ℕ → ℤ
atoi_sign [] = pos 0
atoi_sign (b ∷ s) =
    if b == 45
    then negated (digits 0 s)
    else (if b == 43 then pos (digits 0 s) else pos (digits 0 (b ∷ s)))

unfoldable pub atoi : List ℕ → ℤ
unfolding atoi_sign negated
atoi s = atoi_sign (trim_front s)

-- `strchr(s, '=')`: the text before the first `=` and the text after it
unfoldable pub split_equal : List ℕ → Option (List ℕ × List ℕ)
split_equal [] = none
split_equal (b ∷ s) =
    let rest = split_equal s in
    if b == 61
    then some ([], s)
    else elim rest [ none ↦ none | some parts ↦ some (b ∷ parts.0, parts.1) ]

-- A byte of value 0 ends a string.
unfoldable pub c_string : List ℕ → List ℕ
c_string [] = []
c_string (b ∷ s) = if b == 0 then [] else b ∷ c_string s

-- what is read at the end of the file
abbrev last_line : List ℕ → List (List ℕ)
last_line [] = []
last_line (b ∷ line) = (b ∷ line) ∷ []

-- The lines that `fgets` reads into an array of 256 bytes: each up to its newline, or 255 bytes of
-- it. `room` is what is left of the array, `line` what stands in it.
unfoldable pub fgets_all : ℕ → List ℕ → List ℕ → List (List ℕ)
fgets_all room line [] = last_line line
fgets_all room line (b ∷ file) =
    let next = fgets_all 255 [] file in
    let more = fgets_all (room - 1) (line ++ b ∷ []) file in
    if b == 10 || leb room 1 then (line ++ b ∷ []) ∷ next else more
