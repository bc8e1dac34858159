-- ===== src/Config/Settings.antt =====
-- What a file of settings sets.
use i_mx6ull_water_qualit.Base.{
  ℕ, ◌-◌, ◌<◌, ◌≡◌, refl, sym, ap, ◌∙◌, arith, List, [], ◌∷◌, ◌++◌, Option, some, length, All,
  All-append, append_assoc,
}
use i_mx6ull_water_qualit.Base.Int.{pos}
use i_mx6ull_water_qualit.Config.{GatewayConfig, Key, key_name}
use i_mx6ull_water_qualit.Config.Text.{trim_front, keep_end, trim_end, trim, c_string, fgets_all}
use i_mx6ull_water_qualit.Config.Load.{
  config_set_default, assign, config_line, config_lines, config_check, config_load,
}
use i_mx6ull_water_qualit.Config.Names.{IsPlain, Named, name-Named}
use i_mx6ull_water_qualit.Config.Ranges.{config_load_opened}

-- `key = value`, as in config/gateway.conf
abbrev pub setting : Key → List ℕ → List ℕ
setting k value = key_name k ++ 32 ∷ 61 ∷ 32 ∷ value

-- A value that a line can carry: not empty, no space at its ends, no NUL and no newline.
pub record Clean (value : List ℕ) : Type 0 where
  pub first : ℕ
  pub rest : List ℕ
  pub shape : value ≡ first ∷ rest
  pub trimmed_front : trim_front value ≡ value
  pub trimmed_end : trim_end value ≡ value
  pub plain : All IsPlain value

c_string_plain : (s : List ℕ) → All IsPlain s → c_string (s ++ 10 ∷ []) ≡ s ++ 10 ∷ []
unfolding c_string
c_string_plain [] p = refl
c_string_plain (b ∷ s) p = ground (arith, c_string_plain s p.1)

trim_end_newline : (s : List ℕ) → trim_end (s ++ 10 ∷ []) ≡ trim_end s
unfolding trim_end
trim_end_newline [] = refl
trim_end_newline (b ∷ s) = ap (keep_end b) (trim_end_newline s)

keep_end_cons : (x b : ℕ) (s r : List ℕ) → keep_end x (s ++ b ∷ r) ≡ x ∷ s ++ b ∷ r
keep_end_cons x b [] r = refl
keep_end_cons x b (c ∷ s) r = refl

trim_end-append : (s t r : List ℕ) (b : ℕ) → trim_end t ≡ b ∷ r → trim_end (s ++ t) ≡ s ++ b ∷ r
unfolding trim_end
trim_end-append [] t r b e = e
trim_end-append (x ∷ s) t r b e =
    ap (keep_end x) (trim_end-append s t r b e) ∙ keep_end_cons x b s r

setting-plain : (k : Key) (value : List ℕ) → Clean value → All IsPlain (setting k value)
setting-plain k value c =
    All-append IsPlain (key_name k) (32 ∷ 61 ∷ 32 ∷ value) (Named.plain (name-Named k)) (
      (omega arith, omega arith),
      ((omega arith, omega arith), ((omega arith, omega arith), c.plain)),
    )

setting_trimmed :
    (k : Key) (value : List ℕ)
    → Clean value
    → trim (c_string (setting k value ++ 10 ∷ [])) ≡ setting k value
unfolding trim
setting_trimmed k value c =
    ap (λ s. trim_end (trim_front s)) (c_string_plain (setting k value) (setting-plain k value c))
    ∙ ap trim_end front
    ∙ trim_end_newline (setting k value)
    ∙ trim_end-append (key_name k) (32 ∷ 61 ∷ 32 ∷ value) (61 ∷ 32 ∷ c.first ∷ c.rest) 32
        (trim_end-append (32 ∷ 61 ∷ 32 ∷ []) value c.rest c.first (c.trimmed_end ∙ c.shape))
    ∙ ap (λ v. key_name k ++ 32 ∷ 61 ∷ 32 ∷ v) (sym c.shape)
  where
    line : setting k value ++ 10 ∷ [] ≡ key_name k ++ 32 ∷ 61 ∷ 32 ∷ (value ++ 10 ∷ [])
    line = append_assoc (key_name k) (32 ∷ 61 ∷ 32 ∷ value) (10 ∷ [])

    front : trim_front (setting k value ++ 10 ∷ []) ≡ setting k value ++ 10 ∷ []
    front =
        ap trim_front line
        ∙ Named.starts (name-Named k) (32 ∷ 61 ∷ 32 ∷ (value ++ 10 ∷ []))
        ∙ sym line

value_trimmed : (value : List ℕ) → Clean value → trim (32 ∷ value) ≡ value
unfolding trim trim_front
value_trimmed value c = ap trim_end c.trimmed_front ∙ c.trimmed_end

config_line-setting :
    (k : Key) (value : List ℕ) (cfg : GatewayConfig)
    → Clean value
    → config_line (setting k value ++ 10 ∷ []) cfg ≡ assign k value cfg
unfolding config_line
config_line-setting k value cfg c = rw (
  setting_trimmed k value c,
  Named.kept n (32 ∷ 61 ∷ 32 ∷ value),
  Named.splits n (32 ∷ value),
  Named.trims n,
  Named.found n,
  value_trimmed value c,
)
  where
    n : Named k
    n = name-Named k

fgets_line :
    (line file acc : List ℕ) (room : ℕ)
    → All IsPlain line
    → length line < room
    → fgets_all room acc (line ++ 10 ∷ file) ≡ (acc ++ (line ++ 10 ∷ [])) ∷ fgets_all 255 [] file
unfolding fgets_all
fgets_line [] file acc room p h = refl
fgets_line (b ∷ line) file acc room p h = ground (
  arith,
  fgets_line line file (acc ++ b ∷ []) (room - 1) p.1 (omega arith),
  append_assoc acc (b ∷ []) (line ++ 10 ∷ []),
)

-- a file of settings, one to a line
pub render : List (Key × List ℕ) → List ℕ
render [] = []
render (s ∷ settings) = setting s.0 s.1 ++ 10 ∷ render settings

unfoldable pub apply : List (Key × List ℕ) → GatewayConfig → GatewayConfig
apply [] cfg = cfg
apply (s ∷ settings) cfg = apply settings (assign s.0 s.1 cfg)

abbrev pub IsSettings : List (Key × List ℕ) → Type 0
IsSettings [] = Unit
IsSettings (s ∷ settings) = Clean s.1 × (length (setting s.0 s.1) < 255) × IsSettings settings

config_lines-render :
    (settings : List (Key × List ℕ)) (cfg : GatewayConfig)
    → IsSettings settings
    → config_lines (fgets_all 255 [] (render settings)) cfg ≡ apply settings cfg
unfolding render apply config_lines fgets_all
config_lines-render [] cfg ok = refl
config_lines-render (s ∷ settings) cfg ok =
    ap (λ lines. config_lines lines cfg)
      (fgets_line (setting s.0 s.1) (render settings) [] 255 (setting-plain s.0 s.1 ok.0) ok.1)
    ∙ ap (config_lines (fgets_all 255 [] (render settings))) (config_line-setting s.0 s.1 cfg ok.0)
    ∙ config_lines-render settings (assign s.0 s.1 cfg) ok.2

-- A file of settings `key = value`, one to a line of fewer than 255 bytes, whose values are not
-- empty, have no spaces at their ends and no NUL or newline, is loaded with result 0; the
-- configuration is the default one with the settings assigned in their order and then checked.
pub config_load-render :
    {P : Type 0} (path : P) (cfg set : GatewayConfig) (opened : P → Option (List ℕ))
    (settings : List (Key × List ℕ))
    → config_set_default (some cfg) ≡ some set
    → opened path ≡ some (render settings)
    → IsSettings settings
    → config_load (some path) (some cfg) opened ≡ (pos 0, some (config_check (apply settings set)))
config_load-render path cfg set opened settings e o ok =
    config_load_opened path cfg set (render settings) opened e o
    ∙ ap (λ c. (pos 0, some (config_check c))) (config_lines-render settings set ok)
