-- ===== src/Prelude/Texts.antt =====
-- Go's `strings` on native texts: white space, trimming, joining, and the byte order of `<`.
use Prim.Native.Nat.{ℕ}
use Prim.Native.Char.{code}
use Prim.Native.String.{String, compare, ◌++◌}
use mathlib.Core.Bool.{Bool, true, false, ◌&&◌, ◌||◌}
use mathlib.Core.List.{List, [], ◌∷◌}
use release_engine.Prelude.Tests.{eqb, leb, if◌then◌else◌}
use text.Mathlib.Text.{◌==◌, is_le, is_lt}

-- `unicode.IsSpace`
pub is_space : ℕ → Bool
is_space c =
    (leb 9 c && leb c 13)
    || eqb c 32
    || eqb c 0x85
    || eqb c 0xa0
    || eqb c 0x1680
    || (leb 0x2000 c && leb c 0x200a)
    || eqb c 0x2028
    || eqb c 0x2029
    || eqb c 0x202f
    || eqb c 0x205f
    || eqb c 0x3000

trim_left : String → String
unfolding is_space
trim_left String.[] = String.[]
trim_left (String.◌∷◌ c s) = if is_space (code c) then trim_left s else String.◌∷◌ c s

trim_right : String → String
unfolding is_space
trim_right String.[] = String.[]
trim_right (String.◌∷◌ c s) =
    let rest = trim_right s in
    if is_space (code c) && rest == String.[] then String.[] else String.◌∷◌ c rest

-- `strings.TrimSpace`
unfoldable pub trim_space : String → String
unfolding trim_left trim_right
trim_space s = trim_right (trim_left s)

-- `strings.Join`
unfoldable pub join : String → List String → String
join sep [] = ""
join sep (s ∷ []) = s
join sep (s ∷ t ∷ ts) = s ++ (sep ++ join sep (t ∷ ts))

-- `strings.HasPrefix`, the prefix first.
abbrev pub starts_with : String → String → Bool
starts_with String.[] s = true
starts_with (String.◌∷◌ c p) String.[] = false
starts_with (String.◌∷◌ c p) (String.◌∷◌ d s) = eqb (code c) (code d) && starts_with p s

-- `strings.Contains`, the part first.
unfoldable pub has_part : String → String → Bool
has_part part String.[] = starts_with part String.[]
has_part part (String.◌∷◌ c s) = starts_with part (String.◌∷◌ c s) || has_part part s

-- `<` and `<=` on strings compare bytes.
abbrev pub lt_text : String → String → Bool
lt_text s t = is_lt (compare s t)

abbrev pub le_text : String → String → Bool
le_text s t = is_le (compare s t)
