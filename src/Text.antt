-- ===== src/Text.antt =====
-- Strings of the TypeScript code: sequences of UTF-16 code units, with `===`, `<`, and
-- `TextEncoder.encode` of src/engine/storageEngine.ts.
pub mod Laws
pub mod Format
use Prim.Native.Char.{code}
use Prim.Native.String.{String}
use mathlib.Core.List.{reverse}
use info_crate.Common.{
  ℕ, ◌+◌, ◌-◌, ◌*◌, ◌/◌, ◌%◌, Bool, true, false, ◌&&◌, List, [], ◌∷◌, ◌++◌, ◌||◌, ltb, leb, ◌==◌,
  if◌then◌else◌, compare, Ordering,
}

abbrev pub JsString : Type 0
JsString = List ℕ

-- The code units of a literal of the basic plane.
abbrev pub units : String → JsString
units String.[] = []
units (String.◌∷◌ c s) = code c ∷ units s

-- `a === b`
unfoldable pub str_eq : JsString → JsString → Bool
str_eq [] [] = true
str_eq [] (b ∷ bs) = false
str_eq (a ∷ as') [] = false
str_eq (a ∷ as') (b ∷ bs) = (a == b) && str_eq as' bs

-- The order of code units, which `<` and `>` use.
unfoldable pub unit_compare : JsString → JsString → Ordering
unit_compare [] [] = Ordering.eq
unit_compare [] (b ∷ bs) = Ordering.lt
unit_compare (a ∷ as') [] = Ordering.gt
unit_compare (a ∷ as') (b ∷ bs) = elim (compare a b) [
  | Ordering.lt ↦ Ordering.lt
  | Ordering.eq ↦ unit_compare as' bs
  | Ordering.gt ↦ Ordering.gt
]

-- `a < b`
abbrev pub str_lt : JsString → JsString → Bool
str_lt a b = elim (unit_compare a b) [ Ordering.lt ↦ true | _ ↦ false ]

-- The UTF-8 bytes of one code point.
unfoldable pub utf8_point : ℕ → List ℕ
utf8_point c =
    if ltb c 0x80
    then c ∷ []
    else if ltb c 0x800
    then (0xc0 + c / 64) ∷ (0x80 + c % 64) ∷ []
    else if ltb c 0x10000
    then (0xe0 + c / 4096) ∷ (0x80 + c / 64 % 64) ∷ (0x80 + c % 64) ∷ []
    else (0xf0 + c / 262144) ∷ (0x80 + c / 4096 % 64) ∷ (0x80 + c / 64 % 64) ∷ (0x80 + c % 64) ∷ []

abbrev pub is_high : ℕ → Bool
is_high c = leb 0xd800 c && ltb c 0xdc00

abbrev pub is_low : ℕ → Bool
is_low c = leb 0xdc00 c && ltb c 0xe000

-- A surrogate that stands alone is encoded as U+FFFD.
unfoldable pub utf8_unit : ℕ → List ℕ
unfolding utf8_point
utf8_unit c = utf8_point (if leb 0xd800 c && ltb c 0xe000 then 0xfffd else c)

-- `new TextEncoder().encode(s)`
unfoldable pub encode : JsString → List ℕ
unfolding utf8_unit
encode [] = []
encode (c ∷ []) = utf8_unit c
encode (c ∷ d ∷ s) =
    let pair = utf8_point (0x10000 + (c - 0xd800) * 1024 + (d - 0xdc00)) ++ encode s in
    let single = utf8_unit c ++ encode (d ∷ s) in if is_high c && is_low d then pair else single

-- The white space and line ends that `trim` removes.
abbrev pub is_space : ℕ → Bool
is_space c =
    (leb 9 c && leb c 13)
    || c == 32
    || c == 160
    || c == 0x1680
    || (leb 0x2000 c && leb c 0x200a)
    || c == 0x2028
    || c == 0x2029
    || c == 0x202f
    || c == 0x205f
    || c == 0x3000
    || c == 0xfeff

unfoldable pub trim_start : JsString → JsString
trim_start [] = []
trim_start (c ∷ s) = if is_space c then trim_start s else c ∷ s

-- `s.trim()`
unfoldable pub trim : JsString → JsString
unfolding trim_start
trim s = reverse (trim_start (reverse (trim_start s)))
