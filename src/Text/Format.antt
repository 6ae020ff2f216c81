-- ===== src/Text/Format.antt =====
-- Numbers as text: `toString(16)`, `toString()` and `padStart` of src/engine/storageEngine.ts.
use info_crate.Common.{
  ℕ, zero, suc, ◌+◌, ◌-◌, ◌/◌, ◌%◌, List, [], ◌∷◌, ◌++◌, ltb, if◌then◌else◌, length, replicate,
}
use info_crate.Text.{JsString}

-- An upper-case digit, after `toUpperCase()`.
unfoldable pub digit : ℕ → ℕ
digit d = if ltb d 10 then 48 + d else 55 + d

-- The digits of `n` in a base, the highest first; `n` has fewer than `fuel` digits.
unfoldable pub digits_in : ℕ → ℕ → ℕ → List ℕ → JsString
unfolding digit
digits_in base zero n acc = acc
digits_in base (suc fuel) n acc =
    let rest = digits_in base fuel (n / base) (digit (n % base) ∷ acc) in
    if ltb n base then digit n ∷ acc else rest

-- `n.toString(base).toUpperCase()`: a number has at most as many digits as its value plus one.
unfoldable pub to_string : ℕ → ℕ → JsString
unfolding digits_in
to_string base n = digits_in base (suc n) n []

-- `s.padStart(width, '0')`
unfoldable pub pad_start : ℕ → JsString → JsString
pad_start width s = replicate (width - length s) 48 ++ s
