-- ===== src/Dict.antt =====
-- The `Map` of the language with string keys: an association list in the order of insertion.
-- `set` on a key that is there keeps its place.
pub mod Laws
use info_crate.Common.{Bool, true, false, ◌||◌, Option, none, some, List, [], ◌∷◌, if◌then◌else◌}
use info_crate.Text.{JsString, str_eq}

abbrev pub Dict {ℓ} : Type ℓ → Type ℓ
Dict V = List (JsString × V)

module _ {ℓ} {V : Type ℓ} where
  unfoldable pub get : JsString → Dict V → Option V
  get key [] = none
  get key ((j, v) ∷ m) = if str_eq j key then some v else get key m

  unfoldable pub set : JsString → V → Dict V → Dict V
  set key v [] = (key, v) ∷ []
  set key v ((j, w) ∷ m) = if str_eq j key then (j, v) ∷ m else (j, w) ∷ set key v m

-- `Set` with string members.
unfoldable pub has : JsString → List JsString → Bool
has key [] = false
has key (j ∷ seen) = str_eq j key || has key seen
