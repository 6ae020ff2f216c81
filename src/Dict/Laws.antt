-- ===== src/Dict/Laws.antt =====
-- Reading after writing, and the size.
use info_crate.Common.{◌≡◌, refl, arith, none, some, [], ◌∷◌, if◌then◌else◌}
use info_crate.Text.{JsString, str_eq}
use info_crate.Text.Laws.{str_eq_iff}
use info_crate.Dict.{Dict, get, set}

module _ {ℓ} {V : Type ℓ} where
  pub get-set :
      (key q : JsString) (v : V) (m : Dict V)
      → get q (set key v m) ≡ (if str_eq key q then some v else get q m)
  unfolding get set
  get-set key q v [] = refl
  get-set key q v ((j, w) ∷ m) =
      ground (arith, get-set key q v m, str_eq_iff key q, str_eq_iff j key, str_eq_iff j q)

-- No key twice.
abbrev pub Distinct {ℓ} : {V : Type ℓ} → Dict V → Type ℓ
Distinct [] = Unit
Distinct ((j, v) ∷ m) = (get j m ≡ none) × Distinct m

pub set-Distinct {ℓ} :
    {V : Type ℓ} (key : JsString) (v : V) (m : Dict V) → Distinct m → Distinct (set key v m)
unfolding set get
set-Distinct key v [] d = (refl, tt)
set-Distinct key v ((j, w) ∷ m) d =
    ground (arith, set-Distinct key v m, get-set key j v m, str_eq_iff j key, str_eq_iff key j)
