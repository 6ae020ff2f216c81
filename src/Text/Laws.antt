-- ===== src/Text/Laws.antt =====
-- The laws of `===` and of `<` on code units.
use info_crate.Common.{◌≡◌, refl, ◌↔◌, ◌≢◌, true, false, [], ◌∷◌, arith, Ordering}
use info_crate.Text.{JsString, str_eq, str_lt, unit_compare}

pub str_eq_refl : (a : JsString) → str_eq a a ≡ true
unfolding str_eq
str_eq_refl [] = refl
str_eq_refl (a ∷ as') = ground (arith, str_eq_refl as')

eq_of_str_eq : (a b : JsString) → str_eq a b ≡ true → a ≡ b
unfolding str_eq
eq_of_str_eq [] [] h = refl
eq_of_str_eq [] (b ∷ bs) h = cc
eq_of_str_eq (a ∷ as') [] h = cc
eq_of_str_eq (a ∷ as') (b ∷ bs) h = ground (arith, eq_of_str_eq as' bs)

pub str_eq_iff : (a b : JsString) → (str_eq a b ≡ true) ↔ (a ≡ b)
str_eq_iff a b = (eq_of_str_eq a b, λ e. ground (arith, str_eq_refl a))

-- `a` does not come after `b`.
abbrev pub UnitLe : JsString → JsString → Type 0
UnitLe a b = unit_compare a b ≢ Ordering.gt

pub UnitLe-refl : (a : JsString) → UnitLe a a
unfolding unit_compare
UnitLe-refl [] h = cc
UnitLe-refl (a ∷ as') h = ground (arith, UnitLe-refl as')

pub UnitLe-of_gt : (a b : JsString) → unit_compare a b ≡ Ordering.gt → UnitLe b a
unfolding unit_compare
UnitLe-of_gt [] [] h = λ k. cc
UnitLe-of_gt [] (b ∷ bs) h = λ k. cc
UnitLe-of_gt (a ∷ as') [] h = λ k. cc
UnitLe-of_gt (a ∷ as') (b ∷ bs) h = λ k. ground (arith, UnitLe-of_gt as' bs)

pub UnitLe-trans : (a b c : JsString) → UnitLe a b → UnitLe b c → UnitLe a c
unfolding unit_compare
UnitLe-trans [] b [] p q = λ k. cc
UnitLe-trans [] b (c ∷ cs) p q = λ k. cc
UnitLe-trans (a ∷ as') [] c p q = absurd (p refl)
UnitLe-trans (a ∷ as') (b ∷ bs) [] p q = absurd (q refl)
UnitLe-trans (a ∷ as') (b ∷ bs) (c ∷ cs) p q = λ k. ground (arith, UnitLe-trans as' bs cs)

pub unit_compare_flip :
    (a b : JsString) → unit_compare a b ≡ Ordering.lt → unit_compare b a ≡ Ordering.gt
unfolding unit_compare
unit_compare_flip [] [] h = cc
unit_compare_flip [] (b ∷ bs) h = refl
unit_compare_flip (a ∷ as') [] h = cc
unit_compare_flip (a ∷ as') (b ∷ bs) h = ground (arith, unit_compare_flip as' bs)

-- `<` is a strict linear order.
pub str_lt_trans : (a b c : JsString) → str_lt a b ≡ true → str_lt b c ≡ true → str_lt a c ≡ true
unfolding unit_compare
str_lt_trans [] [] c p q = q
str_lt_trans [] (b ∷ bs) [] p q = cc
str_lt_trans [] (b ∷ bs) (c ∷ cs) p q = refl
str_lt_trans (a ∷ as') [] c p q = cc
str_lt_trans (a ∷ as') (b ∷ bs) [] p q = cc
str_lt_trans (a ∷ as') (b ∷ bs) (c ∷ cs) p q = ground (arith, str_lt_trans as' bs cs)

pub str_lt_irrefl : (a : JsString) → str_lt a a ≡ false
unfolding unit_compare
str_lt_irrefl [] = refl
str_lt_irrefl (a ∷ as') = ground (arith, str_lt_irrefl as')

pub str_lt_total : (a b : JsString) → str_lt a b ≡ false → str_eq a b ≡ false → str_lt b a ≡ true
unfolding unit_compare str_eq
str_lt_total [] [] p q = cc
str_lt_total [] (b ∷ bs) p q = cc
str_lt_total (a ∷ as') [] p q = refl
str_lt_total (a ∷ as') (b ∷ bs) p q = ground (arith, str_lt_total as' bs)
