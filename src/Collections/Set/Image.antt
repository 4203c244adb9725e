-- ===== src/Collections/Set/Image.antt =====
-- The image of a set under an injective function.
use rustbond.Prelude.{◌≡◌, refl, ap, ◌∙◌, List, [], ◌∷◌, map, arith}
use rustbond.Collections.Set.{contains, Distinct}

module _ {A B : Type 0} (dA : Discrete A) (dB : Discrete B) (f : A → B)
    (inj : (x y : A) → f x ≡ f y → x ≡ y) where
  pub contains-map : (x : A) (l : List A) → contains dB (f x) (map f l) ≡ contains dA x l
  unfolding contains
  contains-map x [] = refl
  contains-map x (y ∷ l) = elim (dA y x) [
    | yes p ↦ ground (arith, ap f p)
    | no p ↦ elim (dB (f y) (f x)) [
      | yes q ↦ elim (p (inj y x q)) [ ]
      | no q ↦ ground (arith, contains-map x l)
    ]
  ]

  pub map-Distinct : (l : List A) → Distinct dA l → Distinct dB (map f l)
  unfolding contains
  map-Distinct [] d = tt
  map-Distinct (x ∷ l) d = (contains-map x l ∙ d.0, map-Distinct l d.1)
