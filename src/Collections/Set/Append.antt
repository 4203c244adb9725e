-- ===== src/Collections/Set/Append.antt =====
-- Lists joined and mapped, as sets.
use rustbond.Prelude.{◌≡◌, refl, ite, true, false, ◌||◌, List, [], ◌∷◌, ◌++◌, map, arith}
use rustbond.Collections.Set.{contains, Distinct}

module _ {A : Type 0} (dec : Discrete A) where
  pub contains-append :
      (a : A) (xs ys : List A)
      → contains dec a (xs ++ ys) ≡ (contains dec a xs || contains dec a ys)
  unfolding contains
  contains-append a [] ys = refl
  contains-append a (x ∷ xs) ys = ground (arith, contains-append a xs ys)

  pub append-Distinct :
      (xs ys : List A)
      → Distinct dec xs
      → Distinct dec ys
      → ((a : A) → contains dec a xs ≡ true → contains dec a ys ≡ false)
      → Distinct dec (xs ++ ys)
  unfolding contains
  append-Distinct [] ys p q apart = q
  append-Distinct (x ∷ xs) ys p q apart = (
    ground (arith, contains-append x xs ys, apart x),
    append-Distinct xs ys p.1 q (λ a m. apart a (ground arith)),
  )

-- Pairs with one first component.
module _ {A B : Type 0} (dec_a : Discrete A) (dec_b : Discrete B) (dec : Discrete (A × B)) where
  pub contains-map_pair :
      (a c : A) (b : B) (xs : List B)
      → contains dec (c, b) (map (λ x. (a, x)) xs) ≡ ite (dec_a a c) (contains dec_b b xs) false
  unfolding contains
  contains-map_pair a c b [] = ground arith
  contains-map_pair a c b (x ∷ xs) = ground (arith, contains-map_pair a c b xs)

  pub map_pair-Distinct :
      (a : A) (xs : List B) → Distinct dec_b xs → Distinct dec (map (λ x. (a, x)) xs)
  map_pair-Distinct a [] d = tt
  map_pair-Distinct a (x ∷ xs) d =
      (ground (arith, contains-map_pair a a x xs), map_pair-Distinct a xs d.1)
