-- ===== src/Collections/Set.antt =====
-- `HashSet<A>` of the standard library, as a list without repetitions. A hash set has no order
-- that a program can rely on; here the order is that of insertion.
pub mod Append
pub mod Image
use rustbond.Prelude.{
  ◌+◌, ◌≡◌, refl, ◌≢◌, ite, Bool, true, false, List, [], ◌∷◌, arith, length, is_empty,
  if◌then◌else◌,
}

abbrev pub Set : Type 0 → Type 0
Set A = List A

module _ {A : Type 0} (dec : Discrete A) where
  -- `s.contains(&a)`
  unfoldable pub contains : A → Set A → Bool
  contains a [] = false
  contains a (x ∷ xs) = ite (dec x a) true (contains a xs)

  -- The set after `s.insert(a)`, which keeps an element that is there already.
  unfoldable pub insert : A → Set A → Set A
  insert a [] = a ∷ []
  insert a (x ∷ xs) = ite (dec x a) (x ∷ xs) (x ∷ insert a xs)

  -- The set after `s.remove(&a)`.
  unfoldable pub remove : A → Set A → Set A
  remove a [] = []
  remove a (x ∷ xs) = let rest = remove a xs in ite (dec x a) rest (x ∷ rest)

  -- No element twice.
  abbrev pub Distinct : Set A → Type 0
  Distinct [] = Unit {0}
  Distinct (x ∷ xs) = (contains x xs ≡ false) × Distinct xs

  pub contains-insert :
      (a b : A) (s : Set A) → contains b (insert a s) ≡ ite (dec a b) true (contains b s)
  unfolding contains insert
  contains-insert a b [] = refl
  contains-insert a b (x ∷ xs) = ground (arith, contains-insert a b xs)

  pub contains-remove :
      (a b : A) (s : Set A) → contains b (remove a s) ≡ ite (dec a b) false (contains b s)
  unfolding contains remove
  contains-remove a b [] = ground arith
  contains-remove a b (x ∷ xs) = ground (arith, contains-remove a b xs)

  pub insert-Distinct : (a : A) (s : Set A) → Distinct s → Distinct (insert a s)
  unfolding insert contains
  insert-Distinct a [] d = (refl, tt)
  insert-Distinct a (x ∷ xs) d = ground (arith, insert-Distinct a xs d.1, contains-insert a x xs)

  pub remove-Distinct : (a : A) (s : Set A) → Distinct s → Distinct (remove a s)
  unfolding remove
  remove-Distinct a [] d = tt
  remove-Distinct a (x ∷ xs) d = ground (arith, remove-Distinct a xs d.1, contains-remove a x xs)

  pub is_empty-insert : (a : A) (s : Set A) → is_empty (insert a s) ≡ false
  unfolding insert
  is_empty-insert a [] = refl
  is_empty-insert a (x ∷ xs) = ground arith

  pub is_empty-remove : (a : A) (s : Set A) → is_empty s ≡ true → is_empty (remove a s) ≡ true
  unfolding remove
  is_empty-remove a [] e = refl
  is_empty-remove a (x ∷ xs) e = ground arith

  pub length-insert :
      (a : A) (s : Set A) → length (insert a s) ≡ length s + (if contains a s then 0 else 1)
  unfolding contains insert
  length-insert a [] = refl
  length-insert a (x ∷ xs) = ground (arith, length-insert a xs)

  remove_absent : (a : A) (s : Set A) → contains a s ≡ false → remove a s ≡ s
  unfolding contains remove
  remove_absent a [] h = refl
  remove_absent a (x ∷ xs) h = ground (arith, remove_absent a xs)

  pub length-remove :
      (a : A) (s : Set A)
      → Distinct s
      → length (remove a s) + (if contains a s then 1 else 0) ≡ length s
  unfolding contains remove
  length-remove a [] d = refl
  length-remove a (x ∷ xs) d = ground (arith, length-remove a xs d.1, remove_absent a xs)

  -- A set with an element is not empty, and the other way round.
  pub exists_contains : (s : Set A) → is_empty s ≡ false → (a : A) × (contains a s ≡ true)
  unfolding contains
  exists_contains [] e = ground arith
  exists_contains (x ∷ xs) e = (x, ground arith)

  pub contains_nonempty : (a : A) (s : Set A) → contains a s ≡ true → is_empty s ≡ false
  unfolding contains
  contains_nonempty a [] m = ground arith
  contains_nonempty a (x ∷ xs) m = refl
