-- ===== src/Collections/Map.antt =====
-- `HashMap<K, V>` of the standard library, as a list of entries with no key twice. A hash map has
-- no order that a program can rely on; here the order is that of insertion.
pub mod Weight
pub mod Members
pub mod WriteBack
pub mod Size
use rustbond.Prelude.{
  ◌≡◌, refl, ite, true, false, List, [], ◌∷◌, map, Option, none, some, arith, is_empty,
}
use rustbond.Collections.Set.{contains, Distinct}

abbrev pub Map : Type 0 → Type 0 → Type 0
Map K V = List (K × V)

-- `o.unwrap_or_default()` at the default `d`, and what `entry(k).or_default()` starts from
abbrev pub or_default : {V : Type 0} → V → Option V → V
or_default d none = d
or_default d (some v) = v

module _ {K V : Type 0} where
  -- `m.keys()`
  abbrev pub keys : Map K V → List K
  keys = map (λ e. e.0)

module _ {K V : Type 0} (dec : Discrete K) where
  -- `m.get(&k)`
  unfoldable pub get : K → Map K V → Option V
  get k [] = none
  get k ((j, v) ∷ m) = ite (dec j k) (some v) (get k m)

  -- The map after `m.insert(k, v)`, or after a write through `m.entry(k)` or `m.get_mut(&k)`.
  unfoldable pub insert : K → V → Map K V → Map K V
  insert k v [] = (k, v) ∷ []
  insert k v ((j, w) ∷ m) = ite (dec j k) ((j, v) ∷ m) ((j, w) ∷ insert k v m)

  -- The map after `m.remove(&k)`.
  unfoldable pub remove : K → Map K V → Map K V
  remove k [] = []
  remove k ((j, v) ∷ m) = let rest = remove k m in ite (dec j k) rest ((j, v) ∷ rest)

  pub get-insert :
      (k j : K) (v : V) (m : Map K V) → get j (insert k v m) ≡ ite (dec k j) (some v) (get j m)
  unfolding get insert
  get-insert k j v [] = refl
  get-insert k j v (e ∷ m) = ground (arith, get-insert k j v m)

  pub get-remove : (k j : K) (m : Map K V) → get j (remove k m) ≡ ite (dec k j) none (get j m)
  unfolding get remove
  get-remove k j [] = ground arith
  get-remove k j (e ∷ m) = ground (arith, get-remove k j m)

  pub is_empty-insert : (k : K) (v : V) (m : Map K V) → is_empty (insert k v m) ≡ false
  unfolding insert
  is_empty-insert k v [] = refl
  is_empty-insert k v (e ∷ m) = ground arith

  pub contains-keys-insert :
      (k j : K) (v : V) (m : Map K V)
      → contains dec j (keys (insert k v m)) ≡ ite (dec k j) true (contains dec j (keys m))
  unfolding insert contains
  contains-keys-insert k j v [] = refl
  contains-keys-insert k j v (e ∷ m) = ground (arith, contains-keys-insert k j v m)

  pub contains-keys-remove :
      (k j : K) (m : Map K V)
      → contains dec j (keys (remove k m)) ≡ ite (dec k j) false (contains dec j (keys m))
  unfolding remove contains
  contains-keys-remove k j [] = ground arith
  contains-keys-remove k j (e ∷ m) = ground (arith, contains-keys-remove k j m)

  pub insert-Distinct :
      (k : K) (v : V) (m : Map K V) → Distinct dec (keys m) → Distinct dec (keys (insert k v m))
  unfolding insert contains
  insert-Distinct k v [] d = (refl, tt)
  insert-Distinct k v (e ∷ m) d =
      ground (arith, insert-Distinct k v m d.1, contains-keys-insert k e.0 v m)

  pub remove-Distinct :
      (k : K) (m : Map K V) → Distinct dec (keys m) → Distinct dec (keys (remove k m))
  unfolding remove
  remove-Distinct k [] d = tt
  remove-Distinct k (e ∷ m) d =
      ground (arith, remove-Distinct k m d.1, contains-keys-remove k e.0 m)

  -- A key is found exactly if it is among the keys.
  pub get_of-not-contains : (k : K) (m : Map K V) → contains dec k (keys m) ≡ false → get k m ≡ none
  unfolding get contains
  get_of-not-contains k [] h = refl
  get_of-not-contains k (e ∷ m) h = ground (arith, get_of-not-contains k m)

  pub contains_of-get :
      (k : K) (m : Map K V) (v : V) → get k m ≡ some v → contains dec k (keys m) ≡ true
  unfolding get contains
  contains_of-get k [] v h = ground arith
  contains_of-get k (e ∷ m) v h = ground (arith, contains_of-get k m v)
