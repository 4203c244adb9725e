-- ===== src/Text.antt =====
-- Texts by their code points, with the functions of the standard library that examples/client.rs
-- takes them apart with.
pub mod Decimal
use Prim.Native.Char.{code}
use Prim.Native.String
use Prim.Native.String.{String}
use rustbond.Prelude.{
  ℕ, ◌+◌, ◌≡◌, refl, Bool, true, false, ◌&&◌, ◌||◌, List, [], ◌∷◌, ◌++◌, Option, none, some, arith,
  leb, ◌==◌, if◌then◌else◌, any, All,
}

abbrev pub Text : Type 0
Text = List ℕ

-- The code points of a literal.
abbrev pub codes : String → Text
codes String.[] = []
codes (String.◌∷◌ c s) = code c ∷ codes s

-- Does the character occur?
abbrev pub has : ℕ → Text → Bool
has c = any (λ x. x == c)

-- A character in front of the first part.
abbrev pub in_front : ℕ → List Text → List Text
in_front x [] = (x ∷ []) ∷ []
in_front x (part ∷ parts) = (x ∷ part) ∷ parts

-- `s.split(c).collect()`
unfoldable pub split : ℕ → Text → List Text
split c [] = [] ∷ []
split c (x ∷ s) = let rest = split c s in if x == c then [] ∷ rest else in_front x rest

-- `s.split_once(c)`
unfoldable pub split_once : ℕ → Text → Option (Text × Text)
split_once c [] = none
split_once c (x ∷ s) =
    let rest = split_once c s in
    if x == c
    then some ([], s)
    else elim rest [ none ↦ none | some parts ↦ some (x ∷ parts.0, parts.1) ]

-- The parts of a text, with the character between them.
abbrev pub joined : ℕ → Text → List Text → Text
joined c s [] = s
joined c s (part ∷ parts) = s ++ (c ∷ joined c part parts)

-- `s.to_lowercase()`, of letters of ASCII. No other letter becomes an `a`, `b`, `d`, `l`, `n`, `s`
-- or `t`, the letters that the program looks for.
abbrev pub lower : ℕ → ℕ
lower c = if leb 65 c && leb c 90 then c + 32 else c

unfoldable pub to_lowercase : Text → Text
to_lowercase [] = []
to_lowercase (c ∷ s) = lower c ∷ to_lowercase s

-- Equality of texts.
abbrev pub same : Text → Text → Bool
same [] [] = true
same [] (y ∷ ys) = false
same (x ∷ xs) [] = false
same (x ∷ xs) (y ∷ ys) = x == y && same xs ys

split-none : (c : ℕ) (s : Text) → has c s ≡ false → split c s ≡ s ∷ []
unfolding split
split-none c [] h = refl
split-none c (x ∷ s) h = ground (arith, split-none c s)

split-append : (c : ℕ) (s t : Text) → has c s ≡ false → split c (s ++ (c ∷ t)) ≡ s ∷ split c t
unfolding split
split-append c [] t h = ground arith
split-append c (x ∷ s) t h = ground (arith, split-append c s t)

-- Parts without the character are found again.
pub split-joined :
    (c : ℕ) (s : Text) (parts : List Text)
    → All (λ p. has c p ≡ false) (s ∷ parts)
    → split c (joined c s parts) ≡ s ∷ parts
split-joined c s [] (h, _) = split-none c s h
split-joined c s (part ∷ parts) (h, hs) =
    rw (split-append c s (joined c part parts) h, split-joined c part parts hs)

-- What stands before the first such character, and what stands behind it.
pub split_once-append :
    (c : ℕ) (s t : Text) → has c s ≡ false → split_once c (s ++ (c ∷ t)) ≡ some (s, t)
unfolding split_once
split_once-append c [] t h = ground arith
split_once-append c (x ∷ s) t h = ground (arith, split_once-append c s t)

pub has-append : (c : ℕ) (s t : Text) → has c s ≡ false → has c t ≡ false → has c (s ++ t) ≡ false
has-append c [] t h k = k
has-append c (x ∷ s) t h k = ground (arith, has-append c s t)

-- A `#` stays one in lower case.
pub has-lowercase : (s : Text) → has 35 (to_lowercase s) ≡ false → has 35 s ≡ false
unfolding to_lowercase
has-lowercase [] h = refl
has-lowercase (x ∷ s) h = ground (arith, has-lowercase s)

pub same_refl : (s : Text) → same s s ≡ true
same_refl [] = refl
same_refl (x ∷ s) = ground (arith, same_refl s)
