-- ===== src/Wire/Codec/Extend.antt =====
-- `Message::decode` of src/wire.rs on a buffer that grows, and on one that is not complete.

use rustbond.Prelude.{
  not, ℕ, ◌+◌, ◌*◌, ◌^◌, ◌≤◌, ◌<◌, ◌≡◌, refl, sym, ap, ◌∙◌, Bool, true, false, List, [], ◌∷◌, ◌++◌,
  arith, length, take, drop, length-append, zero, suc, inl, inr, Bool-cases,
}
use mathlib.Core.List.{append_assoc}
use rustbond.Types.Address.{IpNetLib}
use rustbond.Types.Proto.{Prost}
use rustbond.Types.Convert.{Reason, Error, Result, ok, err}
use rustbond.Wire.Message.{Message}
use rustbond.Wire.Codec.{header_size, encode, decode}
use rustbond.Wire.Codec.RoundTrip.{IsMessage, received, decode-encode}

-- The errors after which src/peer.rs and src/server.rs wait for more bytes: the protocol errors
-- whose text has "too short" or "truncated".
abbrev pub is_incomplete : Error → Bool
is_incomplete (Error.protocol Reason.message_too_short) = true
is_incomplete (Error.protocol Reason.message_truncated) = true
is_incomplete _ = false

pub take-prefix :
    {A : Type 0} (n : ℕ) (xs ys : List A) → n ≤ length xs → take n (xs ++ ys) ≡ take n xs
take-prefix zero xs ys p = refl
take-prefix (suc n) [] ys p = ground (arith, p)
take-prefix (suc n) (x ∷ xs) ys p = ap (λ zs. x ∷ zs) (take-prefix n xs ys (omega (arith, p)))

pub drop-prefix :
    {A : Type 0} (n : ℕ) (xs ys : List A) → n ≤ length xs → drop n (xs ++ ys) ≡ drop n xs ++ ys
drop-prefix zero xs ys p = refl
drop-prefix (suc n) [] ys p = ground (arith, p)
drop-prefix (suc n) (x ∷ xs) ys p = drop-prefix n xs ys (omega (arith, p))

module _ (lib : IpNetLib) (prost : Prost) where
  open lib use {IpNet}

  -- A message that is decoded has consumed a header at least, and no more than the buffer.
  pub decode-bounds :
      (buf : List ℕ) (msg : Message IpNet) (n : ℕ)
      → decode lib prost buf ≡ ok (msg, n)
      → (header_size ≤ n) × (n ≤ length buf)
  unfolding decode
  decode-bounds [] msg n h = ground (arith, h)
  decode-bounds (a ∷ []) msg n h = ground (arith, h)
  decode-bounds (a ∷ b ∷ []) msg n h = ground (arith, h)
  decode-bounds (a ∷ b ∷ c ∷ []) msg n h = ground (arith, h)
  decode-bounds (a ∷ b ∷ c ∷ d ∷ rest) msg n h = (ground (arith, h), ground (arith, h))

  -- Is the outcome one that more bytes do not change?
  abbrev pub is_final : Result (Message IpNet × ℕ) → Bool
  is_final (ok r) = true
  is_final (err e) = not (is_incomplete e)

  pub not-is_final :
      (r : Result (Message IpNet × ℕ))
      → is_final r ≡ false
      → (e : Error) × (r ≡ err e) × (is_incomplete e ≡ true)
  not-is_final (ok r) h = ground (arith, h)
  not-is_final (err e) h = (e, refl, ground (arith, h))

  -- Unless the outcome of `decode` asks for more bytes, the bytes that follow do not matter.
  pub decode-extend :
      (buf more : List ℕ)
      → is_final (decode lib prost buf) ≡ true
      → decode lib prost (buf ++ more) ≡ decode lib prost buf
  unfolding decode
  decode-extend [] more h = ground (arith, h)
  decode-extend (a ∷ []) more h = ground (arith, h)
  decode-extend (a ∷ b ∷ []) more h = ground (arith, h)
  decode-extend (a ∷ b ∷ c ∷ []) more h = ground (arith, h)
  decode-extend (version ∷ high ∷ low ∷ type ∷ rest) more h =
      ground (arith, h, take-prefix (high * 2 ^ 8 + low) rest more, length-append rest more)

  -- The start of an encoded message that is within the ranges of its types, if it lacks bytes at
  -- the end, asks for more bytes.
  pub decode-truncated :
      (msg : Message IpNet) (buf more : List ℕ)
      → IsMessage lib prost msg
      → encode lib prost msg ≡ ok (buf ++ more)
      → 0 < length more
      → (e : Error) × (decode lib prost buf ≡ err e) × (is_incomplete e ≡ true)
  decode-truncated msg buf more i made lacks = elim (Bool-cases (is_final (decode lib prost buf))) [
    | inl final ↦
        let whole = decode-encode lib prost msg (buf ++ more) [] i made in
        let grown = decode-extend buf (more ++ []) final in
        let here : decode lib prost buf ≡ ok (received lib prost msg, length (buf ++ more)) =
          sym grown ∙ ap (decode lib prost) (sym (append_assoc buf more [])) ∙ whole in
        let bounds = decode-bounds buf (received lib prost msg) (length (buf ++ more)) here in
        ground (arith, bounds, length-append buf more, lacks)
    | inr open_end ↦ not-is_final (decode lib prost buf) open_end
  ]
