-- ===== src/Wire/Framing/Enough.antt =====
-- The fuel of the message loop of src/peer.rs and src/server.rs.
use rustbond.Prelude.{
  ℕ, zero, suc, ◌+◌, ◌≤◌, ◌≡◌, refl, true, false, List, [], ◌∷◌, arith, length, drop, inl, inr, ◌⊎◌,
}
use rustbond.Types.Address.{IpNetLib}
use rustbond.Types.Proto.{Prost}
use rustbond.Types.Convert.{Error, Result, Done, ok, err}
use rustbond.Wire.Message.{Message}
use rustbond.Wire.Codec.{header_size, decode}
use rustbond.Wire.Codec.Extend.{is_incomplete, decode-bounds}
use rustbond.Wire.Framing.{and_then, process_fuel, process}

pub Result-cases {ℓ} :
    {A : Type ℓ} (r : Result A) → ((a : A) × (r ≡ ok a)) ⊎ ((e : Error) × (r ≡ err e))
Result-cases (ok a) = inl (a, refl)
Result-cases (err e) = inr (e, refl)

pub and_then-cong :
    {S A : Type 0} (r : S × Done) (f g : S → S × Result A)
    → ((s : S) → f s ≡ g s)
    → and_then r f ≡ and_then r g
and_then-cong (s, ok done) f g same = same s
and_then-cong (s, err e) f g same = refl

pub and_then-ok :
    {S A : Type 0} (r : S × Done) (f : S → S × Result A) → r.1 ≡ ok tt → and_then r f ≡ f r.0
and_then-ok (s, ok done) f h = refl
and_then-ok (s, err e) f h = ground (arith, h)

length-drop :
    {A : Type 0} (n : ℕ) (xs : List A) → n ≤ length xs → length (drop n xs) + n ≡ length xs
length-drop zero xs p = omega arith
length-drop (suc n) [] p = ground (arith, p)
length-drop (suc n) (x ∷ xs) p = omega (arith, length-drop n xs (omega (arith, p)))

module _ (lib : IpNetLib) (prost : Prost) {S : Type 0}
    (handle : S → Message (IpNetLib.IpNet lib) → S × Done) where
  open lib use {IpNet}

  -- What is left after a message is shorter by a header at least.
  pub left-shorter :
      (buf : List ℕ) (msg : Message IpNet) (consumed : ℕ)
      → decode lib prost buf ≡ ok (msg, consumed)
      → length (drop consumed buf) + header_size ≤ length buf
  left-shorter buf msg consumed h =
      let (low, high) = decode-bounds lib prost buf msg consumed h in
      omega (arith, low, high, length-drop consumed buf high)

  pub process_fuel-enough :
      (n k : ℕ) (buf : List ℕ) (s : S)
      → length buf ≤ n
      → length buf ≤ k
      → process_fuel lib prost handle n buf s ≡ process_fuel lib prost handle k buf s
  unfolding process_fuel
  process_fuel-enough zero zero [] s p q = refl
  process_fuel-enough zero (suc k) [] s p q = refl
  process_fuel-enough (suc n) zero [] s p q = refl
  process_fuel-enough (suc n) (suc k) [] s p q = refl
  process_fuel-enough zero k (b ∷ bs) s p q = ground (arith, p)
  process_fuel-enough (suc n) zero (b ∷ bs) s p q = ground (arith, q)
  process_fuel-enough (suc n) (suc k) (b ∷ bs) s p q =
      elim (Result-cases (decode lib prost (b ∷ bs))) [
        | inl ((msg, consumed), h) ↦
            let shorter = left-shorter (b ∷ bs) msg consumed h in
            let rest = process_fuel-enough n k (drop consumed (b ∷ bs)) in
            rw (h, process_fuel)
              (and_then-cong (handle s msg)
                (process_fuel lib prost handle n (drop consumed (b ∷ bs)))
                (process_fuel lib prost handle k (drop consumed (b ∷ bs)))
                λ s'. rest s' (omega (arith, p, shorter)) (omega (arith, q, shorter)))
        | inr (e, h) ↦ rw (h, process_fuel)
      ]

  -- The loop, one message at a time.
  pub process-message :
      (buf : List ℕ) (msg : Message IpNet) (consumed : ℕ) (s : S)
      → decode lib prost buf ≡ ok (msg, consumed)
      → process lib prost handle buf s
        ≡ and_then (handle s msg) (process lib prost handle (drop consumed buf))
  unfolding process process_fuel
  process-message [] msg consumed s h = ground (arith, decode-bounds lib prost [] msg consumed h)
  process-message (b ∷ bs) msg consumed s h =
      let left = drop consumed (b ∷ bs) in
      let shorter = left-shorter (b ∷ bs) msg consumed h in
      rw (h, process, process_fuel)
        (and_then-cong (handle s msg) (process_fuel lib prost handle (length bs) left)
          (process_fuel lib prost handle (length left) left)
          λ s'.
            process_fuel-enough (length bs) (length left) left s' (omega (arith, shorter))
              (omega arith))

  pub process-incomplete :
      (buf : List ℕ) (e : Error) (s : S)
      → decode lib prost buf ≡ err e
      → is_incomplete e ≡ true
      → process lib prost handle buf s ≡ (s, ok buf)
  unfolding process process_fuel
  process-incomplete [] e s h open_end = refl
  process-incomplete (b ∷ bs) e s h open_end = rw (h, open_end, process, process_fuel)

  pub process-fails :
      (buf : List ℕ) (e : Error) (s : S)
      → decode lib prost buf ≡ err e
      → is_incomplete e ≡ false
      → process lib prost handle buf s ≡ (s, err e)
  unfolding process process_fuel decode
  process-fails [] e s h fatal = ground (arith, h, fatal)
  process-fails (b ∷ bs) e s h fatal = rw (h, fatal, process, process_fuel)
