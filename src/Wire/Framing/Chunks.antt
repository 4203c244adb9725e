-- ===== src/Wire/Framing/Chunks.antt =====
-- The message loop of src/peer.rs and src/server.rs on the bytes that several reads deliver.
pub mod Stream
use mathlib.Core.List.{append_assoc, append-nil}
use mathlib.Core.Path.{subst}
use rustbond.Prelude.{
  not, ℕ, zero, suc, ◌+◌, ◌≤◌, ◌<◌, ◌≡◌, refl, sym, ap, ◌∙◌, Bool, true, false, List, [], ◌∷◌, ◌++◌,
  Bool-cases, arith, length, drop, if◌then◌else◌, inl, inr,
}
use rustbond.Types.Address.{IpNetLib}
use rustbond.Types.Proto.{Prost}
use rustbond.Types.Convert.{Error, Result, Done, ok, err}
use rustbond.Wire.Message.{Message}
use rustbond.Wire.Codec.{header_size, decode}
use rustbond.Wire.Codec.Extend.{
  is_incomplete, is_final, not-is_final, decode-bounds, decode-extend, drop-prefix,
}
use rustbond.Wire.Framing.{and_then, proceed_with, process_fuel, process, process_reads}
use rustbond.Wire.Framing.Enough.{
  Result-cases, and_then-cong, left-shorter, process-message, process-incomplete, process-fails,
}

-- The bytes of all reads.
abbrev pub joined : List (List ℕ) → List ℕ
joined [] = []
joined (chunk ∷ chunks) = chunk ++ joined chunks

module _ (lib : IpNetLib) (prost : Prost) {S : Type 0}
    (handle : S → Message (IpNetLib.IpNet lib) → S × Done) where
  open lib use {IpNet}

  -- The loop again with more bytes behind what it left.
  abbrev proceed : List ℕ → S × Result (List ℕ) → S × Result (List ℕ)
  proceed more r = proceed_with r (λ rest. process lib prost handle (rest ++ more))

  proceed-and_then :
      (more : List ℕ) (r : S × Done) (f g : S → S × Result (List ℕ))
      → ((s : S) → g s ≡ proceed more (f s))
      → and_then r g ≡ proceed more (and_then r f)
  proceed-and_then more (s, ok done) f g same = same s
  proceed-and_then more (s, err e) f g same = refl

  process-grown :
      (buf more : List ℕ) (msg : Message IpNet) (consumed : ℕ) (s : S)
      → decode lib prost buf ≡ ok (msg, consumed)
      → process lib prost handle (buf ++ more) s
        ≡ and_then (handle s msg) (process lib prost handle (drop consumed buf ++ more))
  process-grown buf more msg consumed s h =
      let (low, high) = decode-bounds lib prost buf msg consumed h in
      let grown = decode-extend lib prost buf more (ap (is_final lib prost) h) ∙ h in
      process-message lib prost handle (buf ++ more) msg consumed s grown
      ∙ ap (λ left. and_then (handle s msg) (process lib prost handle left))
          (drop-prefix consumed buf more high)

  process-append-stops :
      (buf more : List ℕ) (e : Error) (s : S)
      → decode lib prost buf ≡ err e
      → process lib prost handle (buf ++ more) s ≡ proceed more (process lib prost handle buf s)
  process-append-stops buf more e s h = elim (Bool-cases (is_incomplete e)) [
    | inl open_end ↦ rw (process-incomplete lib prost handle buf e s h open_end) refl
    | inr fatal ↦
        let final = ap (is_final lib prost) h ∙ ap not fatal in
        let grown = decode-extend lib prost buf more final ∙ h in
        process-fails lib prost handle (buf ++ more) e s grown fatal
        ∙ ap (proceed more) (sym (process-fails lib prost handle buf e s h fatal))
  ]

  process-append-below :
      (n : ℕ) (buf more : List ℕ) (s : S)
      → length buf ≤ n
      → process lib prost handle (buf ++ more) s ≡ proceed more (process lib prost handle buf s)
  unfolding process process_fuel
  process-append-below zero [] more s p = refl
  process-append-below zero (b ∷ bs) more s p = ground (arith, p)
  process-append-below (suc n) buf more s p = elim (Result-cases (decode lib prost buf)) [
    | inl ((msg, consumed), h) ↦
        process-grown buf more msg consumed s h
        ∙ proceed-and_then more (handle s msg) (process lib prost handle (drop consumed buf))
            (process lib prost handle (drop consumed buf ++ more))
            (λ s'.
              process-append-below n (drop consumed buf) more s'
                (omega (arith, p, left-shorter lib prost handle buf msg consumed h)))
        ∙ ap (proceed more) (sym (process-message lib prost handle buf msg consumed s h))
    | inr (e, h) ↦ process-append-stops buf more e s h
  ]

  -- Bytes that arrive later continue where the loop had stopped.
  pub process-append :
      (buf more : List ℕ) (s : S)
      → process lib prost handle (buf ++ more) s ≡ proceed more (process lib prost handle buf s)
  process-append buf more s = process-append-below (length buf) buf more s (omega arith)

  -- More bytes are needed for what the loop has left.
  abbrev pub IsStopped : S × Result (List ℕ) → Type 0
  IsStopped (s, ok rest) = is_final lib prost (decode lib prost rest) ≡ false
  IsStopped (s, err e) = Unit

  and_then-IsStopped :
      (r : S × Done) (f : S → S × Result (List ℕ))
      → ((s : S) → IsStopped (f s))
      → IsStopped (and_then r f)
  and_then-IsStopped (s, ok done) f stops = stops s
  and_then-IsStopped (s, err e) f stops = tt

  process-IsStopped-below :
      (n : ℕ) (buf : List ℕ) (s : S) → length buf ≤ n → IsStopped (process lib prost handle buf s)
  unfolding process process_fuel decode
  process-IsStopped-below zero [] s p = refl
  process-IsStopped-below zero (b ∷ bs) s p = ground (arith, p)
  process-IsStopped-below (suc n) buf s p = elim (Result-cases (decode lib prost buf)) [
    | inl ((msg, consumed), h) ↦
        subst IsStopped (sym (process-message lib prost handle buf msg consumed s h)) (
          and_then-IsStopped (handle s msg) (process lib prost handle (drop consumed buf)) λ s'.
            process-IsStopped-below n (drop consumed buf) s'
              (omega (arith, p, left-shorter lib prost handle buf msg consumed h)))
    | inr (e, h) ↦ elim (Bool-cases (is_incomplete e)) [
      | inl open_end ↦
          subst IsStopped (sym (process-incomplete lib prost handle buf e s h open_end))
            (ap (is_final lib prost) h ∙ ap not open_end)
      | inr fatal ↦ subst IsStopped (sym (process-fails lib prost handle buf e s h fatal)) tt
    ]
  ]

  -- The loop takes every complete message, with the fuel that it has: unless it fails, what it
  -- leaves in the buffer needs more bytes.
  pub process-IsStopped : (buf : List ℕ) (s : S) → IsStopped (process lib prost handle buf s)
  process-IsStopped buf s = process-IsStopped-below (length buf) buf s (omega arith)

  stopped-process :
      (buf : List ℕ) (s : S)
      → is_final lib prost (decode lib prost buf) ≡ false
      → process lib prost handle buf s ≡ (s, ok buf)
  stopped-process buf s stopped =
      let (e, h, open_end) = not-is_final lib prost (decode lib prost buf) stopped in
      process-incomplete lib prost handle buf e s h open_end

  proceed_with-same :
      (r : S × Result (List ℕ)) (f g : List ℕ → S → S × Result (List ℕ))
      → IsStopped r
      → ((rest : List ℕ) (s : S)
          → is_final lib prost (decode lib prost rest) ≡ false
          → f rest s ≡ g rest s)
      → proceed_with r f ≡ proceed_with r g
  proceed_with-same (s, ok rest) f g stopped same = same rest s stopped
  proceed_with-same (s, err e) f g stopped same = refl

  -- How the bytes are split into reads does not matter, when the loop starts at a buffer that
  -- needs more bytes: handling them read by read is handling them all at once.
  pub process_reads-joined :
      (chunks : List (List ℕ)) (buf : List ℕ) (s : S)
      → is_final lib prost (decode lib prost buf) ≡ false
      → process_reads lib prost handle chunks buf s
        ≡ process lib prost handle (buf ++ joined chunks) s
  unfolding process_reads
  process_reads-joined [] buf s stopped =
      sym (ap (λ b. process lib prost handle b s) (append-nil buf) ∙ stopped-process buf s stopped)
  process_reads-joined (chunk ∷ chunks) buf s stopped =
      proceed_with-same (process lib prost handle (buf ++ chunk) s)
        (process_reads lib prost handle chunks)
        (λ rest. process lib prost handle (rest ++ joined chunks))
        (process-IsStopped (buf ++ chunk) s) (process_reads-joined chunks)
      ∙ sym (process-append (buf ++ chunk) (joined chunks) s)
      ∙ ap (λ b. process lib prost handle b s) (append_assoc buf chunk (joined chunks))
