-- ===== src/Wire/Framing/Chunks/Stream.antt =====
-- A stream of messages from one side, as the message loop of src/peer.rs and src/server.rs on the
-- other side handles it.
use mathlib.Core.Path.{subst}
use rustbond.Prelude.{
  ℕ, ◌≡◌, refl, sym, ap, ◌∙◌, false, List, [], ◌∷◌, ◌++◌, map, length, drop, All,
}
use rustbond.Types.Address.{IpNetLib}
use rustbond.Types.Proto.{Prost}
use rustbond.Types.Convert.{Result, Done, ok, err, ◌>>=◌, get_or}
use rustbond.Wire.Message.{Message}
use rustbond.Wire.Codec.{decode, encode}
use rustbond.Wire.Codec.RoundTrip.{IsMessage, received, encode_lem, decode-encode}
use rustbond.Wire.Codec.Extend.{is_final}
use rustbond.Wire.Framing.{and_then, process, process_reads, handle_all}
use rustbond.Wire.Framing.Enough.{and_then-cong, process-message}
use rustbond.Wire.Framing.Chunks.{joined, process_reads-joined}

pub drop-append : {A : Type 0} (xs ys : List A) → drop (length xs) (xs ++ ys) ≡ ys
drop-append [] ys = refl
drop-append (x ∷ xs) ys = drop-append xs ys

and_then-and_then :
    {S A : Type 0} (r : S × Done) (f : S → S × Done) (g : S → S × Result A)
    → and_then r (λ s. and_then (f s) g) ≡ and_then (and_then r f) g
and_then-and_then (s, ok done) f g = refl
and_then-and_then (s, err e) f g = refl

module _ (lib : IpNetLib) (prost : Prost) where
  open lib use {IpNet}

  -- The bytes that `send_message` writes for the messages, one after the other.
  unfoldable pub encode_all : List (Message IpNet) → Result (List ℕ)
  encode_all [] = ok []
  encode_all (msg ∷ msgs) = do buf ← encode lib prost msg; rest ← encode_all msgs; ok (buf ++ rest)

  encode_all_lem :
      (msgs : List (Message IpNet))
      → All (IsMessage lib prost) msgs
      → (buf : List ℕ) × (encode_all msgs ≡ ok buf)
  unfolding encode_all
  encode_all_lem [] i = ([], refl)
  encode_all_lem (msg ∷ msgs) (first, i) =
      let (buf, made, low, high) = encode_lem lib prost msg first in
      let (rest, tail) = encode_all_lem msgs i in (buf ++ rest, rw (made, tail))

  decode-empty : is_final lib prost (decode lib prost []) ≡ false
  unfolding decode
  decode-empty = refl

  module _ {S : Type 0} (handle : S → Message IpNet → S × Done) where
    process-empty : (s : S) → process lib prost handle [] s ≡ (s, ok [])
    unfolding process
    process-empty s = refl

    process-encode_all :
        (msgs : List (Message IpNet)) (buf : List ℕ) (s : S)
        → All (IsMessage lib prost) msgs
        → encode_all msgs ≡ ok buf
        → process lib prost handle buf s
          ≡ and_then
              (handle_all lib prost handle (map (received lib prost) msgs) s)
              (λ s'. (s', ok []))
    unfolding encode_all handle_all
    process-encode_all [] buf s i made =
        subst (λ b. process lib prost handle b s ≡ (s, ok [])) (ap (get_or []) made)
          (process-empty s)
    process-encode_all (msg ∷ msgs) buf s (first, i) made =
        let (bytes, one, low, high) = encode_lem lib prost msg first in
        let (rest, tail) = encode_all_lem msgs i in
        let whole : encode_all (msg ∷ msgs) ≡ ok (bytes ++ rest) = rw (encode_all, one, tail) in
        let same = ap (get_or []) (sym whole ∙ made) in
        let r = handle s (received lib prost msg) in
        let done : S → S × Done = handle_all lib prost handle (map (received lib prost) msgs) in
        let decoded = decode-encode lib prost msg bytes rest first one in
        ap (λ b. process lib prost handle b s) (sym same)
        ∙ process-message lib prost handle (bytes ++ rest) (received lib prost msg) (length bytes) s
            decoded
        ∙ ap (λ b. and_then r (process lib prost handle b)) (drop-append bytes rest)
        ∙ and_then-cong r (process lib prost handle rest)
            (λ s'. and_then (done s') (λ s''. (s'', ok [])))
            (λ s'. process-encode_all msgs rest s' i tail)
        ∙ and_then-and_then r done (λ s'. (s', ok []))

    -- However the network splits the bytes of a sequence of messages, each within the ranges of
    -- its types, into reads, the receiver's loop handles exactly what the other side sees of these
    -- messages, a target VNI of 0 being seen as none, in their order, as far as no handler fails;
    -- if none fails, nothing is left in its buffer.
    pub process_reads-encode_all :
        (msgs : List (Message IpNet)) (chunks : List (List ℕ)) (s : S)
        → All (IsMessage lib prost) msgs
        → encode_all msgs ≡ ok (joined chunks)
        → process_reads lib prost handle chunks [] s
          ≡ and_then
              (handle_all lib prost handle (map (received lib prost) msgs) s)
              (λ s'. (s', ok []))
    process_reads-encode_all msgs chunks s i made =
        process_reads-joined lib prost handle chunks [] s decode-empty
        ∙ process-encode_all msgs (joined chunks) s i made
