-- ===== src/Wire/Framing/Keeps.antt =====
-- What every handler of a message keeps, the message loop of src/peer.rs and src/server.rs keeps.
use rustbond.Prelude.{
  ℕ, zero, suc, List, [], ◌∷◌, drop, inl, inr, length, Bool, true, false, if◌then◌else◌,
}
use rustbond.Types.Address.{IpNetLib}
use rustbond.Types.Proto.{Prost}
use rustbond.Types.Convert.{Result, Done, ok, err}
use rustbond.Wire.Message.{Message}
use rustbond.Wire.Codec.{decode}
use rustbond.Wire.Codec.Extend.{is_incomplete}
use rustbond.Wire.Framing.{and_then, process_fuel, process}
use rustbond.Wire.Framing.Enough.{Result-cases}

module _ (lib : IpNetLib) (prost : Prost) {S : Type 0}
    (handle : S → Message (IpNetLib.IpNet lib) → S × Done) (P : S → Type 0)
    (keeps : (s : S) (msg : Message (IpNetLib.IpNet lib)) → P s → P (handle s msg).0) where
  and_then-keeps :
      {A : Type 0} (r : S × Done) (f : S → S × Result A)
      → P r.0
      → ((s : S) → P s → P (f s).0)
      → P (and_then r f).0
  and_then-keeps (s, ok done) f p rest = rest s p
  and_then-keeps (s, err e) f p rest = p

  stop-keeps :
      (b : Bool) (x y : Result (List ℕ)) (s : S)
      → P s
      → P (if◌then◌else◌ {A = S × Result (List ℕ)} b (s, x) (s, y)).0
  stop-keeps true x y s p = p
  stop-keeps false x y s p = p

  process_fuel-keeps :
      (n : ℕ) (buf : List ℕ) (s : S) → P s → P (process_fuel lib prost handle n buf s).0
  unfolding process_fuel
  process_fuel-keeps zero buf s p = p
  process_fuel-keeps (suc n) [] s p = p
  process_fuel-keeps (suc n) (b ∷ bs) s p = elim (Result-cases (decode lib prost (b ∷ bs))) [
    | inl ((msg, consumed), h) ↦
        rw (h, process_fuel)
          (and_then-keeps (handle s msg) (process_fuel lib prost handle n (drop consumed (b ∷ bs)))
            (keeps s msg p) (process_fuel-keeps n (drop consumed (b ∷ bs))))
    | inr (e, h) ↦ rw (h, process_fuel) (stop-keeps (is_incomplete e) (ok (b ∷ bs)) (err e) s p)
  ]

  pub process-keeps : (buf : List ℕ) (s : S) → P s → P (process lib prost handle buf s).0
  unfolding process
  process-keeps buf s p = process_fuel-keeps (length buf) buf s p
