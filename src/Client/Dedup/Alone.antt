-- ===== src/Client/Dedup/Alone.antt =====
-- A client of src/client.rs of which one task alone makes steps, as with a single server.
use rustbond.Prelude.{
  ℕ, ◌≡◌, refl, Bool, true, ◌&&◌, ◌||◌, List, [], ◌∷◌, ◌++◌, map, some, inl, inr, arith, ◌==◌,
  is_empty, Bool-cases, Option-cases,
}
use rustbond.Route.{RouteKey}
use rustbond.Handler.{Call}
use rustbond.Client.Dedup.{Step, tracks, calls, Running, is_busy, take_first, track, step}
use rustbond.Client.Dedup.Calls.{on}
use rustbond.Client.Dedup.Interleaved.{owed}
use rustbond.Client.Dedup.Steady.{is_calm, undisturbed}

abbrev pub is_by : {N : Type 0} → ℕ → Step N → Bool
is_by t (tracks u e) = u == t
is_by t (calls u) = u == t

abbrev pub all_by : {N : Type 0} → ℕ → List (Step N) → Bool
all_by t [] = true
all_by t (s ∷ ss) = is_by t s && all_by t ss

-- All calls that are still to be made are those of the task.
abbrev all_of : {N : Type 0} → ℕ → List (ℕ × Call N) → Bool
all_of t [] = true
all_of t ((u, c) ∷ pending) = (u == t) && all_of t pending

module _ {N : Type 0} where
  all_of-append :
      (t : ℕ) (pending : List (ℕ × Call N)) (made : List (Call N))
      → all_of t pending ≡ true
      → all_of t (pending ++ map (λ c. (t, c)) made) ≡ true
  all_of-append t [] [] h = refl
  all_of-append t [] (c ∷ made) h = ground (arith, all_of-append t [] made h)
  all_of-append t ((u, c) ∷ pending) made h = ground (arith, h, all_of-append t pending made)

  all_of-take_first :
      (t u : ℕ) (pending rest : List (ℕ × Call N)) (c : Call N)
      → take_first u pending ≡ some (c, rest)
      → all_of t pending ≡ true
      → all_of t rest ≡ true
  unfolding take_first
  all_of-take_first t u [] rest c h a = ground (arith, h)
  all_of-take_first t u ((v, d) ∷ pending) rest c h a = elim (Option-cases (take_first u pending)) [
    | inl n ↦ ground (arith, h, n, a)
    | inr ((c', rest'), p) ↦ ground (arith, h, p, a, all_of-take_first t u pending rest' c' p)
  ]

  module _ (net : Discrete N) where
    step-all_of :
        (t : ℕ) (r : Running N) (s : Step N)
        → is_by t s ≡ true
        → all_of t r.pending ≡ true
        → all_of t (step net r s).pending ≡ true
    unfolding step
    step-all_of t r (tracks u e) h a = elim (Bool-cases (is_busy u r.pending)) [
      | inl busy ↦ rw (step, busy) a
      | inr free ↦
          rw (step, free) (ground (arith, h, all_of-append t r.pending (track net r.shared e).1 a))
    ]
    step-all_of t r (calls u) h a = elim (Option-cases (take_first u r.pending)) [
      | inl none_left ↦ rw (step, none_left) a
      | inr ((c, rest), taken) ↦ rw (step, taken) (all_of-take_first t u r.pending rest c taken a)
    ]

    busy_or_done :
        (q : RouteKey N) (t u : ℕ) (pending : List (ℕ × Call N))
        → (u == t) ≡ true
        → all_of t pending ≡ true
        → (is_busy u pending || is_empty (on net q (owed pending))) ≡ true
    unfolding on
    busy_or_done q t u [] h a = refl
    busy_or_done q t u ((v, c) ∷ pending) h a = ground (arith, h, a)

    calm_alone :
        (q : RouteKey N) (t : ℕ) (r : Running N) (s : Step N)
        → is_by t s ≡ true
        → all_of t r.pending ≡ true
        → is_calm net q r s ≡ true
    unfolding is_calm
    calm_alone q t r (calls u) h a = refl
    calm_alone q t r (tracks u e) h a = ground (arith, busy_or_done q t u r.pending h a)

    -- Then nothing comes between the tracker's change and the call that follows it.
    pub undisturbed_alone :
        (q : RouteKey N) (t : ℕ) (r : Running N) (ss : List (Step N))
        → all_by t ss ≡ true
        → all_of t r.pending ≡ true
        → undisturbed net q r ss ≡ true
    unfolding undisturbed
    undisturbed_alone q t r [] h a = refl
    undisturbed_alone q t r (s ∷ ss) h a =
        let by_t : is_by t s ≡ true = ground (arith, h) in
        ground (
          arith,
          h,
          calm_alone q t r s by_t a,
          undisturbed_alone q t (step net r s) ss,
          step-all_of t r s by_t a,
        )
