-- ===== src/Client/Dedup/Interleaved.antt =====
-- The tasks of a client of src/client.rs, in any order of their steps.
use rustbond.Prelude.{
  ℕ, ◌+◌, ◌≡◌, refl, ap, ◌∙◌, Bool, true, false, List, [], ◌∷◌, ◌++◌, map, some, inl, inr, arith,
  if◌then◌else◌, Bool-cases, Option-cases,
}
use rustbond.Collections.Map.{get}
use rustbond.Route.{RouteKey}
use rustbond.Handler.{Call}
use rustbond.Client.Tracker.Servers.{IsTracker, new-IsTracker, servers_of}
use rustbond.Client.Dedup.{
  Event, Step, tracks, calls, Running, at_start, is_busy, take_first, track, step, run,
}
use rustbond.Client.Dedup.Calls.{on, tracked, track-on, track-IsTracker, track-calls, on-append}

-- How often does the value occur?
abbrev pub once : Bool → Bool → ℕ
once true true = 1
once false false = 1
once true false = 0
once false true = 0

abbrev pub count : Bool → List Bool → ℕ
count b [] = 0
count b (x ∷ bs) = once b x + count b bs

count-append : (b : Bool) (xs ys : List Bool) → count b (xs ++ ys) ≡ count b xs + count b ys
count-append b [] ys = omega arith
count-append b (x ∷ xs) ys = omega (arith, count-append b xs ys)

-- The calls that are still to be made.
abbrev pub owed : {N : Type 0} → List (ℕ × Call N) → List (Call N)
owed pending = map (λ p. p.1) pending

pub owed-append :
    {N : Type 0} (pending : List (ℕ × Call N)) (t : ℕ) (made : List (Call N))
    → owed (pending ++ map (λ c. (t, c)) made) ≡ owed pending ++ made
owed-append [] t [] = refl
owed-append [] t (c ∷ made) = ap (λ cs. c ∷ cs) (owed-append [] t made)
owed-append (p ∷ pending) t made = ap (λ cs. p.1 ∷ cs) (owed-append pending t made)

module _ {N : Type 0} (net : Discrete N) where
  pub count-on :
      (q : RouteKey N) (b : Bool) (c : Call N) (cs : List (Call N))
      → count b (on net q (c ∷ cs)) ≡ count b (on net q (c ∷ [])) + count b (on net q cs)
  count-on q b c cs =
      ap (count b) (on-append net q (c ∷ []) cs) ∙ count-append b (on net q (c ∷ [])) (on net q cs)

  -- The calls on a route are the same, but for their order, when one of them is taken.
  pub count-take_first :
      (t : ℕ) (pending rest : List (ℕ × Call N)) (c : Call N) (q : RouteKey N) (b : Bool)
      → take_first t pending ≡ some (c, rest)
      → count b (on net q (owed pending)) ≡ count b (on net q (c ∷ owed rest))
  unfolding take_first
  count-take_first t [] rest c q b h = ground (arith, h)
  count-take_first t ((u, d) ∷ pending) rest c q b h = elim (Option-cases (take_first t pending)) [
    | inl n ↦ ground (arith, h, n)
    | inr ((c', rest'), p) ↦ ground (
      arith,
      h,
      p,
      count-take_first t pending rest' c' q b p,
      count-on q b d (owed pending),
      count-on q b c' (owed rest'),
      count-on q b d (owed rest'),
      count-on q b c' (owed ((u, d) ∷ rest')),
    )
  ]

  -- Made or still to be made, the calls on each route add it once more than they remove it exactly
  -- if the tracker holds a server for it.
  pub record IsBalanced (r : Running N) : Type 0 where
    pub tracker : IsTracker net r.shared.origins
    pub balance :
        (q : RouteKey N)
        → count true (on net q r.shared.calls) + count true (on net q (owed r.pending))
          ≡ count false (on net q r.shared.calls)
            + count false (on net q (owed r.pending))
            + (if tracked net q r.shared then 1 else 0)

  tracks-IsBalanced :
      (r : Running N) (t : ℕ) (e : Event N) → IsBalanced r → IsBalanced (step net r (tracks t e))
  unfolding step
  tracks-IsBalanced r t e i = elim (Bool-cases (is_busy t r.pending)) [
    | inl busy ↦ rw (step, busy) i
    | inr free ↦
        let made = (track net r.shared e).1 in
        rw (step, free)
          (record {
            tracker = track-IsTracker net r.shared e i.tracker;
            balance = λ q. ground (
              arith,
              i.balance q,
              track-on net r.shared e q i.tracker,
              ap (on net q) (track-calls net r.shared e),
              ap (on net q) (owed-append r.pending t made),
              on-append net q (owed r.pending) made,
              count-append true (on net q (owed r.pending)) (on net q made),
              count-append false (on net q (owed r.pending)) (on net q made),
            );
          })
  ]

  calls-IsBalanced : (r : Running N) (t : ℕ) → IsBalanced r → IsBalanced (step net r (calls t))
  unfolding step tracked
  calls-IsBalanced r t i = elim (Option-cases (take_first t r.pending)) [
    | inl none_left ↦ rw (step, none_left) i
    | inr ((c, rest), taken) ↦
        rw (step, taken)
          (record {
            tracker = i.tracker;
            balance = λ q. ground (
              arith,
              i.balance q,
              count-take_first t r.pending rest c q true taken,
              count-take_first t r.pending rest c q false taken,
              count-on q true c (owed rest),
              count-on q false c (owed rest),
              count-on q true c r.shared.calls,
              count-on q false c r.shared.calls,
            );
          })
  ]

  pub step-IsBalanced : (r : Running N) (s : Step N) → IsBalanced r → IsBalanced (step net r s)
  step-IsBalanced r (tracks t e) i = tracks-IsBalanced r t e i
  step-IsBalanced r (calls t) i = calls-IsBalanced r t i

  pub at_start-IsBalanced : IsBalanced at_start
  unfolding on tracked servers_of get
  at_start-IsBalanced = record { tracker = new-IsTracker net; balance = λ q. refl }

  run-IsBalanced : (r : Running N) (ss : List (Step N)) → IsBalanced r → IsBalanced (run net r ss)
  unfolding run
  run-IsBalanced r [] i = i
  run-IsBalanced r (s ∷ ss) i = run-IsBalanced (step net r s) ss (step-IsBalanced r s i)

  -- Whatever the client's tasks do, in whatever order of their steps, the calls of the user's
  -- handler on each route, made or still to be made, add it once more than they remove it if the
  -- tracker holds a server for it, and as often if not.
  pub run-at_start-IsBalanced : (ss : List (Step N)) → IsBalanced (run net at_start ss)
  run-at_start-IsBalanced ss = run-IsBalanced at_start ss at_start-IsBalanced
