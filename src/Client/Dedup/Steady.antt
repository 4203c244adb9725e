-- ===== src/Client/Dedup/Steady.antt =====
-- One route of a client of src/client.rs, where no task comes between the tracker's change for the
-- route and the call that follows it.
use rustbond.Prelude.{
  ℕ, ◌≡◌, ◌⊎◌, refl, sym, ap, ◌∙◌, Bool, true, false, ◌&&◌, ◌||◌, List, [], ◌∷◌, ◌++◌, map, inl,
  inr, arith, is_empty, Bool-cases, Option-cases,
}
use rustbond.Collections.Map.{get}
use rustbond.Route.{RouteKey, RouteKey-discrete}
use rustbond.Handler.{Call, add_route, remove_route}
use rustbond.Client.Tracker.Servers.{servers_of}
use rustbond.Client.Dedup.{
  Event, Step, tracks, calls, Running, at_start, is_busy, take_first, track, step, run,
}
use rustbond.Client.Dedup.Calls.{on, tracked, change, latest, track-on, track-calls, on-append}
use rustbond.Client.Dedup.Interleaved.{
  count, owed, owed-append, count-take_first, IsBalanced, step-IsBalanced, at_start-IsBalanced,
}

change-cases : (b b' : Bool) → ((b ≡ b') × (change b b' ≡ [])) ⊎ (change b b' ≡ b' ∷ [])
change-cases true true = inl (refl, refl)
change-cases true false = inr refl
change-cases false true = inr refl
change-cases false false = inl (refl, refl)

-- A list with no element, or with one, is known by how often each value occurs in it.
count_nil : (bs : List Bool) → count true bs ≡ 0 → count false bs ≡ 0 → bs ≡ []
count_nil [] h k = refl
count_nil (true ∷ bs) h k = absurd (omega (arith, h))
count_nil (false ∷ bs) h k = absurd (omega (arith, k))

count_single :
    (b : Bool) (bs : List Bool)
    → count true bs ≡ count true (b ∷ [])
    → count false bs ≡ count false (b ∷ [])
    → bs ≡ b ∷ []
count_single true [] h k = absurd (omega (arith, h))
count_single false [] h k = absurd (omega (arith, k))
count_single true (true ∷ bs) h k =
    ap (λ l. true ∷ l) (count_nil bs (omega (arith, h)) (omega (arith, k)))
count_single true (false ∷ bs) h k = absurd (omega (arith, k))
count_single false (true ∷ bs) h k = absurd (omega (arith, h))
count_single false (false ∷ bs) h k =
    ap (λ l. false ∷ l) (count_nil bs (omega (arith, h)) (omega (arith, k)))

module _ {N : Type 0} (net : Discrete N) where
  -- A call is not on the route, or it is.
  on-cases :
      (q : RouteKey N) (c : Call N)
      → ((cs : List (Call N)) → on net q (c ∷ cs) ≡ on net q cs)
        ⊎ ((b : Bool) × ((cs : List (Call N)) → on net q (c ∷ cs) ≡ b ∷ on net q cs))
  unfolding on
  on-cases q (add_route k) = elim (RouteKey-discrete net k q) [
    | yes p ↦ inr (true, λ cs. ground (arith, p))
    | no n ↦ inl (λ cs. ground (arith, n))
  ]
  on-cases q (remove_route k) = elim (RouteKey-discrete net k q) [
    | yes p ↦ inr (false, λ cs. ground (arith, p))
    | no n ↦ inl (λ cs. ground (arith, n))
  ]

  -- The step does not ask for a call on the route while another is still to be made.
  unfoldable pub is_calm : RouteKey N → Running N → Step N → Bool
  is_calm q r (tracks t e) =
      is_busy t r.pending
      || is_empty (on net q (owed r.pending))
      || is_empty (on net q (track net r.shared e).1)
  is_calm q r (calls t) = true

  unfoldable pub undisturbed : RouteKey N → Running N → List (Step N) → Bool
  undisturbed q r [] = true
  undisturbed q r (s ∷ ss) = is_calm q r s && undisturbed q (step net r s) ss

  -- The route is installed as the tracker has it, or the one call that is to be made does this.
  pub data IsSteady (q : RouteKey N) (r : Running N) : Type 0 where
    rests :
        on net q (owed r.pending) ≡ []
        → latest (on net q r.shared.calls) ≡ tracked net q r.shared
        → IsSteady q r
    owes : on net q (owed r.pending) ≡ tracked net q r.shared ∷ [] → IsSteady q r

  after_track : Running N → ℕ → Event N → Running N
  after_track r t e = record {
    shared = (track net r.shared e).0;
    pending = r.pending ++ map (λ c. (t, c)) (track net r.shared e).1;
    seen = e ∷ r.seen;
  }

  after_track-IsSteady :
      (q : RouteKey N) (r : Running N) (t : ℕ) (e : Event N)
      → IsBalanced net r
      → (is_empty (on net q (owed r.pending)) || is_empty (on net q (track net r.shared e).1))
        ≡ true
      → IsSteady q r
      → IsSteady q (after_track r t e)
  unfolding after_track
  after_track-IsSteady q r t e i calm (rests p h) =
      let st' = (track net r.shared e).0 in
      let made = (track net r.shared e).1 in
      let owing : on net q (owed (after_track r t e).pending) ≡ on net q made =
        ap (on net q) (owed-append r.pending t made)
        ∙ on-append net q (owed r.pending) made
        ∙ ap (λ bs. bs ++ on net q made) p in
      let asked = track-on net r.shared e q i.tracker in
      elim (change-cases (tracked net q r.shared) (tracked net q st')) [
        | inl (same, n) ↦
            rests (owing ∙ asked ∙ n)
              (ap (λ cs. latest (on net q cs)) (track-calls net r.shared e) ∙ h ∙ same)
        | inr one ↦ owes (owing ∙ asked ∙ one)
      ]
  after_track-IsSteady q r t e i calm (owes p) =
      let st' = (track net r.shared e).0 in
      let made = (track net r.shared e).1 in
      let asked = track-on net r.shared e q i.tracker in
      elim (change-cases (tracked net q r.shared) (tracked net q st')) [
        | inl (same, n) ↦ owes (
            ap (on net q) (owed-append r.pending t made)
            ∙ on-append net q (owed r.pending) made
            ∙ ap (λ bs. bs ++ on net q made) p
            ∙ ap (λ bs. tracked net q r.shared ∷ bs) (asked ∙ n)
            ∙ ap (λ b. b ∷ []) same)
        | inr one ↦ ground (arith, calm, p, asked, one)
      ]

  tracks-IsSteady :
      (q : RouteKey N) (r : Running N) (t : ℕ) (e : Event N)
      → IsBalanced net r
      → is_calm q r (tracks t e) ≡ true
      → IsSteady q r
      → IsSteady q (step net r (tracks t e))
  unfolding step is_calm after_track
  tracks-IsSteady q r t e i calm steady = elim (Bool-cases (is_busy t r.pending)) [
    | inl busy ↦ rw (step, busy) steady
    | inr free ↦
        rw (step, free) (after_track-IsSteady q r t e i (ground (arith, calm, free)) steady)
  ]

  taken-IsSteady :
      (q : RouteKey N) (r : Running N) (c : Call N) (rest : List (ℕ × Call N)) (b : Bool)
      → on net q (c ∷ owed rest) ≡ b ∷ []
      → b ≡ tracked net q r.shared
      → IsSteady q
          (record r { shared = record r.shared { calls = c ∷ r.shared.calls }; pending = rest })
  unfolding tracked
  taken-IsSteady q r c rest b p same = elim (on-cases q c) [
    | inl other ↦ owes (sym (other (owed rest)) ∙ p ∙ ap (λ x. x ∷ []) same)
    | inr (x, here) ↦
        let all = sym (here (owed rest)) ∙ p in
        rests (ground (arith, all)) (ap latest (here r.shared.calls) ∙ ground (arith, all, same))
  ]

  calls-IsSteady :
      (q : RouteKey N) (r : Running N) (t : ℕ) → IsSteady q r → IsSteady q (step net r (calls t))
  unfolding step tracked
  calls-IsSteady q r t steady = elim (Option-cases (take_first t r.pending)) [
    | inl none_left ↦ rw (step, none_left) steady
    | inr ((c, rest), taken) ↦
        let adds = count-take_first net t r.pending rest c q true taken in
        let removes = count-take_first net t r.pending rest c q false taken in
        elim steady [
          | rests p h ↦
              let none_of =
                count_nil (on net q (c ∷ owed rest)) (sym adds ∙ ap (count true) p)
                  (sym removes ∙ ap (count false) p) in
              elim (on-cases q c) [
                | inl other ↦
                    rw (step, taken)
                      (rests (sym (other (owed rest)) ∙ none_of)
                        (ap latest (other r.shared.calls) ∙ h))
                | inr (x, here) ↦ ground (arith, none_of, here (owed rest))
              ]
          | owes p ↦
              let one =
                count_single (tracked net q r.shared) (on net q (c ∷ owed rest))
                  (sym adds ∙ ap (count true) p) (sym removes ∙ ap (count false) p) in
              rw (step, taken) (taken-IsSteady q r c rest (tracked net q r.shared) one refl)
        ]
  ]

  step-IsSteady :
      (q : RouteKey N) (r : Running N) (s : Step N)
      → IsBalanced net r
      → is_calm q r s ≡ true
      → IsSteady q r
      → IsSteady q (step net r s)
  step-IsSteady q r (tracks t e) i calm steady = tracks-IsSteady q r t e i calm steady
  step-IsSteady q r (calls t) i calm steady = calls-IsSteady q r t steady

  run-IsSteady :
      (q : RouteKey N) (r : Running N) (ss : List (Step N))
      → IsBalanced net r
      → undisturbed q r ss ≡ true
      → IsSteady q r
      → IsSteady q (run net r ss)
  unfolding run undisturbed
  run-IsSteady q r [] i h steady = steady
  run-IsSteady q r (s ∷ ss) i h steady =
      run-IsSteady q (step net r s) ss (step-IsBalanced net r s i) (ground (arith, h))
        (step-IsSteady q r s i (ground (arith, h)) steady)

  pub run-at_start-IsSteady :
      (q : RouteKey N) (ss : List (Step N))
      → undisturbed q at_start ss ≡ true
      → IsSteady q (run net at_start ss)
  unfolding on tracked servers_of get
  run-at_start-IsSteady q ss h =
      run-IsSteady q at_start ss (at_start-IsBalanced net) h (rests refl refl)
