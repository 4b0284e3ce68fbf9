-- ===== src/Web/X402/Awaits/Termination.antt =====
-- web/src/hooks/use-x402.ts: every run ends once it has its answers, whatever else happens between
-- them.
use mathlib.Core.Path.{subst}
use micro_ai_paygate.Prelude.{
  ℕ, zero, suc, ◌≤◌, Text, Bool, true, false, ◌≡◌, refl, sym, Option, List, [], ◌∷◌, inl, inr, ◌==◌,
  ==_iff, Bool-cases, trim, if◌then◌else◌, arith, put-else,
}
use micro_ai_paygate.Js.Json.{Json}
use micro_ai_paygate.Js.Host.{Host, Ethers}
use micro_ai_paygate.Web.Analytics.{create_flow_context}
use micro_ai_paygate.Web.X402.{Flow, finish, fail, at, act, ask}
use micro_ai_paygate.Web.X402.Reports.{has}
use micro_ai_paygate.Web.X402.System as System
use micro_ai_paygate.Web.X402.System.{
  Env, World, System, Reply, Event, submitted, cancelled, answered, timed, perform, advance, go_on,
  next_run, after_event, run_of, placed, mounted, Reachable, mount, next, fire,
}
use micro_ai_paygate.Web.X402.Runs.{advance-run_id}
use micro_ai_paygate.Web.X402.Awaits.{Within, Within-more}
use micro_ai_paygate.Web.X402.Awaits.Parts.{submit-Within}

abbrev pub is_answer : ℕ → Event → Bool
is_answer my_run (submitted env input flow_run_id correlation_id) = false
is_answer my_run cancelled = false
is_answer my_run (answered env other r) = my_run == other
is_answer my_run (timed other) = false

-- How often an event of the list answers this run.
abbrev pub answers_to : ℕ → List Event → ℕ
answers_to my_run [] = 0
answers_to my_run (e ∷ es) =
    let rest = answers_to my_run es in if is_answer my_run e then suc rest else rest

-- A run that waits, or is over, and throws nothing, with at most so many awaits to come.
abbrev Left : ℕ → Flow Unit → Type 0
Left n (finish u) = Unit
Left n (fail e) = ⊥
Left n (at stage m) = ⊥
Left n (act a k) = ⊥
Left n (ask q k) = Within ⊥ n (ask q k)

module _ (host : Host) (env : Env) (my_run : ℕ) where
  advance-Left :
      (n : ℕ) (m : Flow Unit) (w : World) → Within ⊥ n m → Left n (advance host env my_run m w).0
  unfolding advance Within
  advance-Left n (finish u) w h = tt
  advance-Left n (fail e) w h = h
  advance-Left n (at stage m) w h = advance-Left n m w h
  advance-Left n (act a k) w h =
      advance-Left n (k (perform host env my_run a w).0) (perform host env my_run a w).1 (h _)
  advance-Left n (ask q k) w h = h

  answered-Left :
      (n : ℕ) (m : Flow Unit) (r : Reply) (w : World)
      → Left (suc n) m
      → Left n (advance host env my_run (go_on m r) w).0
  unfolding Within
  answered-Left n (finish u) r w h = advance-Left n (finish u) w tt
  answered-Left n (fail e) r w h = absurd h
  answered-Left n (at stage m) r w h = absurd h
  answered-Left n (act a k) r w h = absurd h
  answered-Left n (ask q k) r w h = advance-Left n (k (r q)) w (h (r q))

Left-more : (n : ℕ) (m : Flow Unit) → Left n m → Left (suc n) m
Left-more n (finish u) h = tt
Left-more n (fail e) h = h
Left-more n (at stage m) h = h
Left-more n (act a k) h = h
Left-more n (ask q k) h = Within-more ⊥ n (ask q k) h

Left-none : (m : Flow Unit) → Left 0 m → m ≡ finish tt
unfolding Within
Left-none (finish u) h = refl
Left-none (fail e) h = absurd h
Left-none (at stage m) h = absurd h
Left-none (act a k) h = absurd h
Left-none (ask q k) h = absurd h

module _ (host : Host) (atob : Text → Option Text) (to_text : Json → Option Text) (ethers : Ethers)
    (gateway_url : Option Text) where
  abbrev pub after_events : List Event → System → System
  after_events [] s = s
  after_events (e ∷ es) s = after_events es (after_event host atob to_text ethers gateway_url e s)

  after_event-run_id :
      (e : Event) (s : System)
      → s.world.run_id ≤ (after_event host atob to_text ethers gateway_url e s).world.run_id
  unfolding after_event System.reset fire
  after_event-run_id (submitted env input flow_run_id correlation_id) s =
      elim (Bool-cases (has (trim input))) [
        | inl e ↦ rw e (
            omega (
              arith,
              advance-run_id host env (suc s.world.run_id)
                  (run_of host atob to_text ethers gateway_url input flow_run_id correlation_id)
                  (next_run s.world),
            ))
        | inr e ↦ rw e (omega arith)
      ]
  after_event-run_id cancelled s = omega arith
  after_event-run_id (answered env my_run r) s =
      omega (arith, advance-run_id host env my_run (go_on (s.runs my_run) r) s.world)
  after_event-run_id (timed my_run) s = omega arith

  after_event-Left :
      (my_run : ℕ) (e : Event) (s : System) (n : ℕ)
      → my_run ≤ s.world.run_id
      → Left n (s.runs my_run)
      → Left n ((after_event host atob to_text ethers gateway_url e s).runs my_run)
  unfolding after_event System.reset fire
  after_event-Left my_run (submitted env input flow_run_id correlation_id) s n old h =
      elim (Bool-cases (has (trim input))) [
        | inl e ↦
            rw e
              (subst (Left n) (sym (put-else s.runs (suc s.world.run_id) my_run _ (omega arith))) h)
        | inr e ↦ rw e h
      ]
  after_event-Left my_run cancelled s n old h = h
  after_event-Left my_run (answered env other r) s n old h = elim (Bool-cases (my_run == other)) [
    | inl e ↦
        let it : my_run ≡ other = (==_iff my_run other).0 e in
        rw e (
          answered-Left host env other n (s.runs other) r s.world
            (Left-more n (s.runs other) (subst (λ m. Left n (s.runs m)) (it) h)))
    | inr e ↦ rw e h
  ]
  after_event-Left my_run (timed other) s n old h = h

  -- An answer takes an await from its run.
  after_event-answer :
      (my_run : ℕ) (e : Event) (s : System) (n : ℕ)
      → is_answer my_run e ≡ true
      → Left (suc n) (s.runs my_run)
      → Left n ((after_event host atob to_text ethers gateway_url e s).runs my_run)
  unfolding after_event
  after_event-answer my_run (submitted env input flow_run_id correlation_id) s n is h = cc
  after_event-answer my_run cancelled s n is h = cc
  after_event-answer my_run (answered env other r) s n is h =
      let it : my_run ≡ other = (==_iff my_run other).0 is in
      rw is (
        answered-Left host env other n (s.runs other) r s.world
          (subst (λ m. Left (suc n) (s.runs m)) (it) h))
  after_event-answer my_run (timed other) s n is h = cc

  after_events-Left :
      (my_run : ℕ) (es : List Event) (s : System) (n : ℕ)
      → my_run ≤ s.world.run_id
      → n ≤ answers_to my_run es
      → Left n (s.runs my_run)
      → (after_events es s).runs my_run ≡ finish tt
  after_events-Left my_run [] s n old enough h =
      Left-none (s.runs my_run) (subst (λ k. Left k (s.runs my_run)) (omega arith) h)
  after_events-Left my_run (e ∷ es) s zero old enough h =
      after_events-Left my_run es _ 0 (omega (arith, after_event-run_id e s)) (omega arith)
        (after_event-Left my_run e s 0 old h)
  after_events-Left my_run (e ∷ es) s (suc n) old enough h =
      let later = after_event-run_id e s in
      elim (Bool-cases (is_answer my_run e)) [
        | inl is ↦
            after_events-Left my_run es _ n (omega (arith, later))
              (omega (arith, (rw is at enough))) (after_event-answer my_run e s n is h)
        | inr other ↦
            after_events-Left my_run es _ (suc n) (omega (arith, later)) (rw other at enough)
              (after_event-Left my_run e s (suc n) old h)
      ]

  -- Every run, given out or not, has at most twelve awaits to come.
  after_event-Bounded :
      (e : Event) (s : System)
      → ((n : ℕ) → Left 12 (s.runs n))
      → (n : ℕ) → Left 12 ((after_event host atob to_text ethers gateway_url e s).runs n)
  unfolding after_event System.reset fire
  after_event-Bounded (submitted env input flow_run_id correlation_id) s h n =
      elim (Bool-cases (has (trim input))) [
        | inl e ↦ rw e (elim (Bool-cases (n == suc s.world.run_id)) [
          | inl it ↦ rw it (
              advance-Left host env (suc s.world.run_id) 12
                (run_of host atob to_text ethers gateway_url input flow_run_id correlation_id)
                (next_run s.world)
                (submit-Within host atob to_text ethers gateway_url input
                  (create_flow_context input flow_run_id correlation_id)))
          | inr other ↦ rw other (h n)
        ])
        | inr e ↦ rw e (h n)
      ]
  after_event-Bounded cancelled s h n = h n
  after_event-Bounded (answered env my_run r) s h n = elim (Bool-cases (n == my_run)) [
    | inl it ↦ rw it (
        answered-Left host env my_run 12 (s.runs my_run) r s.world
          (Left-more 12 (s.runs my_run) (h my_run)))
    | inr other ↦ rw other (h n)
  ]
  after_event-Bounded (timed my_run) s h n = h n

  Reachable-Bounded :
      {s : System} → Reachable host atob to_text ethers gateway_url s → (n : ℕ) → Left 12 (s.runs n)
  Reachable-Bounded (mount store) n = tt
  Reachable-Bounded (next e {s} r) n = after_event-Bounded e s (Reachable-Bounded r) n

  -- After twelve answers to a run that was submitted, in whatever order with other events, that run
  -- is over, and it has thrown nothing.
  pub after_events-finish :
      {s : System}
      → Reachable host atob to_text ethers gateway_url s
      → (my_run : ℕ) → my_run ≤ s.world.run_id
      → (es : List Event) → 12 ≤ answers_to my_run es
      → (after_events es s).runs my_run ≡ finish tt
  after_events-finish {s} r my_run old es enough =
      after_events-Left my_run es s 12 old enough (Reachable-Bounded r my_run)
