-- ===== src/Web/X402/Fresh.antt =====
-- web/src/hooks/use-x402.ts: a run id that `submit` has not given yet has no run and no timer.
use mathlib.Core.Path.{subst}
use micro_ai_paygate.Prelude.{
  ℕ, suc, Text, false, ◌≡◌, ◌≢◌, ◌<◌, refl, ◌∙◌, ap, Option, inl, inr, ◌==◌, ==_iff, Bool-cases,
  trim, arith, ==-false,
}
use micro_ai_paygate.Js.Json.{Json}
use micro_ai_paygate.Js.Host.{Host, Ethers}
use micro_ai_paygate.Web.X402.{Flow, finish}
use micro_ai_paygate.Web.X402.Reports.{has}
use micro_ai_paygate.Web.X402.System.{
  Env, World, System, Reply, Event, submitted, cancelled, answered, timed, is_run, perform, advance,
  go_on, next_run, after_event, run_of, mounted, Reachable, mount, next, placed, fire,
}
use micro_ai_paygate.Web.X402.System as System
use micro_ai_paygate.Web.X402.Runs.{advance-run_id, advance-timers}

-- No run has a number that `submit` has not given yet.
pub record IsFresh (s : System) : Type 0 where
  pub runs : (n : ℕ) → s.world.run_id < n → s.runs n ≡ finish tt
  pub timers : (n : ℕ) → s.world.run_id < n → s.world.timers n ≡ false

module _ (host : Host) (env : Env) where
  advance-finish :
      (my_run : ℕ) (m : Flow Unit) (w : World)
      → m ≡ finish tt
      → advance host env my_run m w ≡ (finish tt, w)
  unfolding advance
  advance-finish my_run m w h = rw h refl

placed-IsFresh :
    (s : System) (my_run : ℕ) (after : Flow Unit × World)
    → ((n : ℕ) → after.1.run_id < n → n ≢ my_run → s.runs n ≡ finish tt)
    → (after.1.run_id < my_run → after.0 ≡ finish tt)
    → ((n : ℕ) → after.1.run_id < n → after.1.timers n ≡ false)
    → IsFresh (placed s my_run after)
placed-IsFresh s my_run after others mine timers = record {
  runs = λ n later. elim (Bool-cases (n == my_run)) [
    | inl e ↦ rw e (mine (subst (λ m. after.1.run_id < m) ((==_iff n my_run).0 e) later))
    | inr e ↦ rw e (others n later (==-false n my_run e))
  ];
  timers = timers;
}

module _ (host : Host) (env : Env) where
  abbrev pub begun : Flow Unit → System → System
  begun m s =
      placed s (suc s.world.run_id) (advance host env (suc s.world.run_id) m (next_run s.world))

  begun-IsFresh : (m : Flow Unit) (s : System) → IsFresh s → IsFresh (begun m s)
  begun-IsFresh m s h =
      let number = advance-run_id host env (suc s.world.run_id) m (next_run s.world) in
      placed-IsFresh s (suc s.world.run_id)
        (advance host env (suc s.world.run_id) m (next_run s.world))
        (λ n later other. h.runs n (omega (number, arith)))
        (λ later. absurd (omega (number, arith)))
        (λ n later.
          advance-timers host env (suc s.world.run_id) n (omega (number, arith)) m
            (next_run s.world)
          ∙ h.timers n (omega (number, arith)))

  -- A number that is not given yet has no run that could go on.
  pub unborn :
      (my_run : ℕ) (r : Reply) (s : System)
      → s.runs my_run ≡ finish tt
      → advance host env my_run (go_on (s.runs my_run) r) s.world ≡ (finish tt, s.world)
  unfolding advance
  unborn my_run r s h = rw h refl

  resumed-IsFresh :
      (my_run : ℕ) (r : Reply) (s : System)
      → IsFresh s
      → IsFresh (placed s my_run (advance host env my_run (go_on (s.runs my_run) r) s.world))
  resumed-IsFresh my_run r s h =
      let m : Flow Unit = go_on (s.runs my_run) r in
      let number = advance-run_id host env my_run m s.world in
      placed-IsFresh s my_run (advance host env my_run m s.world)
        (λ n later other. h.runs n (omega (number, arith)))
        (λ later. ap (λ after. after.0) (unborn my_run r s (h.runs my_run (omega (number, arith)))))
        (λ n later. elim (Bool-cases (n == my_run)) [
          | inl e ↦
              let it : n ≡ my_run = (==_iff n my_run).0 e in
              let same = unborn my_run r s (h.runs my_run (omega (number, arith))) in
              ap (λ after. after.1.timers n) same ∙ h.timers n (omega (number, arith))
          | inr e ↦
              advance-timers host env my_run n (==-false n my_run e) m s.world
              ∙ h.timers n (omega (number, arith))
        ])

module _ (host : Host) (atob : Text → Option Text) (to_text : Json → Option Text) (ethers : Ethers)
    (gateway_url : Option Text) where
  after_event-IsFresh :
      (e : Event) (s : System)
      → IsFresh s
      → IsFresh (after_event host atob to_text ethers gateway_url e s)
  unfolding after_event System.reset fire
  after_event-IsFresh (submitted env input flow_run_id correlation_id) s h =
      elim (Bool-cases (has (trim input))) [
        | inl e ↦ rw e (
            begun-IsFresh host env
              (run_of host atob to_text ethers gateway_url input flow_run_id correlation_id) s h)
        | inr e ↦ rw e h
      ]
  after_event-IsFresh cancelled s h = record {
    runs = λ n later. h.runs n (omega arith);
    timers = λ n later. h.timers n (omega arith);
  }
  after_event-IsFresh (answered env my_run r) s h = resumed-IsFresh host env my_run r s h
  after_event-IsFresh (timed my_run) s h = record {
    runs = h.runs;
    timers = λ n later. elim (Bool-cases (n == my_run)) [
      | inl e ↦ rw e refl
      | inr e ↦ rw e (h.timers n later)
    ];
  }

  pub Reachable-IsFresh :
      {s : System} → Reachable host atob to_text ethers gateway_url s → IsFresh s
  Reachable-IsFresh (mount store) = record { runs = λ n later. refl; timers = λ n later. refl }
  Reachable-IsFresh (next e r) = after_event-IsFresh e _ (Reachable-IsFresh r)
