-- ===== src/Web/X402/Refinement.antt =====
-- web/src/hooks/use-x402.ts: the hook with all its runs against the page with its latest run only.
use mathlib.Core.Path.{subst}
use micro_ai_paygate.Prelude.{
  ℕ, suc, Text, true, false, not, ◌≡◌, ◌≢◌, refl, sym, ◌∙◌, ap, Option, inl, inr, ==_iff,
  Bool-cases, trim, if◌then◌else◌, arith, put, put-same, put-else, ==_refl, ==-false,
}
use micro_ai_paygate.Js.Json.{Json}
use micro_ai_paygate.Js.Host.{Host, Ethers}
use micro_ai_paygate.Web.X402.{Flow}
use micro_ai_paygate.Web.X402.Reports.{has}
use micro_ai_paygate.Web.X402.System.{
  Env, World, System, Reply, Event, submitted, cancelled, answered, timed, is_run, perform, advance,
  go_on, next_run, after_event, run_of, mounted, Reachable, mount, next, placed, fire,
}
use micro_ai_paygate.Web.X402.System as System
use micro_ai_paygate.Web.X402.Runs.{
  IsUntouched, advance-run_id, advance-timers, advance-IsUntouched,
}
use micro_ai_paygate.Web.X402.Fresh.{begun, Reachable-IsFresh}
use micro_ai_paygate.Web.X402.Latest.{
  Page, run_on, Happening, submission, reset, reply, due, stored_elsewhere, to_single,
  without_timer, single_step, page_of, latest, IsSame, advance-run_on,
}

placed-latest :
    (s : System) (my_run : ℕ) (after : Flow Unit × World)
    → after.1.run_id ≡ my_run
    → latest (placed s my_run after) ≡ to_single (after.0, page_of after.1)
placed-latest s my_run after h =
    subst (λ n. latest (placed s n after) ≡ to_single (after.0, page_of after.1)) h
      (ap (λ m. record { page = page_of after.1; run = m })
        (put-same s.runs after.1.run_id after.0))

IsSame-single :
    (x : Flow Unit × World) (y : Flow Unit × Page)
    → IsSame x y
    → to_single (x.0, page_of x.1) ≡ to_single y
IsSame-single x y (run, page) = cc

module _ (host : Host) (env : Env) where
  begun-latest :
      (m : Flow Unit) (s : System)
      → s.world.timers (suc s.world.run_id) ≡ false
      → latest (begun host env m s)
        ≡ to_single (run_on host env m (without_timer (page_of s.world)))
  begun-latest m s off =
      let my_run : ℕ = suc s.world.run_id in
      let after : Flow Unit × World = advance host env my_run m (next_run s.world) in
      let start : page_of (next_run s.world) ≡ without_timer (page_of s.world) = rw off refl in
      placed-latest s my_run after (advance-run_id host env my_run m (next_run s.world))
      ∙ IsSame-single after (run_on host env m (page_of (next_run s.world)))
          (advance-run_on host env my_run m (next_run s.world) (==_refl my_run))
      ∙ ap (λ p. to_single (run_on host env m p)) start

  resumed-latest :
      (my_run : ℕ) (r : Reply) (s : System)
      → is_run s.world my_run ≡ true
      → latest (placed s my_run (advance host env my_run (go_on (s.runs my_run) r) s.world))
        ≡ single_step host (reply env r) (latest s)
  resumed-latest my_run r s now =
      let m : Flow Unit = go_on (s.runs my_run) r in
      let number : s.world.run_id ≡ my_run = (==_iff s.world.run_id my_run).0 now in
      placed-latest s my_run (advance host env my_run m s.world)
        (advance-run_id host env my_run m s.world ∙ number)
      ∙ IsSame-single (advance host env my_run m s.world) (run_on host env m (page_of s.world))
          (advance-run_on host env my_run m s.world now)
      ∙ ap (λ n. to_single (run_on host env (go_on (s.runs n) r) (page_of s.world))) (sym number)

  stale-latest :
      (my_run : ℕ) (m : Flow Unit) (s : System)
      → is_run s.world my_run ≡ false
      → latest (placed s my_run (advance host env my_run m s.world))
        ≡ single_step host (stored_elsewhere (advance host env my_run m s.world).1.store) (latest s)
  stale-latest my_run m s past =
      let w' : World = (advance host env my_run m s.world).1 in
      let untouched : IsUntouched s.world w' = advance-IsUntouched host env my_run m s.world past in
      let other : s.world.run_id ≢ my_run = ==-false s.world.run_id my_run past in
      let timer : w'.timers w'.run_id ≡ s.world.timers s.world.run_id =
        ap (λ n. w'.timers n) untouched.run_id
        ∙ advance-timers host env my_run s.world.run_id other m s.world in
      let run : put s.runs my_run (advance host env my_run m s.world).0 w'.run_id
          ≡ s.runs s.world.run_id =
        ap (λ n. put s.runs my_run (advance host env my_run m s.world).0 n) untouched.run_id
        ∙ put-else s.runs my_run s.world.run_id _ other in
      λ i. record {
        page = record {
          state = untouched.state i;
          reports = untouched.reports i;
          store = w'.store;
          timer = timer i;
        };
        run = run i;
      }

module _ (host : Host) (atob : Text → Option Text) (to_text : Json → Option Text) (ethers : Ethers)
    (gateway_url : Option Text) where
  -- What an event is for the page: an event of a superseded run can only store a receipt, and a
  -- submission of white space changes nothing.
  abbrev pub happening : Event → System → Happening
  happening (submitted env input flow_run_id correlation_id) s =
      if not (has (trim input))
      then stored_elsewhere s.world.store
      else submission env
          (run_of host atob to_text ethers gateway_url input flow_run_id correlation_id)
  happening cancelled s = reset
  happening (answered env my_run r) s =
      if is_run s.world my_run
      then reply env r
      else stored_elsewhere
          (after_event host atob to_text ethers gateway_url (answered env my_run r) s).world.store
  happening (timed my_run) s = if is_run s.world my_run then due else stored_elsewhere s.world.store

  -- Over every history of submissions, resets, answers and timers, each event changes what the page
  -- shows, reports and stores, its timer and its latest run, exactly as the page with one run and no
  -- numbers of runs would change: a run that was superseded adds nothing but a stored receipt.
  pub after_event-latest :
      (e : Event) {s : System}
      → Reachable host atob to_text ethers gateway_url s
      → latest (after_event host atob to_text ethers gateway_url e s)
        ≡ single_step host (happening e s) (latest s)
  unfolding after_event System.reset fire
  after_event-latest (submitted env input flow_run_id correlation_id) {s} reachable =
      let fresh = Reachable-IsFresh host atob to_text ethers gateway_url reachable in
      elim (Bool-cases (has (trim input))) [
        | inl e ↦ rw e (
            begun-latest host env
              (run_of host atob to_text ethers gateway_url input flow_run_id correlation_id) s
              (fresh.timers (suc s.world.run_id) (omega arith)))
        | inr e ↦ rw e refl
      ]
  after_event-latest cancelled {s} reachable =
      let fresh = Reachable-IsFresh host atob to_text ethers gateway_url reachable in
      rw (fresh.runs (suc s.world.run_id) (omega arith))
        (rw (fresh.timers (suc s.world.run_id) (omega arith)) refl)
  after_event-latest (answered env my_run r) {s} reachable =
      elim (Bool-cases (is_run s.world my_run)) [
        | inl e ↦ rw e (resumed-latest host env my_run r s e)
        | inr e ↦ rw e (stale-latest host env my_run (go_on (s.runs my_run) r) s e)
      ]
  after_event-latest (timed my_run) {s} reachable = elim (Bool-cases (is_run s.world my_run)) [
    | inl e ↦
        let number : s.world.run_id ≡ my_run = (==_iff s.world.run_id my_run).0 e in
        rw e (elim (Bool-cases (s.world.timers my_run)) [
          | inl on ↦ rw on (rw (ap s.world.timers number ∙ on) refl)
          | inr off ↦ rw off (rw (ap s.world.timers number ∙ off) refl)
        ])
    | inr e ↦
        rw e (elim (Bool-cases (s.world.timers my_run)) [
          | inl on ↦ rw on refl
          | inr off ↦ rw off refl
        ])
  ]
