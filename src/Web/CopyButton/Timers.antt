-- ===== src/Web/CopyButton/Timers.antt =====
-- web/src/components/copy-button.tsx: the timer that takes the word "Copied" away again.
use micro_ai_paygate.Prelude.{
  ℕ, zero, suc, ◌≤◌, Bool, true, false, ◌≡◌, refl, sym, ap, Option, none, some, ◌==◌, ==_iff,
  ==-false, ==_refl, Bool-cases, inl, inr, arith, if◌then◌else◌, put,
}
use micro_ai_paygate.Web.Analytics as Analytics
use micro_ai_paygate.Web.CopyButton.{
  Button, set_copied, cleared, has_written, fire, unmount, Event, clicked, written, due, unmounted,
  answered, after_event, Reachable, mount, next,
}

abbrev pub is_set : Option ℕ → (ℕ → Bool) → Bool
is_set none live = false
is_set (some id) live = live id

-- Only the latest timer can be set, and the button says that it has copied while it is.
pub record IsTimed (b : Button) : Type 0 where
  pub unborn : (n : ℕ) → b.next_timer ≤ n → b.live n ≡ false
  pub latest : (n : ℕ) → b.live n ≡ true → b.timer ≡ some n
  pub shown : b.is_mounted ≡ true → b.copied ≡ is_set b.timer b.live

not_true : (b : Bool) → (b ≡ true → ⊥) → b ≡ false
not_true true h = absurd (h refl)
not_true false h = refl

-- When the latest timer is cleared, none is set.
cleared-none :
    (timer : Option ℕ) (live : ℕ → Bool)
    → ((n : ℕ) → live n ≡ true → timer ≡ some n)
    → (n : ℕ) → cleared timer live n ≡ false
cleared-none none live latest n = not_true (live n) (λ on. let e = latest n on in cc)
cleared-none (some id) live latest n = elim (Bool-cases (n == id)) [
  | inl e ↦ rw e refl
  | inr e ↦ rw e (
      not_true (live n) (λ on.
        let same : some id ≡ some n = latest n on in let it : n ≡ id = cc in ==-false n id e it))
]

written-IsTimed :
    (request : Option Analytics.Request) (b : Button) → IsTimed b → IsTimed (has_written request b)
unfolding has_written set_copied
written-IsTimed request b h =
    let off = cleared-none b.timer b.live h.latest in
    record {
      unborn = λ n later. elim (Bool-cases (n == b.next_timer)) [
        | inl e ↦ absurd (omega (arith, later, (==_iff n b.next_timer).0 e))
        | inr e ↦ rw e (off n)
      ];
      latest = λ n on. elim (Bool-cases (n == b.next_timer)) [
        | inl e ↦ ap some (sym ((==_iff n b.next_timer).0 e))
        | inr e ↦ let none_there = off n in let on' = (rw e at on) in cc
      ];
      shown = λ there. rw (there, ==_refl b.next_timer) refl;
    }

waiting-IsTimed : (n : ℕ) (b : Button) → IsTimed b → IsTimed (record b { waiting = n })
waiting-IsTimed n b h = record { unborn = h.unborn; latest = h.latest; shown = h.shown }

if-IsTimed :
    (c : Bool) (b b' : Button) → (c ≡ true → IsTimed b') → IsTimed b → IsTimed (if c then b' else b)
if-IsTimed true b b' h k = h refl
if-IsTimed false b b' h k = k

fired-IsTimed :
    (id : ℕ) (b : Button)
    → b.live id ≡ true
    → IsTimed b
    → IsTimed (set_copied false (record b { live = put b.live id false }))
unfolding set_copied
fired-IsTimed id b on h = record {
  unborn = λ n later. elim (Bool-cases (n == id)) [
    | inl e ↦ rw e refl
    | inr e ↦ rw e (h.unborn n later)
  ];
  latest = λ n set. elim (Bool-cases (n == id)) [
    | inl e ↦ let off = (rw e at set) in cc
    | inr e ↦ h.latest n (rw e at set)
  ];
  shown = λ there. rw (there, h.latest id on, ==_refl id) refl;
}

fire-IsTimed : (id : ℕ) (b : Button) → IsTimed b → IsTimed (fire id b)
unfolding fire
fire-IsTimed id b h = if-IsTimed (b.live id) b _ (λ on. fired-IsTimed id b on h) h

unmount-IsTimed : (b : Button) → IsTimed b → IsTimed (unmount b)
unfolding unmount
unmount-IsTimed b h =
    let off = cleared-none b.timer b.live h.latest in
    record {
      unborn = λ n later. off n;
      latest = λ n on. let gone = off n in cc;
      shown = λ (there : false ≡ true). cc;
    }

answered-IsTimed :
    (n : ℕ) (taken : Bool) (request : Option Analytics.Request) (b : Button)
    → IsTimed b
    → IsTimed (answered n taken request b)
answered-IsTimed zero taken request b h = h
answered-IsTimed (suc n) true request b h = written-IsTimed request _ (waiting-IsTimed n b h)
answered-IsTimed (suc n) false request b h = waiting-IsTimed n b h

module _ (request : Option Analytics.Request) where
  after_event-IsTimed : (e : Event) (b : Button) → IsTimed b → IsTimed (after_event request e b)
  unfolding after_event
  after_event-IsTimed clicked b h =
      if-IsTimed b.is_mounted b _ (λ there. waiting-IsTimed (suc b.waiting) b h) h
  after_event-IsTimed unmounted b h = if-IsTimed b.is_mounted b _ (λ there. unmount-IsTimed b h) h
  after_event-IsTimed (written taken) b h = answered-IsTimed b.waiting taken request b h
  after_event-IsTimed (due id) b h = fire-IsTimed id b h

  -- At every moment at most one timer of the button is set, the latest, and while the button is
  -- mounted it shows "Copied" exactly as long as that timer is set.
  pub Reachable-IsTimed : {b : Button} → Reachable request b → IsTimed b
  Reachable-IsTimed mount = record {
    unborn = λ n later. refl;
    latest = λ n on. cc;
    shown = λ there. refl;
  }
  Reachable-IsTimed (next e {b} r) = after_event-IsTimed e b (Reachable-IsTimed r)
