-- ===== src/Web/ReceiptCard/Ages.antt =====
-- web/src/components/receipt-card.tsx: the age that a card shows.
use micro_ai_paygate.Prelude.{ℕ, ◌+◌, ◌*◌, ◌≤◌, ◌<◌, ltb, Bool-cases, inl, inr, arith}
use micro_ai_paygate.Web.ReceiptCard.{Age, just_now, minutes, hours, days, age}

-- The number of whole units in a time, at least one and below a limit.
pub record IsUnits (unit limit n diff : ℕ) : Type 0 where
  pub some_there : 1 ≤ n
  pub below : n < limit
  pub down : n * unit ≤ diff
  pub up : diff < (n + 1) * unit

abbrev pub IsAge : ℕ → Age → Type 0
IsAge diff just_now = diff < 60000
IsAge diff (minutes n) = IsUnits 60000 60 n diff
IsAge diff (hours n) = IsUnits 3600000 24 n diff
IsAge diff (days n) = (1 ≤ n) × (n * 86400000 ≤ diff) × (diff < (n + 1) * 86400000)

-- A time below a minute is just now. From then on the card shows the whole minutes, below 60, from an
-- hour the whole hours, below 24, and from a day the whole days, never none of them.
pub age-IsAge : (diff : ℕ) → IsAge diff (age diff)
unfolding age
age-IsAge diff = elim (Bool-cases (ltb diff 60000)) [
  | inl e ↦ rw e (ground arith)
  | inr e ↦ elim (Bool-cases (ltb diff 3600000)) [
    | inl f ↦
        rw (e, f)
          (record {
            some_there = ground (arith, e, f);
            below = ground (arith, e, f);
            down = ground (arith, e, f);
            up = ground (arith, e, f);
          })
    | inr f ↦ elim (Bool-cases (ltb diff 86400000)) [
      | inl g ↦
          rw (e, f, g)
            (record {
              some_there = ground (arith, e, f, g);
              below = ground (arith, e, f, g);
              down = ground (arith, e, f, g);
              up = ground (arith, e, f, g);
            })
      | inr g ↦ rw (e, f, g) (ground (arith, g), ground (arith, g), ground (arith, g))
    ]
  ]
]
