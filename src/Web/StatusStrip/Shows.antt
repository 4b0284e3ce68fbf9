-- ===== src/Web/StatusStrip/Shows.antt =====
-- web/src/components/status-strip.tsx: the cells of each step.
use micro_ai_paygate.Prelude.{
  ℕ, zero, suc, ◌-◌, ◌<◌, ◌≡◌, refl, Bool, true, List, [], ◌∷◌, ◌++◌, if◌then◌else◌, arith,
}
use micro_ai_paygate.Web.X402.{X402Step}
use micro_ai_paygate.Web.StatusStrip.{Cell, finished, active, pending, failed, cells, is_on_strip}

abbrev pub replicate : ℕ → Cell → List Cell
replicate zero c = []
replicate (suc n) c = c ∷ replicate n c

-- The first cells finished, one marked, and the others pending.
abbrev pub marked : ℕ → Cell → List Cell
marked i mark = replicate i finished ++ (mark ∷ replicate (5 - i) pending)

pub cells-marked :
    (step : X402Step) (has_error : Bool)
    → is_on_strip step ≡ true
    → (i : ℕ) × (i < 6) × (cells step has_error ≡ marked i (if has_error then failed else active))
unfolding cells
cells-marked X402Step.idle has_error h = cc
cells-marked X402Step.done has_error h = cc
cells-marked X402Step.error has_error h = cc
cells-marked X402Step.request has_error h = (0, omega arith, refl)
cells-marked X402Step.challenge has_error h = (1, omega arith, refl)
cells-marked X402Step.sign has_error h = (2, omega arith, refl)
cells-marked X402Step.verify has_error h = (3, omega arith, refl)
cells-marked X402Step.ai has_error h = (4, omega arith, refl)
cells-marked X402Step.receipt has_error h = (5, omega arith, refl)

pub cells_idle : (has_error : Bool) → cells X402Step.idle has_error ≡ replicate 6 pending
unfolding cells
cells_idle has_error = refl

pub cells_done : (has_error : Bool) → cells X402Step.done has_error ≡ replicate 6 finished
unfolding cells
cells_done has_error = refl
