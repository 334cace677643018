-- ===== src/PrintQueue/Window.antt =====
-- The part of the circular buffer of cw08/assignment/main.c between head and tail.
use agh_operating_systems.Prelude.{
  ℕ, zero, suc, ◌+◌, ◌-◌, ◌%◌, ◌<◌, ◌≡◌, refl, ◌∙◌, List, [], ◌∷◌, ◌++◌, Option, none, some,
  get_elem?, set, arith, ap, ap₂, get_elem?-set_ne,
}
use agh_operating_systems.CString.{Bytes}
use agh_operating_systems.PrintQueue.System.{queue_size}

-- `jobs[i]`, and an empty text out of range.
abbrev pub job_at : List Bytes → ℕ → Bytes
job_at jobs i = elim (get_elem? jobs i) [ none ↦ [] | some job ↦ job ]

-- The `n` jobs from index `h` on, round the end of the array.
unfoldable pub window : List Bytes → ℕ → ℕ → List Bytes
window jobs h zero = []
window jobs h (suc n) = job_at jobs h ∷ window jobs ((h + 1) % queue_size) n

pub window-snoc :
    (jobs : List Bytes) (h n : ℕ)
    → h < queue_size
    → window jobs h (suc n) ≡ window jobs h n ++ job_at jobs ((h + n) % queue_size) ∷ []
unfolding window
window-snoc jobs h zero lt = ap (λ i. job_at jobs i ∷ []) (omega arith)
window-snoc jobs h (suc n) lt = ap (◌∷◌ (job_at jobs h)) (
    window-snoc jobs ((h + 1) % queue_size) n (omega arith)
    ∙ ap (λ i. window jobs ((h + 1) % queue_size) n ++ job_at jobs i ∷ []) (omega arith))

-- The first job of a window that is not empty.
pub window-cons :
    (jobs : List Bytes) (h n : ℕ)
    → 0 < n
    → window jobs h n ≡ job_at jobs h ∷ window jobs ((h + 1) % queue_size) (n - 1)
unfolding window
window-cons jobs h zero lt = absurd (omega arith)
window-cons jobs h (suc n) lt = ap (λ k. window jobs h (suc k)) (omega arith)

-- A write at the place behind the last job is outside the window, unless the buffer is full.
pub window-set :
    (jobs : List Bytes) (h n k t : ℕ) (job : Bytes)
    → h < queue_size
    → n + k < queue_size
    → t ≡ (h + n + k) % queue_size
    → window (set jobs t job) h n ≡ window jobs h n
unfolding window
window-set jobs h zero k t job lt room e = refl
window-set jobs h (suc n) k t job lt room e =
    ap₂ ◌∷◌
      (ap (λ (o : Option Bytes). elim o [ none ↦ [] | some j ↦ j ])
        (get_elem?-set_ne jobs t h job (omega arith)))
      (window-set jobs ((h + 1) % queue_size) n k t job (omega arith) (omega arith) (omega arith))
