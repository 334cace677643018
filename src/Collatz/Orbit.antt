-- ===== src/Collatz/Orbit.antt =====
-- What `test_collatz_convergence` of cw02/assignment/collatz.c computes: the orbit of its input under
-- the Collatz step on the natural numbers.
use agh_operating_systems.Prelude.{
  ℕ, zero, suc, ◌+◌, ◌-◌, ◌*◌, ◌/◌, ◌%◌, ◌≤◌, ◌<◌, ◌≡◌, refl, sym, ◌∙◌, List, [], ◌∷◌, ◌++◌, some,
  ◌==◌, ltb, if◌then◌else◌, arith, ap, Bool-cases, Option-cases, inl, inr, ◌⊎◌, subst, append_assoc,
  append-nil, ==_iff,
}
use native.Mathlib.Decide.{ℕ_discrete, dec_lt}
use agh_operating_systems.Collatz.Defs.{collatz_conjecture, converge, test_collatz_convergence}

abbrev pub next : ℕ → ℕ
next n = if n % 2 == 0 then n / 2 else 3 * n + 1

-- The number after `k` steps.
unfoldable pub iterate : ℕ → ℕ → ℕ
iterate zero n = n
iterate (suc k) n = iterate k (next n)

-- The numbers after 1 to `k` steps.
unfoldable pub trail : ℕ → ℕ → List ℕ
trail zero n = []
trail (suc k) n = next n ∷ trail k (next n)

pub collatz_conjecture-next : (n m : ℕ) → collatz_conjecture n ≡ some m → m ≡ next n
unfolding collatz_conjecture
collatz_conjecture-next n m h = ground arith

-- The loop has taken `d` steps.
pub record Stopped (rounds n : ℕ) (steps : List ℕ) (d : ℕ) (out : List ℕ) : Type 0 where
  pub few : d ≤ rounds
  pub above : (j : ℕ) → j < d → 1 < iterate j n
  pub ended : (iterate d n ≤ 1) ⊎ (d ≡ rounds)
  pub written : out ≡ steps ++ trail d n

above_later :
    (n d : ℕ)
    → 1 < n
    → ((j : ℕ) → j < d → 1 < iterate j (next n))
    → (j : ℕ) → j < suc d
    → 1 < iterate j n
unfolding iterate
above_later n d big h zero lt = big
above_later n d big h (suc j) lt = h j (omega arith)

Stopped-later :
    (rounds n d : ℕ) (steps out : List ℕ)
    → 1 < n
    → Stopped rounds (next n) (steps ++ next n ∷ []) d out
    → Stopped (suc rounds) n steps (suc d) out
unfolding iterate trail
Stopped-later rounds n d steps out big st = record {
  few = omega (arith, st.few);
  above = above_later n d big st.above;
  ended = elim st.ended [ inl e ↦ inl e | inr e ↦ inr (ap suc e) ];
  written = st.written ∙ append_assoc steps (next n ∷ []) (trail d (next n));
}

pub converge-Stopped :
    (rounds n cnt last c : ℕ) (steps out : List ℕ)
    → converge rounds n cnt steps ≡ some (last, c, out)
    → (d : ℕ) × (c ≡ cnt + d) × (last ≡ iterate d n) × Stopped rounds n steps d out
unfolding converge iterate trail
converge-Stopped zero n cnt last c steps out h = (
  0,
  ground arith,
  ground arith,
  record {
    few = omega arith;
    above = λ j lt. absurd (omega arith);
    ended = inr refl;
    written = ground (arith, append-nil steps);
  },
)
converge-Stopped (suc rounds) n cnt last c steps out h = elim (Bool-cases (ltb 1 n)) [
  | inl e ↦ elim (Option-cases (collatz_conjecture n)) [
    | inl q ↦ absurd (ground arith)
    | inr (m, q) ↦
        let mq = collatz_conjecture-next n m q in
        let (d, ec, el, st) =
          converge-Stopped rounds m (cnt + 1) last c (steps ++ m ∷ []) out (ground arith) in
        (
          suc d,
          omega (arith, ec),
          el ∙ ap (iterate d) mq,
          Stopped-later rounds n d steps out (ground arith)
              (subst (λ x. Stopped rounds x (steps ++ x ∷ []) d out) mq st),
        )
  ]
  | inr e ↦ (
    0,
    ground arith,
    ground arith,
    record {
      few = omega arith;
      above = λ j lt. absurd (omega arith);
      ended = inl (ground arith);
      written = ground (arith, append-nil steps);
    },
  )
]

-- What the result of `test_collatz_convergence` says.
abbrev pub Answers : ℕ → ℕ → ℕ → List ℕ → Type 0
Answers max_iter input zero steps = (input ≤ 1) ⊎ ((j : ℕ) → j < max_iter → 1 < iterate j input)
Answers max_iter input (suc r) steps =
    (iterate (suc r) input ≡ 1)
    × ((j : ℕ) → j < suc r → 1 < iterate j input)
    × (suc r < max_iter)
    × (steps ≡ input ∷ trail (suc r) input)

next_pos : (n : ℕ) → 1 < n → 0 < next n
next_pos n h = ground arith

-- An orbit that has stayed above 1 is not at 0.
iterate_pos : (d n : ℕ) → ((j : ℕ) → j < suc d → 1 < iterate j n) → 0 < iterate (suc d) n
unfolding iterate
iterate_pos zero n h = next_pos n (h 0 (omega arith))
iterate_pos (suc d) n h = iterate_pos d (next n) (λ j lt. h (suc j) (omega (arith, lt)))

stays_above :
    (d n : ℕ)
    → ((j : ℕ) → j < d → 1 < iterate j n)
    → 1 < iterate d n
    → (j : ℕ) → j < suc d
    → 1 < iterate j n
stays_above d n h last j lt = elim (ℕ_discrete j d) [
  | yes e ↦ subst (λ k. 1 < iterate k n) (sym e) last
  | no ne ↦ h j (omega arith)
]

Stopped-Answers :
    (rounds n d : ℕ) (out : List ℕ)
    → Stopped rounds n (n ∷ []) d out
    → Answers (suc rounds) n (if iterate d n == 1 then d else 0) out
unfolding iterate
Stopped-Answers rounds n zero out st =
    let same : ◌≡◌ {A = ℕ} 0 (if iterate 0 n == 1 then 0 else 0) = ground arith in
    subst (λ r. Answers (suc rounds) n r out) same
      (elim (dec_lt 1 n) [
        | yes big ↦ elim st.ended [
          | inl small ↦ absurd (omega arith)
          | inr e ↦ inr (λ j lt.
              stays_above 0 n (λ k none_below. absurd (omega arith)) big j (omega (arith, e)))
        ]
        | no small ↦ inl (omega arith)
      ])
Stopped-Answers rounds n (suc d) out st =
    let pos = iterate_pos d n st.above in
    elim (Bool-cases (iterate (suc d) n == 1)) [
      | inl e ↦
          rw e ((==_iff (iterate (suc d) n) 1).0 e, st.above, omega (arith, st.few), st.written)
      | inr e ↦
          let big : 1 < iterate (suc d) n = ground (arith, pos) in
          rw e (elim st.ended [
            | inl small ↦ absurd (omega (arith, small, big))
            | inr full ↦ inr (λ j lt. stays_above (suc d) n st.above big j (omega (arith, full)))
          ])
    ]

-- When no `int` overflows: a positive result `r` is below `max_iter`, the orbit of the input is at 1 after
-- `r` steps and above 1 before, and `steps` holds the input and the orbit up to that 1. The
-- result 0 means that the input is 0 or 1, or that the orbit is above 1 at every index below
-- `max_iter`.
pub test_collatz_convergence-Answers :
    (input max_iter r : ℕ) (steps : List ℕ)
    → 0 < max_iter
    → test_collatz_convergence input max_iter ≡ some (r, steps)
    → Answers max_iter input r steps
unfolding test_collatz_convergence
test_collatz_convergence-Answers input zero r steps pos h = absurd (omega arith)
test_collatz_convergence-Answers input (suc k) r steps pos h =
    elim (Option-cases (converge (suc k - 1) input 1 (input ∷ []))) [
      | inl e ↦ absurd (ground arith)
      | inr ((last, cnt, out), e) ↦
          let (d, ec, el, st) = converge-Stopped (suc k - 1) input 1 last cnt (input ∷ []) out e in
          let st' : Stopped k input (input ∷ []) d out =
            subst (λ m. Stopped m input (input ∷ []) d out) (omega arith) st in
          let er : (if iterate d input == 1 then d else 0) ≡ r = ground (arith, ec, el) in
          let es : out ≡ steps = ground (arith, e, h) in
          subst (λ x. Answers (suc k) input x steps) er
            (subst (Answers (suc k) input (if iterate d input == 1 then d else 0)) es
              (Stopped-Answers k input d out st'))
    ]
