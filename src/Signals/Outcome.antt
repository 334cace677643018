-- ===== src/Signals/Outcome.antt =====
-- What the exchange between cw05/assignment/sender.c and cw05/assignment/catcher.c comes to.
use agh_operating_systems.Prelude.{
  ◌≡◌, refl, sym, ap, ◌∙◌, subst, true, false, List, [], ◌∷◌, ◌++◌, none, some, ◌⊎◌, inl, inr,
  Bool-cases, append-nil, All, arith,
}
use mathlib.Core.Option.{some-injective}
use agh_operating_systems.Signals.Catcher.{
  ℤ, pos, ◌==ℤ◌, Catcher, catcher, Handled, exited, replied, sig_handler,
}
use agh_operating_systems.Signals.System.{
  CatcherPc, announcing, testing, napping, to_pause, asleep, SenderPc, reading, sent, paused,
  finished, System, init, is_valid, sigqueue, sender_main, catcher_main, resume, handled, Event,
  sender_runs, catcher_runs, deliver, acknowledge, step, Run, begin, next,
}
use agh_operating_systems.Signals.History.{
  values, Summary, sig_handler-replied, sig_handler-exits, ==ℤ-true,
}
use agh_operating_systems.Signals.Invariant.{valids, waiting}
use agh_operating_systems.Signals.Exchange.{Run-Inv}

-- In every state that catcher and sender reach, in any order of their statements and signals, the values that the catcher
-- has printed, then the one on its way, then the valid ones that the sender has still to read, are the valid values of the
-- input: none is lost, doubled or overtaken.
pub Run-told :
    (inputs : List ℤ) {s : System}
    → Run (init inputs) s
    → values s.state.printed ++ (waiting s.mail ++ valids s.inputs) ≡ valids inputs
Run-told inputs r = (Run-Inv r).told

-- In every state that they reach, `changes` is the number of values printed that differ from the one before (0 at the
-- start), `current_type` is the last value, `timer_running` tells whether it is 2, and SIGINT is ignored or handled as the
-- last 3 or 4 says; and a catcher that has ended was sent a 5.
pub Run-Summary :
    (inputs : List ℤ) {s : System}
    → Run (init inputs) s
    → Summary (values s.state.printed) s.state × ((s.alive ≡ true) ⊎ (s.state.current_type ≡ pos 5))
Run-Summary inputs {s = s} r =
    let v = Run-Inv r in
    (v.summary, elim (Bool-cases s.alive) [ inl e ↦ inl e | inr e ↦ inr (v.dead e) ])

-- The sender reads, and no signal is on its way.
abbrev pub at_rest : List ℤ → CatcherPc → Catcher → System
at_rest inputs pc c = record {
  inputs = inputs;
  sender = reading;
  mail = none;
  ack = false;
  alive = true;
  main = pc;
  state = c;
}

-- Behind `sigqueue`.
abbrev posted : ℤ → List ℤ → CatcherPc → Catcher → System
posted v rest pc c = record (at_rest rest pc c) { mail = some v; sender = sent }

abbrev pub Not5 : ℤ → Type 0
Not5 v = v ==ℤ pos 5 ≡ false

-- The sender waits, and no signal is on its way that ends it.
pub record Stuck (rest : List ℤ) (s : System) : Type 0 where
  pub pausing : s.sender ≡ paused
  pub no_mail : s.mail ≡ none
  pub no_ack : s.ack ≡ false
  pub unread : s.inputs ≡ rest

module _ {from : System} (v : ℤ) (rest : List ℤ) (pc : CatcherPc) (c : Catcher) where
  post-Run : is_valid v ≡ true → Run from (at_rest (v ∷ rest) pc c) → Run from (posted v rest pc c)
  unfolding step sender_main sigqueue
  post-Run ok r = next sender_runs r (rw ok refl)

  deliver-Run :
      (pc' : SenderPc) (x : Handled)
      → sig_handler v c ≡ x
      → Run from (record (posted v rest pc c) { sender = pc' })
      → Run from (handled x (record (posted v rest pc c) { sender = pc' }))
  unfolding step
  deliver-Run pc' x e r =
      next deliver r (ap (λ y. some (handled y (record (posted v rest pc c) { sender = pc' }))) e)

  -- The sender is in `pause` when the signal comes back.
  round-Run :
      is_valid v ≡ true
      → Not5 v
      → Run from (at_rest (v ∷ rest) pc c)
      → (d : Catcher) × Run from (at_rest rest (resume pc) d)
  unfolding step sender_main handled
  round-Run ok n r =
      let (d, e) = sig_handler-replied v c n in
      (
        d,
        next acknowledge (deliver-Run paused (replied d) e (next sender_runs (post-Run ok r) refl))
            refl,
      )

  skip-Run : is_valid v ≡ false → Run from (at_rest (v ∷ rest) pc c) → Run from (at_rest rest pc c)
  unfolding step sender_main
  skip-Run ok r = next sender_runs r (rw ok refl)

  -- The signal comes back before `pause`.
  early-Run :
      is_valid v ≡ true
      → Not5 v
      → Run from (at_rest (v ∷ rest) pc c)
      → (t : System) × Run from t × Stuck rest t
  unfolding step sender_main handled
  early-Run ok n r =
      let (d, e) = sig_handler-replied v c n in
      (
        _,
        next sender_runs (next acknowledge (deliver-Run sent (replied d) e (post-Run ok r)) refl)
            refl,
        record { pausing = refl; no_mail = refl; no_ack = refl; unread = refl },
      )

  -- The catcher exits.
  exit-Run :
      is_valid v ≡ true
      → v ==ℤ pos 5 ≡ true
      → Run from (at_rest (v ∷ rest) pc c)
      → (t : System) × Run from t × Stuck rest t
  unfolding step sender_main handled
  exit-Run ok n r =
      let (d, e) = sig_handler-exits v c (==ℤ-true v (pos 5) n) in
      (
        _,
        deliver-Run paused (exited d) e (next sender_runs (post-Run ok r) refl),
        record { pausing = refl; no_mail = refl; no_ack = refl; unread = refl },
      )

rest-Run :
    {from : System} (inputs : List ℤ) (pc : CatcherPc) (c : Catcher)
    → All Not5 inputs
    → Run from (at_rest inputs pc c)
    → (pc' : CatcherPc) × (d : Catcher) × Run from (at_rest [] pc' d)
rest-Run [] pc c h r = (pc, c, r)
rest-Run (v ∷ rest) pc c h r = elim (Bool-cases (is_valid v)) [
  | inl ok ↦ let (d, r') = round-Run v rest pc c ok h.0 r in rest-Run rest (resume pc) d h.1 r'
  | inr bad ↦ rest-Run rest pc c h.1 (skip-Run v rest pc c bad r)
]

module _ {rest : List ℤ} {s : System} (h : Stuck rest s) where
  shifted : (pc : CatcherPc) (c : Catcher) → Stuck rest (record s { main = pc; state = c })
  shifted pc c = record {
    pausing = h.pausing;
    no_mail = h.no_mail;
    no_ack = h.no_ack;
    unread = h.unread;
  }

  catcher_main-Stuck : (pc : CatcherPc) (t : System) → catcher_main pc s ≡ some t → Stuck rest t
  unfolding catcher_main
  catcher_main-Stuck announcing t e = subst (Stuck rest) (some-injective _ _ e) (shifted _ _)
  catcher_main-Stuck (testing n) t e = elim (Bool-cases s.state.timer_running) [
    | inl b ↦ subst (Stuck rest) (some-injective _ _ (simp b at e)) (shifted _ _)
    | inr b ↦ subst (Stuck rest) (some-injective _ _ (simp b at e)) (shifted _ _)
  ]
  catcher_main-Stuck (napping n) t e = subst (Stuck rest) (some-injective _ _ e) (shifted _ _)
  catcher_main-Stuck to_pause t e = subst (Stuck rest) (some-injective _ _ e) (shifted _ _)
  catcher_main-Stuck asleep t e = absurd (cc)

  -- Nothing ends the waiting of a sender that is stuck.
  step-Stuck : (e : Event) (t : System) → step e s ≡ some t → Stuck rest t
  unfolding step sender_main
  step-Stuck sender_runs t q = absurd (cc (ap (λ x. sender_main x s.inputs s) h.pausing))
  step-Stuck catcher_runs t q = elim (Bool-cases s.alive) [
    | inl a ↦ catcher_main-Stuck s.main t (simp a at q)
    | inr a ↦ absurd (ground arith)
  ]
  step-Stuck deliver t q = absurd (cc (h.no_mail))
  step-Stuck acknowledge t q = absurd (ground (arith, h.no_ack))

-- A sender that waits while no signal is on its way waits for ever: whatever happens then, it reads no further value.
pub Run-Stuck : {rest : List ℤ} {s t : System} → Stuck rest s → Run s t → Stuck rest t
Run-Stuck h begin = h
Run-Stuck h (next {t = t} e r q) = step-Stuck (Run-Stuck h r) e t q

begin-Run : (inputs : List ℤ) → Run (init inputs) (at_rest inputs announcing catcher)
unfolding init
begin-Run inputs = begin

-- Whatever valid value comes first, a state can be reached in which the sender waits and no signal is on its way: the
-- acknowledgement has come before the call of `pause`, or the value was 5 and the catcher has exited.
pub valid-Stuck :
    (v : ℤ) (rest : List ℤ)
    → is_valid v ≡ true
    → (t : System) × Run (init (v ∷ rest)) t × Stuck rest t
valid-Stuck v rest ok = elim (Bool-cases (v ==ℤ pos 5)) [
  | inl e ↦ exit-Run v rest announcing catcher ok e (begin-Run (v ∷ rest))
  | inr e ↦ early-Run v rest announcing catcher ok e (begin-Run (v ∷ rest))
]

-- An input without a 5 can be sent to its end: there is a run in which the sender finishes and the catcher has printed
-- every valid value, in order.
pub Run-complete :
    (inputs : List ℤ)
    → All Not5 inputs
    → (t : System) × Run (init inputs) t
      × (t.sender ≡ finished)
      × (values t.state.printed ≡ valids inputs)
unfolding step sender_main valids
Run-complete inputs h =
    let (pc, d, r) = rest-Run inputs announcing catcher h (begin-Run inputs) in
    (
      record (at_rest [] pc d) { sender = finished },
      next sender_runs r refl,
      refl,
      sym (append-nil _) ∙ Run-told inputs r,
    )
