-- ===== src/Signals/Exchange.antt =====
-- Every step of catcher, sender and signals keeps the invariant.
use agh_operating_systems.Prelude.{
  ◌≡◌, refl, sym, ap, ◌∙◌, subst, true, false, List, [], ◌∷◌, ◌++◌, Option, none, some,
  if◌then◌else◌, arith, inl, inr, Bool-cases, append_assoc,
}
use agh_operating_systems.Signals.Catcher.{ℤ, Catcher, Handled, exited, replied, sig_handler}
use agh_operating_systems.Signals.System.{
  SenderPc, reading, sent, paused, finished, System, init, is_valid, sigqueue, sender_main, handled,
  wake, Event, sender_runs, catcher_runs, deliver, acknowledge, step, Run, begin, next,
}
use agh_operating_systems.Signals.History.{
  state_of, values, Summary, sig_handler-Summary, sig_handler-values, sig_handler-exited,
}
use agh_operating_systems.Signals.Invariant.{
  valids, valids-keep, valids-skip, sigqueue-some, waiting, Phase, Inv, init-Inv, Kept, kept,
  wake-Phase, taken-Phase, catcher_main-Kept,
}

module _ {inputs : List ℤ} {s : System} (v : Inv inputs s) where
  -- What the sender does while no signal is on its way.
  module _ (h : Phase reading s.mail s.ack s.alive) where
    sent-Inv :
        (val : ℤ) (rest : List ℤ)
        → s.inputs ≡ val ∷ rest
        → is_valid val ≡ true
        → Inv inputs (record s { inputs = rest; mail = sigqueue val s; sender = sent })
    unfolding sigqueue valids
    sent-Inv val rest q ok = record {
      phase = λ e. absurd (cc (h.1));
      told =
          ap (λ x. values s.state.printed ++ (waiting x ++ valids rest))
            (sigqueue-some val s h.0 h.2)
          ∙ ap (λ x. values s.state.printed ++ x) (sym (valids-keep val rest ok))
          ∙ ap (λ x. values s.state.printed ++ valids x) (sym q)
          ∙ ap (λ x. values s.state.printed ++ (waiting x ++ valids s.inputs)) (sym h.0)
          ∙ v.told;
      dead = v.dead;
      summary = v.summary;
    }

    skipped-Inv :
        (val : ℤ) (rest : List ℤ)
        → s.inputs ≡ val ∷ rest
        → is_valid val ≡ false
        → Inv inputs (record s { inputs = rest })
    unfolding valids
    skipped-Inv val rest q ok = record {
      phase = v.phase;
      told =
          ap (λ x. values s.state.printed ++ (waiting s.mail ++ x)) (sym (valids-skip val rest ok))
          ∙ ap (λ x. values s.state.printed ++ (waiting s.mail ++ valids x)) (sym q)
          ∙ v.told;
      dead = v.dead;
      summary = v.summary;
    }

    finished-Inv : Inv inputs (record s { sender = finished })
    finished-Inv = record { phase = h; told = v.told; dead = v.dead; summary = v.summary }

  handled-values :
      (val : ℤ) (c : Catcher)
      → c ≡ state_of (sig_handler val s.state)
      → values c.printed ≡ values s.state.printed ++ val ∷ []
  handled-values val c e = ap (λ x. values x.printed) e ∙ sig_handler-values val s.state

  handled-told :
      (val : ℤ)
      → s.mail ≡ some val
      → (c : Catcher) → c ≡ state_of (sig_handler val s.state)
      → values c.printed ++ valids s.inputs ≡ valids inputs
  handled-told val m c e =
      ap (λ x. x ++ valids s.inputs) (handled-values val c e)
      ∙ append_assoc (values s.state.printed) (val ∷ []) (valids s.inputs)
      ∙ ap (λ x. values s.state.printed ++ (waiting x ++ valids s.inputs)) (sym m)
      ∙ v.told

  handled-Summary :
      (val : ℤ) (c : Catcher)
      → c ≡ state_of (sig_handler val s.state)
      → Summary (values c.printed) c
  handled-Summary val c e =
      subst (λ x. Summary x c) (sym (handled-values val c e))
        (subst (Summary (values s.state.printed ++ val ∷ [])) (sym e)
          (sig_handler-Summary _ val s.state v.summary))

  handled-Inv :
      (val : ℤ)
      → s.mail ≡ some val
      → s.alive ≡ true
      → (x : Handled) → x ≡ sig_handler val s.state
      → Inv inputs (handled x s)
  unfolding handled
  handled-Inv val m a (replied c) e = record {
    phase = (taken-Phase s.sender s.mail val s.ack s.alive m v.phase).0 a;
    told = handled-told val m c (ap state_of e);
    dead = λ f. absurd (cc);
    summary = handled-Summary val c (ap state_of e);
  }
  handled-Inv val m a (exited c) e = record {
    phase = (taken-Phase s.sender s.mail val s.ack s.alive m v.phase).1;
    told = handled-told val m c (ap state_of e);
    dead = λ f. sig_handler-exited val s.state c e;
    summary = handled-Summary val c (ap state_of e);
  }

  Phase-at : (pc : SenderPc) → s.sender ≡ pc → Phase pc s.mail s.ack s.alive
  Phase-at pc q = subst (λ x. Phase x s.mail s.ack s.alive) q v.phase

  sender_main-Kept :
      (pc : SenderPc) (left : List ℤ)
      → s.sender ≡ pc
      → s.inputs ≡ left
      → Kept inputs (sender_main pc left s)
  unfolding sender_main Kept
  sender_main-Kept reading [] q l = kept _ (finished-Inv (Phase-at reading q))
  sender_main-Kept reading (val ∷ rest) q l = elim (Bool-cases (is_valid val)) [
    | inl e ↦ rw e (kept _ (sent-Inv (Phase-at reading q) val rest l e))
    | inr e ↦ rw e (kept _ (skipped-Inv (Phase-at reading q) val rest l e))
  ]
  sender_main-Kept sent left q l =
      kept _ (record { phase = Phase-at sent q; told = v.told; dead = v.dead; summary = v.summary })
  sender_main-Kept paused left q l = λ t e. absurd (cc)
  sender_main-Kept finished left q l = λ t e. absurd (cc)

  deliver-Kept :
      (mail : Option ℤ)
      → s.mail ≡ mail
      → Kept inputs (elim mail [
        | none ↦ none
        | some val ↦ if s.alive then some (handled (sig_handler val s.state) s) else none
      ])
  unfolding Kept
  deliver-Kept none m = λ t e. absurd (cc)
  deliver-Kept (some val) m = λ t h. elim (Bool-cases s.alive) [
    | inl a ↦ kept _ (handled-Inv val m a (sig_handler val s.state) refl) t (simp a at h)
    | inr a ↦ absurd (ground arith)
  ]

  acknowledge-Kept : s.ack ≡ true → Inv inputs (record s { ack = false; sender = wake s.sender })
  acknowledge-Kept a = record {
    phase = wake-Phase s.sender s.mail s.ack s.alive a v.phase;
    told = v.told;
    dead = v.dead;
    summary = v.summary;
  }

  step-Kept : (e : Event) → Kept inputs (step e s)
  unfolding step Kept
  step-Kept sender_runs = sender_main-Kept s.sender s.inputs refl refl
  step-Kept catcher_runs = λ t h. elim (Bool-cases s.alive) [
    | inl a ↦ catcher_main-Kept v s.main t (simp a at h)
    | inr a ↦ absurd (ground arith)
  ]
  step-Kept deliver = deliver-Kept s.mail refl
  step-Kept acknowledge = λ t h. elim (Bool-cases s.ack) [
    | inl a ↦ kept _ (acknowledge-Kept a) t (simp a at h)
    | inr a ↦ absurd (ground arith)
  ]

pub Run-Inv : {inputs : List ℤ} {s : System} → Run (init inputs) s → Inv inputs s
unfolding Kept
Run-Inv {inputs} begin = init-Inv inputs
Run-Inv (next {t = t} e r h) = step-Kept (Run-Inv r) e t h
