-- ===== src/Signals/Invariant.antt =====
-- What holds between two steps of catcher and sender: what has been handled and what waits.
use agh_operating_systems.Prelude.{
  ◌+◌, ◌≡◌, refl, sym, ap, ◌∙◌, subst, Bool, true, false, List, [], ◌∷◌, ◌++◌, Option, none, some,
  if◌then◌else◌, append-nil,
}
use mathlib.Core.Option.{some-injective}
use agh_operating_systems.Signals.Catcher.{
  ℤ, pos, Line, pid_catcher, timer, Catcher, catcher, print,
}
use agh_operating_systems.Signals.System.{
  CatcherPc, announcing, testing, napping, to_pause, asleep, SenderPc, reading, sent, paused,
  finished, System, init, is_valid, sigqueue, catcher_main, wake,
}
use agh_operating_systems.Signals.History.{values, values-append, Summary, start-Summary}

-- The values that the sender sends.
unfoldable pub valids : List ℤ → List ℤ
valids [] = []
valids (v ∷ vs) = if is_valid v then v ∷ valids vs else valids vs

pub valids-keep : (v : ℤ) (vs : List ℤ) → is_valid v ≡ true → valids (v ∷ vs) ≡ v ∷ valids vs
unfolding valids
valids-keep v vs e = rw e refl

pub valids-skip : (v : ℤ) (vs : List ℤ) → is_valid v ≡ false → valids (v ∷ vs) ≡ valids vs
unfolding valids
valids-skip v vs e = rw e refl

pub sigqueue-some : (v : ℤ) (s : System) → s.mail ≡ none → s.alive ≡ true → sigqueue v s ≡ some v
unfolding sigqueue
sigqueue-some v s e a = rw (a, e) refl

abbrev pub waiting : Option ℤ → List ℤ
waiting none = []
waiting (some v) = v ∷ []

-- No signal is on its way while the sender reads, and the catcher is there.
abbrev pub Phase : SenderPc → Option ℤ → Bool → Bool → Type 0
Phase reading mail ack alive = (mail ≡ none) × (ack ≡ false) × (alive ≡ true)
Phase finished mail ack alive = (mail ≡ none) × (ack ≡ false) × (alive ≡ true)
Phase _ mail ack alive = ack ≡ true → (mail ≡ none) × (alive ≡ true)

pub record Inv (inputs : List ℤ) (s : System) : Type 0 where
  pub phase : Phase s.sender s.mail s.ack s.alive
  pub told : values s.state.printed ++ (waiting s.mail ++ valids s.inputs) ≡ valids inputs
  pub dead : s.alive ≡ false → s.state.current_type ≡ pos 5
  pub summary : Summary (values s.state.printed) s.state

pub init-Inv : (inputs : List ℤ) → Inv inputs (init inputs)
unfolding init values catcher
init-Inv inputs = record {
  phase = (refl, refl, refl);
  told = refl;
  dead = λ e. absurd (cc);
  summary = start-Summary;
}

unfoldable pub Kept : List ℤ → Option System → Type 0
Kept inputs x = (t : System) → x ≡ some t → Inv inputs t

pub kept : {inputs : List ℤ} (s : System) → Inv inputs s → Kept inputs (some s)
unfolding Kept
kept {inputs} s v t e = subst (Inv inputs) (some-injective _ _ e) v

if-Kept :
    (inputs : List ℤ) (b : Bool) (s t : System)
    → Kept inputs (some s)
    → Kept inputs (some t)
    → Kept inputs (if b then some s else some t)
if-Kept inputs true s t hs ht = hs
if-Kept inputs false s t hs ht = ht

-- A line that is no value.
values-print :
    (l : Line) (c : Catcher) → values (l ∷ []) ≡ [] → values (print l c).printed ≡ values c.printed
values-print l c e =
    values-append c.printed (l ∷ [])
    ∙ ap (λ x. values c.printed ++ x) e
    ∙ append-nil (values c.printed)

pub wake-Phase :
    (pc : SenderPc) (mail : Option ℤ) (ack alive : Bool)
    → ack ≡ true
    → Phase pc mail ack alive
    → Phase (wake pc) mail false alive
wake-Phase reading mail ack alive e h = absurd (cc)
wake-Phase finished mail ack alive e h = absurd (cc)
wake-Phase sent mail ack alive e h = λ f. absurd (cc)
wake-Phase paused mail ack alive e h = ((h e).0, refl, (h e).1)

-- The handler of the catcher has taken the signal.
pub taken-Phase :
    (pc : SenderPc) (mail : Option ℤ) (v : ℤ) (ack alive : Bool)
    → mail ≡ some v
    → Phase pc mail ack alive
    → (alive ≡ true → Phase pc none true alive) × Phase pc none ack false
taken-Phase reading mail v ack alive e h = absurd (cc (h.0))
taken-Phase finished mail v ack alive e h = absurd (cc (h.0))
taken-Phase sent mail v ack alive e h = ((λ a f. (refl, a)), λ f. absurd (cc ((h f).0)))
taken-Phase paused mail v ack alive e h = ((λ a f. (refl, a)), λ f. absurd (cc ((h f).0)))

module _ {inputs : List ℤ} {s : System} (v : Inv inputs s) where
  -- The catcher has printed a line that is no value.
  printed-Inv :
      (l : Line) (pc : CatcherPc)
      → values (l ∷ []) ≡ []
      → Inv inputs (record s { state = print l s.state; main = pc })
  printed-Inv l pc e = record {
    phase = v.phase;
    told = ap (λ x. x ++ (waiting s.mail ++ valids s.inputs)) (values-print l s.state e) ∙ v.told;
    dead = v.dead;
    summary =
        subst (λ x. Summary x (print l s.state)) (sym (values-print l s.state e))
          (record {
            changed = v.summary.changed;
            typed = v.summary.typed;
            timed = v.summary.timed;
            interrupted = v.summary.interrupted;
          });
  }

  moved-Inv : (pc : CatcherPc) → Inv inputs (record s { main = pc })
  moved-Inv pc = record { phase = v.phase; told = v.told; dead = v.dead; summary = v.summary }

  pub catcher_main-Kept : (pc : CatcherPc) → Kept inputs (catcher_main pc s)
  unfolding catcher_main values Kept
  catcher_main-Kept announcing = kept _ (printed-Inv pid_catcher (testing 0) refl)
  catcher_main-Kept (testing n) =
      if-Kept inputs s.state.timer_running _ _
        (kept _ (printed-Inv (timer n) (napping (n + 1)) refl)) (kept _ (moved-Inv to_pause))
  catcher_main-Kept (napping n) = kept _ (moved-Inv (testing n))
  catcher_main-Kept to_pause = kept _ (moved-Inv asleep)
  catcher_main-Kept asleep = λ t e. absurd (cc)
