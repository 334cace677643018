-- ===== src/Signals/History.antt =====
-- What the handler of cw05/assignment/catcher.c has made of the values it was sent.
use agh_operating_systems.Prelude.{
  ◌+◌, ◌≡◌, refl, sym, ap, ap₂, ◌∙◌, true, false, List, [], ◌∷◌, ◌++◌, if◌then◌else◌, length, arith,
  inl, inr, Bool-cases, append-nil,
}
use agh_operating_systems.Signals.Catcher.{
  ℤ, pos, negsuc, ◌==ℤ◌, Disposition, default, ignored, int_handler, Line, received, changes_amount,
  Catcher, catcher, Handled, exited, replied, print, change, switch, sig_handler,
}

abbrev pub state_of : Handled → Catcher
state_of (exited c) = c
state_of (replied c) = c

-- The values without those that repeat the one before.
unfoldable pub squeeze : ℤ → List ℤ → List ℤ
squeeze prev [] = []
squeeze prev (v ∷ vs) = if v ==ℤ prev then squeeze v vs else v ∷ squeeze v vs

unfoldable pub last : ℤ → List ℤ → ℤ
last prev [] = prev
last prev (v ∷ vs) = last v vs

-- What the last 3 or 4 has asked for.
abbrev asked : ℤ → Disposition → Disposition
asked v d = if v ==ℤ pos 3 then ignored else if v ==ℤ pos 4 then int_handler else d

unfoldable pub disposition : Disposition → List ℤ → Disposition
disposition d [] = d
disposition d (v ∷ vs) = disposition (asked v d) vs

-- The values that are in the lines.
unfoldable pub values : List Line → List ℤ
values [] = []
values (received v ∷ ls) = v ∷ values ls
values (_ ∷ ls) = values ls

pub values-append : (xs ys : List Line) → values (xs ++ ys) ≡ values xs ++ values ys
unfolding values
values-append [] ys = refl
values-append (received v ∷ xs) ys = ap (◌∷◌ v) (values-append xs ys)
values-append (_ ∷ xs) ys = values-append xs ys

pub ==ℤ-true : (m n : ℤ) → m ==ℤ n ≡ true → m ≡ n
==ℤ-true (pos m) (pos n) e = ap pos (ground arith)
==ℤ-true (negsuc m) (negsuc n) e = ap negsuc (ground arith)
==ℤ-true (pos m) (negsuc n) e = absurd (cc)
==ℤ-true (negsuc m) (pos n) e = absurd (cc)

-- A catcher that has been sent `vs`.
pub record Summary (vs : List ℤ) (c : Catcher) : Type 0 where
  pub changed : c.changes ≡ length (squeeze (pos 0) vs)
  pub typed : c.current_type ≡ last (pos 0) vs
  pub timed : c.timer_running ≡ last (pos 0) vs ==ℤ pos 2
  pub interrupted : c.interrupt ≡ disposition default vs

pub start-Summary : Summary [] catcher
unfolding catcher squeeze last disposition
start-Summary = record { changed = refl; typed = refl; timed = refl; interrupted = refl }

squeeze-snoc :
    (p : ℤ) (vs : List ℤ) (v : ℤ)
    → length (squeeze p (vs ++ v ∷ [])) ≡ length (squeeze p vs) + (if v ==ℤ last p vs then 0 else 1)
unfolding squeeze last
squeeze-snoc p [] v = ground arith
squeeze-snoc p (x ∷ vs) v = ground (arith, squeeze-snoc x vs v)

last-snoc : (p : ℤ) (vs : List ℤ) (v : ℤ) → last p (vs ++ v ∷ []) ≡ v
unfolding last
last-snoc p [] v = refl
last-snoc p (x ∷ vs) v = last-snoc x vs v

disposition-snoc :
    (d : Disposition) (vs : List ℤ) (v : ℤ)
    → disposition d (vs ++ v ∷ []) ≡ asked v (disposition d vs)
unfolding disposition
disposition-snoc d [] v = refl
disposition-snoc d (x ∷ vs) v = disposition-snoc (asked x d) vs v

-- `change` on the four globals.
module _ (v : ℤ) (c : Catcher) where
  change-changes : (change v c).changes ≡ c.changes + (if v ==ℤ c.current_type then 0 else 1)
  unfolding change
  change-changes = ground arith

  change-current_type : (change v c).current_type ≡ v
  unfolding change
  change-current_type = elim (Bool-cases (v ==ℤ c.current_type)) [
    | inl e ↦ rw e (sym (==ℤ-true v c.current_type e))
    | inr e ↦ rw e refl
  ]

  change-timer_running :
      c.timer_running ≡ c.current_type ==ℤ pos 2 → (change v c).timer_running ≡ v ==ℤ pos 2
  unfolding change
  change-timer_running h = elim (Bool-cases (v ==ℤ c.current_type)) [
    | inl e ↦ rw e (h ∙ ap (λ x. x ==ℤ pos 2) (sym (==ℤ-true v c.current_type e)))
    | inr e ↦ rw e refl
  ]

  change-interrupt : (change v c).interrupt ≡ c.interrupt
  unfolding change
  change-interrupt = ground arith

  change-printed : (change v c).printed ≡ c.printed
  unfolding change
  change-printed = ground arith

-- `switch` on the globals, and on the values printed.
module _ (c : Catcher) where
  switch-changes : (state_of (switch c)).changes ≡ c.changes
  unfolding switch
  switch-changes = ground arith

  switch-interrupt : (state_of (switch c)).interrupt ≡ asked c.current_type c.interrupt
  unfolding switch
  switch-interrupt = ground arith

  switch-current_type : (state_of (switch c)).current_type ≡ c.current_type
  unfolding switch
  switch-current_type = ground arith

  switch-timer_running : (state_of (switch c)).timer_running ≡ c.timer_running
  unfolding switch
  switch-timer_running = ground arith

  switch-values : values (state_of (switch c)).printed ≡ values c.printed
  unfolding switch values
  switch-values = elim (Bool-cases (c.current_type ==ℤ pos 1)) [
    | inl e ↦
        rw e
          (values-append c.printed (changes_amount c.changes ∷ []) ∙ append-nil (values c.printed))
    | inr e ↦ ground arith
  ]

  switch-not-exited : c.current_type ==ℤ pos 5 ≡ false → (d : Catcher) × (switch c ≡ replied d)
  unfolding switch
  switch-not-exited h = elim (Bool-cases (c.current_type ==ℤ pos 1)) [
    | inl e ↦ (print (changes_amount c.changes) c, ground arith)
    | inr e ↦ elim (Bool-cases (c.current_type ==ℤ pos 3)) [
      | inl f ↦ (record c { interrupt = ignored }, ground arith)
      | inr f ↦ elim (Bool-cases (c.current_type ==ℤ pos 4)) [
        | inl g ↦ (record c { interrupt = int_handler }, ground arith)
        | inr g ↦ (c, ground arith)
      ]
    ]
  ]

  switch-exits : c.current_type ≡ pos 5 → switch c ≡ exited c
  unfolding switch
  switch-exits q = simp q

  switch-exited : (d : Catcher) → switch c ≡ exited d → c.current_type ==ℤ pos 5 ≡ true
  unfolding switch
  switch-exited d e = ground arith

-- One more value.
pub sig_handler-Summary :
    (vs : List ℤ) (v : ℤ) (c : Catcher)
    → Summary vs c
    → Summary (vs ++ v ∷ []) (state_of (sig_handler v c))
unfolding sig_handler
sig_handler-Summary vs v c h =
    let d = print (received v) c in
    record {
      changed =
          switch-changes (change v d)
          ∙ change-changes v d
          ∙ ap₂ (λ x y. x + (if v ==ℤ y then 0 else 1)) h.changed h.typed
          ∙ sym (squeeze-snoc (pos 0) vs v);
      typed =
          switch-current_type (change v d) ∙ change-current_type v d ∙ sym (last-snoc (pos 0) vs v);
      timed =
          switch-timer_running (change v d)
          ∙ change-timer_running v d (h.timed ∙ ap (λ x. x ==ℤ pos 2) (sym h.typed))
          ∙ ap (λ x. x ==ℤ pos 2) (sym (last-snoc (pos 0) vs v));
      interrupted =
          switch-interrupt (change v d)
          ∙ ap₂ asked (change-current_type v d) (change-interrupt v d ∙ h.interrupted)
          ∙ sym (disposition-snoc default vs v);
    }

pub sig_handler-values :
    (v : ℤ) (c : Catcher) → values (state_of (sig_handler v c)).printed ≡ values c.printed ++ v ∷ []
unfolding sig_handler values
sig_handler-values v c =
    let d = print (received v) c in
    switch-values (change v d)
    ∙ ap values (change-printed v d)
    ∙ values-append c.printed (received v ∷ [])

pub sig_handler-exited :
    (v : ℤ) (c d : Catcher) → exited d ≡ sig_handler v c → d.current_type ≡ pos 5
unfolding sig_handler
sig_handler-exited v c d e =
    let x = change v (print (received v) c) in
    ap (λ y. (state_of y).current_type) e
    ∙ switch-current_type x
    ∙ ==ℤ-true x.current_type (pos 5) (switch-exited x d (sym e))

pub sig_handler-replied :
    (v : ℤ) (c : Catcher) → v ==ℤ pos 5 ≡ false → (d : Catcher) × (sig_handler v c ≡ replied d)
unfolding sig_handler
sig_handler-replied v c h =
    switch-not-exited (change v (print (received v) c))
      (ap (λ x. x ==ℤ pos 5) (change-current_type v (print (received v) c)) ∙ h)

pub sig_handler-exits :
    (v : ℤ) (c : Catcher) → v ≡ pos 5 → (d : Catcher) × (sig_handler v c ≡ exited d)
unfolding sig_handler
sig_handler-exits v c h =
    let x = change v (print (received v) c) in
    (x, switch-exits x (change-current_type v (print (received v) c) ∙ h))
