-- ===== src/ThreadJoin/Joining.antt =====
-- What the loop of Funkcje/Mutex/main.c that joins threads does to the array.
use agh_operating_systems.Prelude.{
  ℕ, zero, suc, ◌+◌, ◌*◌, ◌≡◌, ◌≢◌, refl, sym, ◌∙◌, List, [], ◌∷◌, Option, some, get_elem?, length,
  arith, ap, subst, inl, inr, Option-cases, total, All,
}
use mathlib.Core.Option.{some-injective}
use agh_operating_systems.ThreadJoin.System.{
  ts_joined, ThreadPc, unborn, sleeping, counting, marking, unlocking, signalling, returned, reaped,
  Slot, join_one, join_all,
}
use agh_operating_systems.ThreadJoin.Invariant.{holds, unjoined, live, state_of, weigh, IsMarked}

-- What is left to do for a thread: its own statements, and the round of `main` that joins it.
abbrev pub work : ThreadPc → ℕ
work unborn = 13
work sleeping = 12
work counting = 11
work marking = 10
work unlocking = 9
work signalling = 8
work returned = 5
work reaped = 0

-- What the body has done with an entry, if it has come to its end.
record Joined (c d : Slot) (k : ℕ) : Type 0 where
  free : holds d.pc ≡ 0
  none_left : unjoined d.pc ≡ 0
  counted : k ≡ unjoined c.pc
  living : live d.pc + k ≡ live c.pc
  paid : work d.pc + 5 * k ≡ work c.pc
  marked : d.state ≡ state_of d.pc
  born : c.pc ≢ unborn → d.pc ≢ unborn

untouched :
    (c d : Slot) (k : ℕ)
    → c.state ≡ state_of c.pc
    → holds c.pc ≡ 0
    → unjoined c.pc ≡ 0
    → ◌≡◌ {A = Option (Slot × ℕ)} (some (c, 0)) (some (d, k))
    → Joined c d k
untouched c d k m h u e =
    let q : ◌≡◌ {A = Slot × ℕ} (c, 0) (d, k) = some-injective _ _ e in
    subst (λ (r : Slot × ℕ). Joined c r.0 r.1) q
      (record {
        free = h;
        none_left = u;
        counted = sym u;
        living = omega arith;
        paid = omega arith;
        marked = m;
        born = λ b. b;
      })

join_one-Joined :
    (c d : Slot) (k : ℕ) (p : ThreadPc)
    → c.pc ≡ p
    → c.state ≡ state_of p
    → holds p ≡ 0
    → join_one (state_of p) p c ≡ some (d, k)
    → Joined c d k
unfolding join_one
join_one-Joined c d k unborn e m h q =
    untouched c d k (m ∙ ap state_of (sym e)) (ap holds e) (ap unjoined e) q
join_one-Joined c d k sleeping e m h q =
    untouched c d k (m ∙ ap state_of (sym e)) (ap holds e) (ap unjoined e) q
join_one-Joined c d k counting e m h q = absurd (omega arith)
join_one-Joined c d k marking e m h q = absurd (omega arith)
join_one-Joined c d k unlocking e m h q = absurd (omega arith)
join_one-Joined c d k signalling e m h q = absurd (cc)
join_one-Joined c d k returned e m h q =
    let r : ◌≡◌ {A = Slot × ℕ} (record { state = ts_joined; pc = reaped }, 1) (d, k) =
      some-injective _ _ q in
    subst (λ (r : Slot × ℕ). Joined c r.0 r.1) r
      (record {
        free = refl;
        none_left = refl;
        counted = sym (ap unjoined e);
        living = sym (ap live e);
        paid = sym (ap work e);
        marked = refl;
        born = λ b z. absurd (reaped_ne z);
      })
  where
    reaped_ne : reaped ≢ unborn
    reaped_ne z = cc
join_one-Joined c d k reaped e m h q =
    untouched c d k (m ∙ ap state_of (sym e)) (ap holds e) (ap unjoined e) q

pub record AllJoined (cs ds : List Slot) (k : ℕ) : Type 0 where
  pub slots : length ds ≡ length cs
  pub free : total (weigh holds) ds ≡ 0
  pub none_left : total (weigh unjoined) ds ≡ 0
  pub counted : k ≡ total (weigh unjoined) cs
  pub living : total (weigh live) ds + k ≡ total (weigh live) cs
  pub paid : total (weigh work) ds + 5 * k ≡ total (weigh work) cs
  pub marked : All IsMarked ds
  pub born :
      ((i : ℕ) (c : Slot) → get_elem? cs i ≡ some c → c.pc ≢ unborn)
      → (i : ℕ) (d : Slot) → get_elem? ds i ≡ some d
      → d.pc ≢ unborn

cons-AllJoined :
    (c d : Slot) (cs ds : List Slot) (k m : ℕ)
    → Joined c d k
    → AllJoined cs ds m
    → AllJoined (c ∷ cs) (d ∷ ds) (k + m)
unfolding total
cons-AllJoined c d cs ds k m j a = record {
  slots = ap suc a.slots;
  free = omega (arith, j.free, a.free);
  none_left = omega (arith, j.none_left, a.none_left);
  counted = omega (arith, j.counted, a.counted);
  living = omega (arith, j.living, a.living);
  paid = omega (arith, j.paid, a.paid);
  marked = (j.marked, a.marked);
  born = λ h. place h;
}
  where
    place :
        ((i : ℕ) (x : Slot) → get_elem? (c ∷ cs) i ≡ some x → x.pc ≢ unborn)
        → (i : ℕ) (y : Slot) → get_elem? (d ∷ ds) i ≡ some y
        → y.pc ≢ unborn
    place h zero y g =
        subst (λ (x : Slot). x.pc ≢ unborn) (some-injective _ _ g) (j.born (h 0 c refl))
    place h (suc i) y g = a.born (λ l. h (suc l)) i y g

pub join_all-AllJoined :
    (cs ds : List Slot) (k : ℕ)
    → All IsMarked cs
    → total (weigh holds) cs ≡ 0
    → join_all cs ≡ some (ds, k)
    → AllJoined cs ds k
unfolding join_all total
join_all-AllJoined [] ds k a z e =
    subst (λ (r : List Slot × ℕ). AllJoined [] r.0 r.1) (some-injective _ _ e)
      (record {
        slots = refl;
        free = refl;
        none_left = refl;
        counted = refl;
        living = refl;
        paid = refl;
        marked = tt;
        born = λ h. h;
      })
join_all-AllJoined (c ∷ cs) ds k a z e = elim (Option-cases (join_one c.state c.pc c)) [
  | inl f ↦ absurd (ground arith)
  | inr ((d, l), f) ↦ elim (Option-cases (join_all cs)) [
    | inl g ↦ absurd (ground arith)
    | inr ((rest, m), g) ↦
        subst (λ (r : List Slot × ℕ). AllJoined (c ∷ cs) r.0 r.1) (same l m d rest f g)
          (cons-AllJoined c d cs rest l m
            (join_one-Joined c d l c.pc refl a.0 (omega arith)
              (ap (λ x. join_one x c.pc c) (sym a.0) ∙ f))
            (join_all-AllJoined cs rest m a.1 (omega arith) g))
  ]
]
  where
    same :
        (l m : ℕ) (d : Slot) (rest : List Slot)
        → join_one c.state c.pc c ≡ some (d, l)
        → join_all cs ≡ some (rest, m)
        → ◌≡◌ {A = List Slot × ℕ} (d ∷ rest, l + m) (ds, k)
    same l m d rest f g = ground (arith, e, f, g)
