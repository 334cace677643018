-- ===== src/ThreadJoin/Main.antt =====
-- Every statement of `main` in Funkcje/Mutex/main.c keeps the invariant.
use agh_operating_systems.Prelude.{
  ℕ, suc, ◌+◌, ◌-◌, ◌≤◌, ◌<◌, ◌≡◌, ◌≢◌, refl, sym, ◌∙◌, List, some, ◌==◌, ltb, length, get_elem?,
  arith, ap, subst, inl, inr, Bool-cases, Option-cases, total, total-set, All-set, All-replicate,
  get_elem?-set_cases, get_elem?_of_lt, get_elem?-lt, get_elem?-replicate, length-set,
  length-replicate, total-replicate,
}
use mathlib.Core.Option.{some-injective}
use agh_operating_systems.ThreadJoin.System.{
  ts_alive, ThreadPc, unborn, sleeping, Slot, MainPc, creating, outer, locking, inner, waiting,
  woken, joining, releasing, exited, System, init, at_thread, join_all, main_func, return_early,
  Event, thread_runs, main_runs, spurious, step, Run, start, next,
}
use agh_operating_systems.ThreadJoin.Invariant.{
  Inv, holds, main_holds, unjoined, live, Born, Living, Awaited, owes, weigh, IsMarked,
}
use agh_operating_systems.ThreadJoin.Threads.{thread_func-Inv}
use agh_operating_systems.ThreadJoin.Joining.{AllJoined, join_all-AllJoined}

-- `main` is at a place where the threads have been created.
abbrev Going : MainPc → Type 0
Going (creating idx) = ⊥
Going _ = Unit

Born-Going :
    (m m' : MainPc) → Going m → Going m' → (j : ℕ) (p : ThreadPc) → Born m j p → Born m' j p
Born-Going (creating idx) m' g g' j p b = absurd g
Born-Going outer (creating idx) g g' j p b = absurd g'
Born-Going outer outer g g' j p b = b
Born-Going outer _ g g' j p b = b
Born-Going _ (creating idx) g g' j p b = absurd g'
Born-Going _ outer g g' j p b = b
Born-Going _ _ g g' j p b = b

module _ {n : ℕ} (s : System) (v : Inv n s) where
  -- `main` moves from `m` to `m'`, and the threads stay.
  jump-Inv :
      (m m' : MainPc) (mutex' : ℕ) (t : System)
      → s.main ≡ m
      → Going m
      → Going m'
      → mutex' + main_holds m' ≡ s.mutex + main_holds m
      → (Living m n s.num_live (total (weigh live) s.threads)
          → Living m' n s.num_live (total (weigh live) s.threads))
      → Awaited m' s.num_unjoined (total (weigh owes) s.threads)
      → some (record s { mutex = mutex'; main = m' }) ≡ some t
      → Inv n t
  jump-Inv m m' mutex' t e g g' lk li aw h = subst (Inv n) (some-injective _ _ h) (record {
    slots = v.slots;
    locked = omega (arith, v.locked, ap main_holds e);
    counted = v.counted;
    living = li (subst (λ x. Living x n s.num_live (total (weigh live) s.threads)) e v.living);
    awaited = aw;
    marked = v.marked;
    born = λ i c q. Born-Going m m' g g' i c.pc (subst (λ x. Born x i c.pc) e (v.born i c q));
  })

  main_free :
      (m : MainPc)
      → s.main ≡ m
      → main_holds m ≡ 1
      → (s.mutex ≡ 0) × (total (weigh holds) s.threads ≡ 0)
  main_free m e h = omega (arith, v.locked, ap main_holds e)

  created-Inv :
      (idx : ℕ)
      → s.main ≡ creating idx
      → idx < length s.threads
      → Inv n (record (at_thread idx (record { state = ts_alive; pc = sleeping }) s) {
        main = creating (suc idx);
      })
  created-Inv idx e lt =
      let (c, g) = get_elem?_of_lt s.threads idx lt in
      let b : Born (creating idx) idx c.pc = subst (λ x. Born x idx c.pc) e (v.born idx c g) in
      let u : c.pc ≡ unborn = b.0 (omega arith) in
      let c' : Slot = record { state = ts_alive; pc = sleeping } in
      record {
        slots = length-set s.threads idx c' ∙ v.slots;
        locked = omega (
          arith,
          v.locked,
          ap main_holds e,
          total-set (weigh holds) s.threads idx c c' g,
          ap holds u,
        );
        counted =
            omega
              (arith, v.counted, total-set (weigh unjoined) s.threads idx c c' g, ap unjoined u);
        living = omega (
          arith,
          subst (λ x. Living x n s.num_live (total (weigh live) s.threads)) e v.living,
          total-set (weigh live) s.threads idx c c' g,
          ap live u,
        );
        awaited = tt;
        marked = All-set IsMarked s.threads idx c' v.marked refl;
        born = λ j d h. elim (get_elem?-set_cases s.threads idx j c' d h) [
          | inl (q, r) ↦ (
            (λ le. absurd (omega arith)),
            (λ l z. not_unborn (sym (ap (λ (x : Slot). x.pc) r) ∙ z)),
          )
          | inr (q, r) ↦
              let b' : Born (creating idx) j d.pc = subst (λ x. Born x j d.pc) e (v.born j d r) in
              ((λ le. b'.0 (omega arith)), (λ l. b'.1 (below j idx l q)))
        ];
      }
    where
      not_unborn : sleeping ≢ unborn
      not_unborn z = cc

      below : (j k : ℕ) → j < suc k → k ≢ j → j < k
      below j k l q = grind arith

  set_out-Inv :
      (idx : ℕ)
      → s.main ≡ creating idx
      → length s.threads ≤ idx
      → Inv n
          (record s { tot_threads = length s.threads; num_live = length s.threads; main = outer })
  set_out-Inv idx e le = record {
    slots = v.slots;
    locked = omega (arith, v.locked, ap main_holds e);
    counted = v.counted;
    living =
        v.slots
        ∙ sym (subst (λ x. Living x n s.num_live (total (weigh live) s.threads)) e v.living);
    awaited = tt;
    marked = v.marked;
    born = λ j d h.
        (subst (λ x. Born x j d.pc) e (v.born j d h)).1
          (omega (arith, get_elem?-lt s.threads j d h));
  }

  joined-Inv :
      (rest : List Slot) (k : ℕ)
      → s.main ≡ joining
      → join_all s.threads ≡ some (rest, k)
      → Inv n (record s {
        threads = rest;
        num_live = s.num_live - k;
        num_unjoined = s.num_unjoined - k;
        main = releasing;
      })
  joined-Inv rest k e h =
      let (f, z) = main_free joining e refl in
      let a : AllJoined s.threads rest k = join_all-AllJoined s.threads rest k v.marked z h in
      let l : Living joining n s.num_live (total (weigh live) s.threads) =
        subst (λ x. Living x n s.num_live (total (weigh live) s.threads)) e v.living in
      record {
        slots = a.slots ∙ v.slots;
        locked = omega (arith, v.locked, ap main_holds e, a.free);
        counted = omega (arith, v.counted, a.counted, a.none_left);
        living = omega (arith, a.living, l.0);
        awaited = tt;
        marked = a.marked;
        born = a.born (λ i c q. subst (λ x. Born x i c.pc) e (v.born i c q));
      }

  main_func-Inv : (m : MainPc) (t : System) → s.main ≡ m → main_func m s ≡ some t → Inv n t
  unfolding main_func
  main_func-Inv (creating idx) t e h = elim (Bool-cases (ltb idx (length s.threads))) [
    | inl f ↦ subst (Inv n) (some-injective _ _ (rw f at h)) (created-Inv idx e (ground arith))
    | inr f ↦ subst (Inv n) (some-injective _ _ (rw f at h)) (set_out-Inv idx e (ground arith))
  ]
  main_func-Inv outer t e h = elim (Bool-cases (ltb 0 s.num_live)) [
    | inl f ↦ jump-Inv outer locking s.mutex t e tt tt refl (λ l. (l, ground arith)) tt (rw f at h)
    | inr f ↦ jump-Inv outer exited s.mutex t e tt tt refl (λ l. (l, ground arith)) tt (rw f at h)
  ]
  main_func-Inv locking t e h = elim (Bool-cases (s.mutex == 1)) [
    | inl f ↦ jump-Inv locking inner 0 t e tt tt (ground arith) (λ l. l) tt (rw f at h)
    | inr f ↦ absurd (ground arith)
  ]
  main_func-Inv inner t e h = elim (Bool-cases (s.num_unjoined == 0)) [
    | inl f ↦
        jump-Inv inner waiting 1 t e tt tt (omega (arith, (main_free inner e refl).0)) (λ l. l)
          (λ p. ground arith) (rw f at h)
    | inr f ↦ jump-Inv inner joining s.mutex t e tt tt refl (λ l. l) (ground arith) (rw f at h)
  ]
  main_func-Inv waiting t e h = absurd (cc)
  main_func-Inv woken t e h = elim (Bool-cases (s.mutex == 1)) [
    | inl f ↦ jump-Inv woken inner 0 t e tt tt (ground arith) (λ l. l) tt (rw f at h)
    | inr f ↦ absurd (ground arith)
  ]
  main_func-Inv joining t e h = elim (Option-cases (join_all s.threads)) [
    | inl f ↦ absurd (ground arith)
    | inr ((rest, k), f) ↦
        subst (Inv n) (some-injective _ _ (rw (f, main_func) at h)) (joined-Inv rest k e f)
  ]
  main_func-Inv releasing t e h =
      jump-Inv releasing outer 1 t e tt tt (omega (arith, (main_free releasing e refl).0)) (λ l. l)
        tt h
  main_func-Inv exited t e h = absurd (cc)

  return_early-Inv : (m : MainPc) (t : System) → s.main ≡ m → return_early m s ≡ some t → Inv n t
  unfolding return_early
  return_early-Inv waiting t e h = jump-Inv waiting woken s.mutex t e tt tt refl (λ l. l) tt h
  return_early-Inv m t e h = absurd (cc)

pub step-Inv : {n : ℕ} (e : Event) (s t : System) → Inv n s → step e s ≡ some t → Inv n t
unfolding step
step-Inv (thread_runs i) s t v h = elim (Option-cases (get_elem? s.threads i)) [
  | inl g ↦ absurd (ground arith)
  | inr (c, g) ↦ thread_func-Inv i c s v g c.pc t refl (rw (g, step) at h)
]
step-Inv main_runs s t v h = main_func-Inv s v s.main t refl h
step-Inv spurious s t v h = return_early-Inv s v s.main t refl h

init-Inv : (n : ℕ) → Inv n (init n)
unfolding init
init-Inv n =
    let c : Slot = record { state = ts_alive; pc = unborn } in
    record {
      slots = length-replicate n c;
      locked = omega (arith, total-replicate (weigh holds) n c);
      counted = omega (arith, total-replicate (weigh unjoined) n c);
      living = omega (arith, total-replicate (weigh live) n c);
      awaited = tt;
      marked = All-replicate IsMarked n c refl;
      born = λ j d h. (
        (λ le. ap (λ (x : Slot). x.pc) (get_elem?-replicate n c j d h)),
        (λ l. absurd (omega arith)),
      );
    }

pub Run-Inv : {n : ℕ} {es : List Event} {s : System} → Run n es s → Inv n s
Run-Inv {n} start = init-Inv n
Run-Inv (next {s = s} {t = t} e r h) = step-Inv e s t (Run-Inv r) h
