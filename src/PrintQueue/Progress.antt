-- ===== src/PrintQueue/Progress.antt =====
-- The processes of cw08/assignment/main.c never block one another for good.
use agh_operating_systems.Prelude.{
  ℕ, zero, suc, ◌<◌, ◌≡◌, refl, sym, ◌∙◌, Bool, true, false, List, [], ◌∷◌, some, get_elem?, set,
  arith, ap, map, subst, get_elem?-map, get_elem?_of_lt, replicate,
}
use native.Mathlib.Decide.{dec_lt}
use mathlib.Core.Bool.{false≢true}
use agh_operating_systems.PrintQueue.System.{
  Shared, Pc, composing, wait_empty, user_lock, write_job, move_tail, user_unlock, post_full,
  wait_full, printer_lock, read_job, move_head, printer_unlock, post_empty, printing, Move, compose,
  take_slot, lock_as_user, copy_in, advance_tail, unlock_as_user, give_job, take_job,
  lock_as_printer, copy_out, advance_head, unlock_as_printer, give_slot, print_job, System, init,
  Step, pick, Reach, start, later,
}
use agh_operating_systems.Prelude.{total, total-pos}
use agh_operating_systems.PrintQueue.Invariant.{critical, holds_slot, holds_job, Inv, Reach-Inv}

abbrev is_user : Pc → Bool
is_user composing = true
is_user (wait_empty _) = true
is_user (user_lock _) = true
is_user (write_job _) = true
is_user (move_tail _) = true
is_user user_unlock = true
is_user post_full = true
is_user _ = false

map-set :
    {A B : Type 0} (f : A → B) (xs : List A) (i : ℕ) (x v : A)
    → get_elem? xs i ≡ some x
    → f v ≡ f x
    → map f (set xs i v) ≡ map f xs
map-set f [] i x v g e = refl
map-set f (y ∷ xs) zero x v g e = ground arith
map-set f (y ∷ xs) (suc i) x v g e = ap (◌∷◌ (f y)) (map-set f xs i x v g e)

Move-is_user : {m m' : Shared} {p p' : Pc} → Move m p m' p' → is_user p' ≡ is_user p
Move-is_user (compose job h) = refl
Move-is_user mv = refl

-- A process stays a user, or a printer.
Reach-roles : {s : System} → Reach s → map is_user s.procs ≡ map is_user init.procs
Reach-roles start = refl
Reach-roles (later {s} r (pick i {p = p} {p' = p'} g mv)) =
    map-set is_user s.procs i p p' g (Move-is_user mv) ∙ Reach-roles r

role_at :
    {s : System} (i : ℕ) (b : Bool)
    → Reach s
    → get_elem? (map is_user init.procs) i ≡ some b
    → (p : Pc) × (get_elem? s.procs i ≡ some p) × (is_user p ≡ b)
role_at {s} i b r g =
    let (p, gp, e) =
      get_elem?-map is_user s.procs i b
        (subst (λ l. get_elem? l i ≡ some b) (sym (Reach-roles r)) g) in
    (p, gp, sym e)

abbrev CanStep : System → Type 0
CanStep s = (t : System) × Step s t

module _ {s : System} {n : ℕ} (v : Inv n s) (i : ℕ) where
  critical_moves : (p : Pc) → get_elem? s.procs i ≡ some p → 0 < critical p → CanStep s
  critical_moves (write_job job) g h = (_, pick i g copy_in)
  critical_moves (move_tail job) g h = (_, pick i g advance_tail)
  critical_moves user_unlock g h = (_, pick i g unlock_as_user)
  critical_moves read_job g h =
      let (job, e) = get_elem?_of_lt s.mem.jobs s.mem.head (omega (arith, v.slots, v.head_in)) in
      (_, pick i g (copy_out {job = job} e))
  critical_moves (move_head job) g h = (_, pick i g advance_head)
  critical_moves (printer_unlock job) g h = (_, pick i g unlock_as_printer)
  critical_moves p g h = absurd (omega arith)

  slot_moves :
      (p : Pc) → get_elem? s.procs i ≡ some p → 0 < s.mem.mutex → 0 < holds_slot p → CanStep s
  slot_moves (user_lock job) g mx h = (_, pick i g (lock_as_user mx))
  slot_moves (write_job job) g mx h = (_, pick i g copy_in)
  slot_moves (move_tail job) g mx h = (_, pick i g advance_tail)
  slot_moves (printer_unlock job) g mx h = (_, pick i g unlock_as_printer)
  slot_moves (post_empty job) g mx h = (_, pick i g give_slot)
  slot_moves p g mx h = absurd (omega arith)

  job_moves :
      (p : Pc) → get_elem? s.procs i ≡ some p → 0 < s.mem.mutex → 0 < holds_job p → CanStep s
  job_moves user_unlock g mx h = (_, pick i g unlock_as_user)
  job_moves post_full g mx h = (_, pick i g give_job)
  job_moves printer_lock g mx h = (_, pick i g (lock_as_printer mx))
  job_moves read_job g mx h = critical_moves read_job g (omega arith)
  job_moves (move_head job) g mx h = (_, pick i g advance_head)
  job_moves p g mx h = absurd (omega arith)

  user_moves :
      (p : Pc)
      → get_elem? s.procs i ≡ some p
      → is_user p ≡ true
      → 0 < s.mem.mutex
      → 0 < s.mem.empty
      → CanStep s
  user_moves composing g u mx em = (_, pick i g (compose (replicate 10 b'a') (omega arith)))
  user_moves (wait_empty job) g u mx em = (_, pick i g (take_slot em))
  user_moves (user_lock job) g u mx em = (_, pick i g (lock_as_user mx))
  user_moves (write_job job) g u mx em = (_, pick i g copy_in)
  user_moves (move_tail job) g u mx em = (_, pick i g advance_tail)
  user_moves user_unlock g u mx em = (_, pick i g unlock_as_user)
  user_moves post_full g u mx em = (_, pick i g give_job)
  user_moves p g u mx em = absurd (false≢true u)

  printer_moves :
      (p : Pc)
      → get_elem? s.procs i ≡ some p
      → is_user p ≡ false
      → 0 < s.mem.mutex
      → 0 < s.mem.full
      → CanStep s
  printer_moves wait_full g u mx fu = (_, pick i g (take_job fu))
  printer_moves printer_lock g u mx fu = (_, pick i g (lock_as_printer mx))
  printer_moves read_job g u mx fu = critical_moves read_job g (omega arith)
  printer_moves (move_head job) g u mx fu = (_, pick i g advance_head)
  printer_moves (printer_unlock job) g u mx fu = (_, pick i g unlock_as_printer)
  printer_moves (post_empty job) g u mx fu = (_, pick i g give_slot)
  printer_moves (printing job) g u mx fu = (_, pick i g print_job)
  printer_moves p g u mx fu = absurd (false≢true (sym u))

-- No deadlock: in every reachable state some process can take a step.
pub Reach-progress : {s : System} → Reach s → (t : System) × Step s t
Reach-progress {s} r =
    let (n, v) = Reach-Inv r in
    elim (dec_lt 0 (total critical s.procs)) [
      | yes c ↦ let (i, p, g, h) = total-pos critical s.procs c in critical_moves v i p g h
      | no nc ↦ elim (dec_lt 0 (total holds_slot s.procs)) [
        | yes c ↦
            let (i, p, g, h) = total-pos holds_slot s.procs c in
            slot_moves v i p g (omega (arith, v.mutexed)) h
        | no ns ↦ elim (dec_lt 0 (total holds_job s.procs)) [
          | yes c ↦
              let (i, p, g, h) = total-pos holds_job s.procs c in
              job_moves v i p g (omega (arith, v.mutexed)) h
          | no nj ↦ elim (dec_lt 0 s.mem.empty) [
            | yes em ↦
                let (p, g, u) = role_at 0 true r refl in
                user_moves v 0 p g u (omega (arith, v.mutexed)) em
            | no ne ↦
                let (p, g, u) = role_at 3 false r refl in
                printer_moves v 3 p g u (omega (arith, v.mutexed))
                  (omega (arith, v.empties, v.fulls))
          ]
        ]
      ]
    ]
