-- ===== src/Writers/Start.antt =====
-- The two programs as they are after `fork`.
use agh_operating_systems.Prelude.{
  ℕ, ◌+◌, ◌*◌, ◌≡◌, refl, sym, ap, ◌∙◌, subst, List, [], ◌∷◌, length, arith, append-nil,
}
use agh_operating_systems.CString.{Bytes}
use agh_operating_systems.Writers.Programs.{
  Call, wait_child, remove, parent_text, child_text, posix_round, sysv_round, loop, texts,
  posix_parent, posix_child, sysv_parent, sysv_child,
}
use agh_operating_systems.Writers.Machine.{
  Role, parent, child, pick, sem_value, lines, Api, with_posix, with_sysv, start, posix, sysv,
}
use agh_operating_systems.Writers.Shape.{
  outside, Shape, to_write, Shape-posix, Shape-sysv, to_write-posix, to_write-sysv, length-posix,
  length-sysv,
}
use agh_operating_systems.Writers.Invariant.{Inv, Modes, fresh-Inv}
use agh_operating_systems.Writers.Steps.{texts_of, written, num_left}

abbrev ending : List Call
ending = wait_child ∷ remove ∷ []

abbrev pub both_outside : Modes
both_outside = record { of_parent = outside; of_child = outside }

-- The calls of one round.
abbrev pub round_calls : Api → ℕ
round_calls with_posix = 8
round_calls with_sysv = 4

module _ (ps cs : ℕ → ℕ) (p c : ℕ) where
  pub start-Inv : (a : Api) → Inv both_outside (start a ps cs p c)
  unfolding start posix sysv posix_parent posix_child sysv_parent sysv_child lines
  start-Inv with_posix =
      fresh-Inv (sem_value 1 ∷ []) _ _ refl (Shape-posix parent_text ps _ parent p (refl, tt)) (
        subst (λ x. Shape child x outside) (append-nil (loop child_text cs posix_round c))
          (Shape-posix child_text cs [] child c tt))
  start-Inv with_sysv = fresh-Inv [] _ _ refl (Shape-sysv parent_text ps _ parent p (refl, tt)) (
      subst (λ x. Shape child x outside) (append-nil (loop child_text cs sysv_round c))
        (Shape-sysv child_text cs [] child c tt))

  -- The texts of a process, in the order of its rounds.
  abbrev pub all_texts : Role → List Bytes
  all_texts r = pick r (texts parent_text ps p) (texts child_text cs c)

  pub start-texts : (a : Api) (r : Role) → texts_of r (start a ps cs p c) ≡ all_texts r
  unfolding start posix sysv posix_parent posix_child sysv_parent sysv_child written
  start-texts with_posix parent = to_write-posix parent_text ps _ p ∙ append-nil _
  start-texts with_posix child =
      ap to_write (sym (append-nil (loop child_text cs posix_round c)))
      ∙ to_write-posix child_text cs [] c
      ∙ append-nil _
  start-texts with_sysv parent = to_write-sysv parent_text ps _ p ∙ append-nil _
  start-texts with_sysv child =
      ap to_write (sym (append-nil (loop child_text cs sysv_round c)))
      ∙ to_write-sysv child_text cs [] c
      ∙ append-nil _

  pub start-left : (a : Api) → num_left (start a ps cs p c) ≡ round_calls a * (p + c) + 2
  unfolding start posix sysv posix_parent posix_child sysv_parent sysv_child
  start-left with_posix = omega (
    arith,
    length-posix parent_text ps ending p,
    length-posix child_text cs [] c,
    ap length (append-nil (loop child_text cs posix_round c)),
  )
  start-left with_sysv = omega (
    arith,
    length-sysv parent_text ps ending p,
    length-sysv child_text cs [] c,
    ap length (append-nil (loop child_text cs sysv_round c)),
  )
