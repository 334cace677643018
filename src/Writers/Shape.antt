-- ===== src/Writers/Shape.antt =====
-- The discipline that the programs of the two processes follow: what stands between lock and unlock.
use agh_operating_systems.Prelude.{
  ℕ, zero, suc, ◌+◌, ◌*◌, ◌≡◌, refl, ap, List, [], ◌∷◌, ◌++◌, length, arith,
}
use agh_operating_systems.CString.{Bytes}
use agh_operating_systems.Writers.Programs.{
  Call, show, lock, unlock, write_file, write_terminal, wait_child, remove, posix_round, sysv_round,
  loop, texts,
}
use agh_operating_systems.Writers.Machine.{Role, parent}

-- Where a process is: outside its critical section, inside, or inside with a text in the file that is not yet
-- on the terminal.
pub data Mode : Type 0 where
  outside inside : Mode
  half : Bytes → Mode

-- A program that is run from a mode on: it locks outside and unlocks inside, writes inside and every text twice, and
-- only the parent waits for the child.
abbrev pub Shape : Role → List Call → Mode → Type 0
Shape r [] outside = Unit
Shape r (show ∷ rest) d = Shape r rest d
Shape r (lock ∷ rest) outside = Shape r rest inside
Shape r (unlock ∷ rest) inside = Shape r rest outside
Shape r (write_file t ∷ rest) inside = Shape r rest (half t)
Shape r (write_terminal t ∷ rest) (half t') = (t ≡ t') × Shape r rest inside
Shape r (wait_child ∷ rest) outside = (r ≡ parent) × Shape r rest outside
Shape r (remove ∷ rest) outside = Shape r rest outside
Shape r _ _ = ⊥

-- The texts that a program writes to the file.
abbrev pub to_write : List Call → List Bytes
to_write [] = []
to_write (write_file t ∷ rest) = t ∷ to_write rest
to_write (_ ∷ rest) = to_write rest

module _ (text : ℕ → ℕ → Bytes) (sleeps : ℕ → ℕ) (rest : List Call) where
  pub Shape-posix :
      (r : Role) (n : ℕ)
      → Shape r rest outside
      → Shape r (loop text sleeps posix_round n ++ rest) outside
  unfolding loop
  Shape-posix r zero h = h
  Shape-posix r (suc n) h = (refl, Shape-posix r n h)

  pub Shape-sysv :
      (r : Role) (n : ℕ)
      → Shape r rest outside
      → Shape r (loop text sleeps sysv_round n ++ rest) outside
  unfolding loop
  Shape-sysv r zero h = h
  Shape-sysv r (suc n) h = (refl, Shape-sysv r n h)

  pub to_write-posix :
      (n : ℕ)
      → to_write (loop text sleeps posix_round n ++ rest) ≡ texts text sleeps n ++ to_write rest
  unfolding loop texts
  to_write-posix zero = refl
  to_write-posix (suc n) = ap (◌∷◌ (text n (sleeps n))) (to_write-posix n)

  pub to_write-sysv :
      (n : ℕ)
      → to_write (loop text sleeps sysv_round n ++ rest) ≡ texts text sleeps n ++ to_write rest
  unfolding loop texts
  to_write-sysv zero = refl
  to_write-sysv (suc n) = ap (◌∷◌ (text n (sleeps n))) (to_write-sysv n)

  pub length-posix : (n : ℕ) → length (loop text sleeps posix_round n ++ rest) ≡ 8 * n + length rest
  unfolding loop
  length-posix zero = omega arith
  length-posix (suc n) = omega (arith, length-posix n)

  pub length-sysv : (n : ℕ) → length (loop text sleeps sysv_round n ++ rest) ≡ 4 * n + length rest
  unfolding loop
  length-sysv zero = omega arith
  length-sysv (suc n) = omega (arith, length-sysv n)
