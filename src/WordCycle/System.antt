-- ===== src/WordCycle/System.antt =====
-- The threads of Funkcje/Mutex/zad1.c, one statement at a time.
use agh_operating_systems.Prelude.{
  ℕ, suc, ◌+◌, ◌≡◌, List, [], ◌∷◌, ◌++◌, Option, none, some, ◌==◌, leb, if◌then◌else◌, get_elem?,
  set, replicate,
}
use agh_operating_systems.CString.{Bytes, bytes}

abbrev pub l_slow : ℕ
l_slow = 8

abbrev pub slownik : List Bytes
slownik =
    bytes "alfa"
    ∷ bytes "bravo"
    ∷ bytes "charlie"
    ∷ bytes "delta"
    ∷ bytes "echo"
    ∷ bytes "foxtrot"
    ∷ bytes "golf"
    ∷ bytes "hotel"
    ∷ []

-- The next statement of `fun_watka`: `pthread_mutex_lock`, `printf`, the test of NR, `pthread_mutex_unlock`, `sleep`.
pub data Pc : Type 0 where
  locking printing wrapping unlocking sleeping : Pc

-- The globals and the threads; `mutex` is 1 while the mutex is free. What is printed is `none` where NR is not an
-- index of `slownik`.
pub record System : Type 0 where
  pub nr : ℕ
  pub mutex : ℕ
  pub printed : List (Option Bytes)
  pub threads : List Pc

-- `main` creates 20 threads; one that is not yet created has not moved.
unfoldable pub init : ℕ → System
init n = record { nr = 0; mutex = 1; printed = []; threads = replicate n locking }

abbrev pub num_threads : ℕ
num_threads = 20

abbrev pub at_thread : ℕ → Pc → System → System
at_thread i pc s = record s { threads = set s.threads i pc }

unfoldable pub fun_watka : ℕ → Pc → System → Option System
fun_watka i locking s =
    if s.mutex == 1 then some (record (at_thread i printing s) { mutex = 0 }) else none
fun_watka i printing s = some (record (at_thread i wrapping s) {
  printed = s.printed ++ get_elem? slownik s.nr ∷ [];
  nr = s.nr + 1;
})
fun_watka i wrapping s =
    some (record (at_thread i unlocking s) { nr = if leb l_slow s.nr then 0 else s.nr })
fun_watka i unlocking s = some (record (at_thread i sleeping s) { mutex = 1 })
fun_watka i sleeping s = none

unfoldable pub step : ℕ → System → Option System
step i s = elim (get_elem? s.threads i) [ none ↦ none | some pc ↦ fun_watka i pc s ]

-- The states that are reached in some number of steps.
pub data Run (n : ℕ) : ℕ → System → Type 0 where
  start : Run n 0 (init n)
  next : {k : ℕ} {s t : System} (i : ℕ) → Run n k s → step i s ≡ some t → Run n (suc k) t
