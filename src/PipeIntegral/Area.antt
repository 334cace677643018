-- ===== src/PipeIntegral/Area.antt =====
-- The parts of the integral of cw06/assignment/zad1.c. The operations of `double` are a parameter.
use agh_operating_systems.Prelude.{
  ℕ, zero, suc, ◌+◌, Bool, List, [], ◌∷◌, Option, none, some, if◌then◌else◌,
}

-- What the source uses of `double`: constants, +, *, /, < and the conversion of an int.
pub record Double (F : Type 0) : Type 0 where
  pub nought : F
  pub one : F
  pub four : F
  pub add : F → F → F
  pub times : F → F → F
  pub divide : F → F → F
  pub less : F → F → Bool
  pub of_int : ℕ → F

module _ {F : Type 0} (a : Double F) where
  unfoldable pub f : F → F
  f x = a.divide a.four (a.add (a.times x x) a.one)

  -- The loop of `rectangle_area`, on fuel; `none` where the fuel is too little.
  unfoldable pub area_loop : (fuel : ℕ) (x end dx sum : F) → Option F
  area_loop zero x end dx sum = none
  area_loop (suc fuel) x end dx sum =
      let more = area_loop fuel (a.add x dx) end dx (a.add sum (a.times (f x) dx)) in
      if a.less x end then more else some sum

  unfoldable pub rectangle_area : (fuel : ℕ) (start end dx : F) → Option F
  rectangle_area fuel start end dx = area_loop fuel start end dx a.nought

  -- What the child `i` of `k` writes into its pipe.
  unfoldable pub child_area : (fuel : ℕ) (dx : F) (k i : ℕ) → Option F
  child_area fuel dx k i =
      let step = a.divide a.one (a.of_int k) in
      rectangle_area fuel (a.times (a.of_int i) step) (a.times (a.of_int (i + 1)) step) dx

  -- What all children of `k` write, from child `i` on.
  unfoldable pub child_areas : (fuel : ℕ) (dx : F) (k left i : ℕ) → List (Option F)
  child_areas fuel dx k zero i = []
  child_areas fuel dx k (suc left) i = child_area fuel dx k i ∷ child_areas fuel dx k left (i + 1)
