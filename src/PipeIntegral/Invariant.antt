-- ===== src/PipeIntegral/Invariant.antt =====
-- What stands in the pipes of cw06/assignment/zad1.c, and what the parent has read.
use agh_operating_systems.Prelude.{
  get_elem?-set_cases, get_elem?-set_ne, ℕ, zero, suc, ◌+◌, ◌≤◌, ◌≡◌, refl, sym, ap, ◌∙◌, subst,
  Bool, true, false, List, [], ◌∷◌, ◌++◌, Option, none, some, get_elem?, get_elem?_of_lt,
  get_elem?-lt, set, replicate, length, length-append, length-set, length-replicate, take, count,
  count-set, arith, inl, inr, get_elem?-replicate, count-none,
}
use mathlib.Core.Option.{some-injective}
use agh_operating_systems.PipeIntegral.Area.{Double}
use agh_operating_systems.PipeIntegral.System.{
  System, Event, child_writes, parent_reads, init, write_part, read_part, step, Run, start, next,
}

-- The parts that have been computed.
abbrev pub ended {ℓ} : {A : Type ℓ} → List (Option A) → List A
ended [] = []
ended (none ∷ rest) = ended rest
ended (some part ∷ rest) = part ∷ ended rest

ended-append {ℓ} : {A : Type ℓ} (xs ys : List (Option A)) → ended (xs ++ ys) ≡ ended xs ++ ended ys
ended-append [] ys = refl
ended-append (none ∷ xs) ys = ended-append xs ys
ended-append (some part ∷ xs) ys = ap (◌∷◌ part) (ended-append xs ys)

take-get_elem? {ℓ} :
    {A : Type ℓ} (n : ℕ) (xs : List A) (x : A)
    → get_elem? xs n ≡ some x
    → take (n + 1) xs ≡ take n xs ++ x ∷ []
take-get_elem? n [] x g = absurd (cc)
take-get_elem? zero (y ∷ xs) x g = ap (λ z. z ∷ []) (some-injective _ _ g)
take-get_elem? (suc n) (y ∷ xs) x g =
    let e : suc n + 1 ≡ suc (n + 1) = omega arith in
    ap (λ m. take m (y ∷ xs)) e ∙ ap (◌∷◌ y) (take-get_elem? n xs x g)

-- `total += partial`, in the order of the pipes.
unfoldable pub sum_from : {F : Type 0} → Double F → F → List F → F
sum_from a total [] = total
sum_from a total (part ∷ rest) = sum_from a (a.add total part) rest

module _ {F : Type 0} (a : Double F) (areas : List (Option F)) where
  sum_from-snoc : (t x : F) (xs : List F) → sum_from a t (xs ++ x ∷ []) ≡ a.add (sum_from a t xs) x
  unfolding sum_from
  sum_from-snoc t x [] = refl
  sum_from-snoc t x (y ∷ xs) = sum_from-snoc (a.add t y) x xs

  -- The parts of the children in front of pipe `n`.
  abbrev pub parts : ℕ → List F
  parts n = ended (take n areas)

  abbrev pub has_exited : Bool → Bool
  has_exited b = b

  -- Child `j`, while its pipe has not been read: what it has computed stands in the pipe once it has exited, and not
  -- before.
  abbrev pub Stands : ℕ → Bool → Option F → Type 0
  Stands j true content =
      (part : F) × (content ≡ some part) × (get_elem? areas j ≡ some (some part))
  Stands j false content = content ≡ none

  Stands-some :
      (j : ℕ) (b : Bool) (part : F) → Stands j b (some part) → get_elem? areas j ≡ some (some part)
  Stands-some j true part (p, e, g) = g ∙ ap some (sym e)
  Stands-some j false part e = absurd (cc)

  Stands-none : (j : ℕ) → Stands j true none → ⊥
  Stands-none j (p, e, g) = absurd (cc)

  pub record Inv (k : ℕ) (s : System F) : Type 0 where
    pub exits : length s.exited ≡ length areas
    pub slots : length s.pipes ≡ length areas
    pub steps : k ≡ count has_exited s.exited + s.next_pipe
    pub within : s.next_pipe ≤ length areas
    pub stands :
        (j : ℕ) (b : Bool) (x : Option F)
        → s.next_pipe ≤ j
        → get_elem? s.exited j ≡ some b
        → get_elem? s.pipes j ≡ some x
        → Stands j b x
    pub summed : s.total ≡ sum_from a a.nought (parts s.next_pipe)
    pub counted : length (parts s.next_pipe) ≡ s.next_pipe

  init-Inv : Inv 0 (init a areas)
  unfolding init sum_from
  init-Inv = record {
    exits = length-replicate (length areas) false;
    slots = length-replicate (length areas) none;
    steps = omega (
      arith,
      count-none has_exited (replicate (length areas) false)
          (λ i x g. get_elem?-replicate (length areas) false i x g),
    );
    within = omega arith;
    stands = λ j b x le g h.
        subst (λ y. Stands j y x) (sym (get_elem?-replicate (length areas) false j b g))
          (get_elem?-replicate (length areas) none j x h);
    summed = refl;
    counted = refl;
  }

  module _ {k : ℕ} {s : System F} (v : Inv k s) where
    write_part-Stands :
        (i : ℕ) (part : F)
        → get_elem? areas i ≡ some (some part)
        → (j : ℕ) (b : Bool) (x : Option F) → s.next_pipe ≤ j
        → get_elem? (set s.exited i true) j ≡ some b
        → get_elem? (set s.pipes i (some part)) j ≡ some x
        → Stands j b x
    write_part-Stands i part q j b x le g h = elim (get_elem?-set_cases s.exited i j true b g) [
      | inl (e, eb) ↦ elim (get_elem?-set_cases s.pipes i j (some part) x h) [
        | inl (_, ex) ↦
            subst (λ y. Stands j y x) (sym eb)
              (part, ex, subst (λ m. get_elem? areas m ≡ some (some part)) e q)
        | inr (ne, _) ↦ absurd (ne e)
      ]
      | inr (ne, g') ↦ v.stands j b x le g' (sym (get_elem?-set_ne s.pipes i j (some part) ne) ∙ h)
    ]

    write_part-Inv :
        (i : ℕ) (x : Option (Option F)) (w : Option Bool) (t : System F)
        → get_elem? areas i ≡ x
        → get_elem? s.exited i ≡ w
        → write_part a areas i x w s ≡ some t
        → Inv (suc k) t
    unfolding write_part
    write_part-Inv i (some (some part)) (some false) t q g e =
        subst (Inv (suc k)) (some-injective _ _ e) (record {
          exits = length-set s.exited i true ∙ v.exits;
          slots = length-set s.pipes i (some part) ∙ v.slots;
          steps = omega (arith, v.steps, count-set has_exited s.exited i false true g);
          within = v.within;
          stands = write_part-Stands i part q;
          summed = v.summed;
          counted = v.counted;
        })
    write_part-Inv i _ _ t q g e = absurd (cc)

    -- The parent has read `part`, which the next child has computed.
    read-Inv :
        (part : F) (pipes' : List (Option F))
        → get_elem? areas s.next_pipe ≡ some (some part)
        → length pipes' ≡ length s.pipes
        → ((j : ℕ) → s.next_pipe + 1 ≤ j → get_elem? pipes' j ≡ get_elem? s.pipes j)
        → Inv
            (suc k)
            (record s { pipes = pipes'; next_pipe = s.next_pipe + 1; total = a.add s.total part })
    read-Inv part pipes' g len same =
        let more : parts (s.next_pipe + 1) ≡ parts s.next_pipe ++ part ∷ [] =
          ap ended (take-get_elem? s.next_pipe areas (some part) g)
          ∙ ended-append (take s.next_pipe areas) (some part ∷ []) in
        record {
          exits = v.exits;
          slots = len ∙ v.slots;
          steps = omega (arith, v.steps);
          within = omega (arith, get_elem?-lt areas s.next_pipe (some part) g);
          stands = λ j b x le h h'. v.stands j b x (omega arith) h (sym (same j le) ∙ h');
          summed =
              ap (λ x. a.add x part) v.summed
              ∙ sym (sum_from-snoc a.nought part (parts s.next_pipe))
              ∙ ap (sum_from a a.nought) (sym more);
          counted =
              omega
                (arith, ap length more, length-append (parts s.next_pipe) (part ∷ []), v.counted);
        }

    read_part-Inv :
        (x : Option (Option F)) (w : Option Bool) (t : System F)
        → get_elem? s.pipes s.next_pipe ≡ x
        → get_elem? s.exited s.next_pipe ≡ w
        → read_part a areas x w s ≡ some t
        → Inv (suc k) t
    unfolding read_part
    read_part-Inv (some (some part)) w t g h e =
        let (b, gb) =
          get_elem?_of_lt s.exited s.next_pipe
            (omega (arith, get_elem?-lt s.pipes s.next_pipe (some part) g, v.slots, v.exits)) in
        subst (Inv (suc k)) (some-injective _ _ e) (
          read-Inv part (set s.pipes s.next_pipe none)
            (Stands-some s.next_pipe b part (v.stands s.next_pipe b (some part) (omega arith) gb g))
            (length-set s.pipes s.next_pipe none)
            (λ j le. get_elem?-set_ne s.pipes s.next_pipe j none (λ q. absurd (omega arith))))
    read_part-Inv (some none) (some true) t g h e =
        absurd (Stands-none s.next_pipe (v.stands s.next_pipe true none (omega arith) h g))
    read_part-Inv _ _ t g h e = absurd (cc)

    step-Inv : (e : Event) (t : System F) → step a areas e s ≡ some t → Inv (suc k) t
    unfolding step
    step-Inv (child_writes i) t e =
        write_part-Inv i (get_elem? areas i) (get_elem? s.exited i) t refl refl e
    step-Inv parent_reads t e = read_part-Inv (get_elem? s.pipes s.next_pipe) _ t refl refl e

  pub Run-Inv : {k : ℕ} {s : System F} → Run a areas k s → Inv k s
  Run-Inv start = init-Inv
  Run-Inv (next {t = t} e r q) = step-Inv (Run-Inv r) e t q
