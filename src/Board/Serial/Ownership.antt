-- ===== src/Board/Serial/Ownership.antt =====
-- Who owns an initialised driver (boards/common/iserial/ISerial.hpp).
use enocean_core.Base.{
  ℕ, zero, suc, ◌+◌, ◌≡◌, refl, ◌∙◌, arith, false, List, [], ◌∷◌, ◌++◌, set, get_elem?,
  get_elem?-set_ne, Option, some, none, ◌==◌, if_cases,
}
use enocean_core.Board.Serial.{
  Drivers, Serial, construct, initialize, cleanup, move_construct, move_assign, write, read,
  get_pending, flush,
}
use enocean_core.Board.Serial.Objects.{
  World, Op, constructs, initializes, move_constructs, gets_pending, flushes_object, destructs,
  move_assigns, writes_to, reads_from, object_at, on_object, on_two, with_object, apply, run_ops,
  times_initialised, times_deinitialised, holds, holders,
}

holders-append :
    (port : ℕ) (xs ys : List (Option Serial))
    → holders port (xs ++ ys) ≡ holders port xs + holders port ys
holders-append port [] ys = omega arith
holders-append port (x ∷ xs) ys = omega (arith, holders-append port xs ys)

holders-set :
    (port : ℕ) (xs : List (Option Serial)) (i : ℕ) {o : Option Serial} (v : Option Serial)
    → get_elem? xs i ≡ some o
    → holders port (set xs i v) + holds port o ≡ holders port xs + holds port v
holders-set port [] i v e = cc
holders-set port (x ∷ xs) zero {o} v e = let same : x ≡ o = cc in rw same (omega arith)
holders-set port (x ∷ xs) (suc i) v e = omega (arith, holders-set port xs i v e)

-- Every initialised driver has as many owners as it was initialised more often than deinitialised.
abbrev pub IsBalanced : Drivers → ℕ → World → Type 0
IsBalanced drivers port w =
    times_initialised drivers port w.calls
    ≡ times_deinitialised port w.calls + holders port w.objects

module _ (drivers : Drivers) (port : ℕ) where
  -- A call that neither initialises nor deinitialises.
  on_object-IsBalanced :
      (w : World) (op : Op) (i : ℕ) (s : Serial)
      → get_elem? w.objects i ≡ some (some s)
      → IsBalanced drivers port w
      → IsBalanced drivers port (on_object drivers w op i s)
  unfolding on_object initialize move_construct write read get_pending flush cleanup
      times_initialised times_deinitialised
  on_object-IsBalanced w (constructs d) i s e h = h
  on_object-IsBalanced w (initializes _) i s e h =
      ground (arith, h, holders-set port w.objects i (some (initialize drivers s w.calls).0) e)
  on_object-IsBalanced w (move_constructs _) i s e h =
      let (new, left) = move_construct drivers s in
      ground (
        arith,
        h,
        holders-set port w.objects i (some left) e,
        holders-append port (set w.objects i (some left)) (some new ∷ []),
      )
  on_object-IsBalanced w (gets_pending _) i s e h = h
  on_object-IsBalanced w (flushes_object _) i s e h = h
  on_object-IsBalanced w (destructs _) i s e h =
      ground (arith, h, holders-set port w.objects i none e)
  on_object-IsBalanced w (move_assigns _ _) i s e h = h
  on_object-IsBalanced w (writes_to _ data') i s e h = ground (arith, h)
  on_object-IsBalanced w (reads_from _ size) i s e h = ground (arith, h)

  on_two-IsBalanced :
      (w : World) (i j : ℕ) (s other : Serial)
      → get_elem? w.objects i ≡ some (some s)
      → get_elem? w.objects j ≡ some (some other)
      → IsBalanced drivers port w
      → IsBalanced drivers port (on_two drivers w i s j other)
  unfolding on_two move_assign cleanup times_initialised times_deinitialised
  on_two-IsBalanced w i j s other e e' h =
      if_cases (IsBalanced drivers port) (i == j) (λ _. h) apart
    where
      left : Option Serial
      left = some (move_assign drivers s other w.calls).1

      moved : Option Serial
      moved = some (move_assign drivers s other w.calls).0

      apart :
          (i == j) ≡ false
          → IsBalanced drivers port (record {
            objects = set (set w.objects j left) i moved;
            calls = (move_assign drivers s other w.calls).2;
          })
      apart ne = ground (
        arith,
        h,
        e,
        holders-set port w.objects j left e',
        holders-set port (set w.objects j left) i {o = some s} moved
            (get_elem?-set_ne w.objects j i left (λ same. ground (arith, ne, same)) ∙ e),
      )

  with_object-IsBalanced :
      (w : World) (i : ℕ) (f : Serial → World)
      → ((s : Serial) → get_elem? w.objects i ≡ some (some s) → IsBalanced drivers port (f s))
      → IsBalanced drivers port w
      → IsBalanced drivers port (with_object w (object_at w i) f)
  with_object-IsBalanced w i f k h = there (get_elem? w.objects i) refl
    where
      there :
          (o : Option (Option Serial))
          → get_elem? w.objects i ≡ o
          → IsBalanced drivers port (with_object w (elim o [ none ↦ none | some x ↦ x ]) f)
      there none e = h
      there (some none) e = h
      there (some (some s)) e = k s e

  apply-IsBalanced :
      (w : World) (op : Op)
      → IsBalanced drivers port w
      → IsBalanced drivers port (apply drivers w op)
  unfolding apply construct
  apply-IsBalanced w (constructs d) h =
      ground (arith, h, holders-append port w.objects (some (construct d) ∷ []))
  apply-IsBalanced w (move_assigns i j) h =
      with_object-IsBalanced w i _
        (λ s e. with_object-IsBalanced w j _ (λ other e'. on_two-IsBalanced w i j s other e e' h) h)
        h
  apply-IsBalanced w op h =
      with_object-IsBalanced w _ _ (λ s e. on_object-IsBalanced w op _ s e h) h

  run_ops-IsBalanced :
      (w : World) (ops : List Op)
      → IsBalanced drivers port w
      → IsBalanced drivers port (run_ops drivers w ops)
  unfolding run_ops
  run_ops-IsBalanced w [] h = h
  run_ops-IsBalanced w (op ∷ ops) h =
      run_ops-IsBalanced (apply drivers w op) ops (apply-IsBalanced w op h)

abbrev pub empty : World
empty = record { objects = []; calls = [] }

-- Through any history of Serial objects, with moves and destructions, the driver of a port has been
-- deinitialised as often as it was initialised with success, but for once for each object that holds
-- it initialised: none is deinitialised twice, and none is forgotten.
pub run_ops-empty :
    (drivers : Drivers) (port : ℕ) (ops : List Op)
    → times_initialised drivers port (run_ops drivers empty ops).calls
      ≡ times_deinitialised port (run_ops drivers empty ops).calls
        + holders port (run_ops drivers empty ops).objects
unfolding times_initialised times_deinitialised
run_ops-empty drivers port ops = run_ops-IsBalanced drivers port empty ops refl
