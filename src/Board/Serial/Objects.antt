-- ===== src/Board/Serial/Objects.antt =====
-- Several Serial objects (boards/common/iserial/ISerial.hpp), in the order of their construction, and the
-- calls of their drivers. `none` stands for one that was destroyed.
use enocean_core.Base.{
  ℕ, ◌+◌, List, [], ◌∷◌, ◌++◌, set, get_elem?, Option, some, none, ◌==◌, if◌then◌else◌,
}
use enocean_core.Os.{is_success}
use enocean_core.Board.Serial.{
  Call, Drivers, Serial, construct, initialize, cleanup, move_construct, move_assign, write, read,
  get_pending, flush,
}

pub record World : Type 0 where
  pub objects : List (Option Serial)
  pub calls : List Call

pub data Op : Type 0 where
  constructs : ℕ → Op
  initializes move_constructs gets_pending flushes_object destructs : ℕ → Op
  move_assigns : ℕ → ℕ → Op
  writes_to : ℕ → List ℕ → Op
  reads_from : ℕ → ℕ → Op

-- The object at an index, if there is one.
abbrev pub object_at : World → ℕ → Option Serial
object_at w i = elim (get_elem? w.objects i) [ none ↦ none | some o ↦ o ]

-- An operation on one object.
unfoldable pub on_object : Drivers → World → Op → ℕ → Serial → World
unfolding initialize move_construct write read get_pending flush cleanup
on_object drivers w (initializes _) i s =
    let (s', calls, ok) = initialize drivers s w.calls in
    record { objects = set w.objects i (some s'); calls = calls }
on_object drivers w (move_constructs _) i s =
    let (new, left) = move_construct drivers s in
    record w { objects = set w.objects i (some left) ++ some new ∷ [] }
on_object drivers w (gets_pending _) i s = record w { calls = (get_pending drivers s w.calls).0 }
on_object drivers w (flushes_object _) i s = record w { calls = flush s w.calls }
on_object drivers w (destructs _) i s = record {
  objects = set w.objects i none;
  calls = (cleanup s w.calls).1;
}
on_object drivers w (writes_to _ data') i s = record w { calls = (write drivers s data' w.calls).0 }
on_object drivers w (reads_from _ size) i s = record w { calls = (read drivers s size w.calls).0 }
on_object drivers w _ i s = w

-- `object i = std::move(object j)`; nothing happens if they are one.
unfoldable pub on_two : Drivers → World → ℕ → Serial → ℕ → Serial → World
unfolding move_assign
on_two drivers w i s j other =
    let (s', left, calls) = move_assign drivers s other w.calls in
    if i == j
    then w
    else record { objects = set (set w.objects j (some left)) i (some s'); calls = calls }

abbrev index : Op → ℕ
index (initializes i) = i
index (move_constructs i) = i
index (gets_pending i) = i
index (flushes_object i) = i
index (destructs i) = i
index (writes_to i data') = i
index (reads_from i size) = i
index _ = 0

-- An operation on an object that is not there is none.
abbrev pub with_object : World → Option Serial → (Serial → World) → World
with_object w none f = w
with_object w (some s) f = f s

unfoldable pub apply : Drivers → World → Op → World
unfolding on_object on_two construct
apply drivers w (constructs driver) = record w {
  objects = w.objects ++ some (construct driver) ∷ [];
}
apply drivers w (move_assigns i j) =
    with_object w (object_at w i)
      (λ s. with_object w (object_at w j) (λ other. on_two drivers w i s j other))
apply drivers w op = with_object w (object_at w (index op)) (on_object drivers w op (index op))

unfoldable pub run_ops : Drivers → World → List Op → World
unfolding apply
run_ops drivers w [] = w
run_ops drivers w (op ∷ ops) = run_ops drivers (apply drivers w op) ops

-- How often the driver of a port was initialised with success, and deinitialised.
unfoldable pub times_initialised : Drivers → ℕ → List Call → ℕ
times_initialised drivers port [] = 0
times_initialised drivers port (Call.inits p ∷ calls) =
    if p == port
    then if is_success (drivers.init (Call.inits p ∷ calls))
      then times_initialised drivers port calls + 1
      else times_initialised drivers port calls
    else times_initialised drivers port calls
times_initialised drivers port (c ∷ calls) = times_initialised drivers port calls

unfoldable pub times_deinitialised : ℕ → List Call → ℕ
times_deinitialised port [] = 0
times_deinitialised port (Call.deinits p ∷ calls) =
    if p == port then times_deinitialised port calls + 1 else times_deinitialised port calls
times_deinitialised port (c ∷ calls) = times_deinitialised port calls

-- How many objects hold the initialised driver of a port.
abbrev pub holds : ℕ → Option Serial → ℕ
holds port none = 0
holds port (some s) = if s.is_initialized then if s.driver == port then 1 else 0 else 0

abbrev pub holders : ℕ → List (Option Serial) → ℕ
holders port [] = 0
holders port (o ∷ os) = holds port o + holders port os
