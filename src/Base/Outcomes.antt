-- ===== src/Base/Outcomes.antt =====
-- Results of code that indexes memory and loops: a value, a read outside the buffer that the code
-- was given (undefined behaviour in C++), or a loop whose fuel ran out. The last stands for no
-- behaviour of the program.
use mathlib.Core.Path.{◌≡◌, refl}
use mathlib.Core.Option.{none, some}
use Prim.Native.Nat.{ℕ, ◌+◌, ◌<◌, ◌≤◌}
use mathlib.Core.List.{List, [], ◌∷◌}
use native.Mathlib.Omega.{arith}
use enocean_core.Base.Tests.{ltb, le→ltb, if◌then◌else◌}
use enocean_core.Base.Lists.{take, drop, length, get_elem?, get_or, get_elem?-get_or}

pub data Run {ℓ} (A : Type ℓ) : Type ℓ where
  done : A → Run A
  out_of_bounds : Run A
  out_of_fuel : Run A

infixl 5 ◌>>=◌
abbrev pub ◌>>=◌ {ℓ κ} : {A : Type ℓ} {B : Type κ} → Run A → (A → Run B) → Run B
done a >>= f = f a
out_of_bounds >>= f = out_of_bounds
out_of_fuel >>= f = out_of_fuel

-- `xs[i]`.
abbrev pub read {ℓ} : {A : Type ℓ} → List A → ℕ → Run A
read xs i = elim (get_elem? xs i) [ none ↦ out_of_bounds | some a ↦ done a ]

-- `xs.subspan(offset, count)`, undefined unless `offset + count <= xs.size()`.
abbrev pub subspan {ℓ} : {A : Type ℓ} → List A → ℕ → ℕ → Run (List A)
subspan xs offset count =
    if ltb (length xs) (offset + count) then out_of_bounds else done (take count (drop offset xs))

-- `std::copy(xs.begin(), xs.end(), old.begin())`: the rest of `old` stays.
pub copy_over {ℓ} : {A : Type ℓ} → List A → List A → Run (List A)
copy_over [] old = done old
copy_over (x ∷ xs) [] = out_of_bounds
copy_over (x ∷ xs) (o ∷ old) = do rest ← copy_over xs old; done (x ∷ rest)

pub copy_over_whole {ℓ} :
    {A : Type ℓ} (xs old : List A) → length xs ≡ length old → copy_over xs old ≡ done xs
unfolding copy_over
copy_over_whole [] [] h = refl
copy_over_whole [] (o ∷ old) h = absurd (omega arith)
copy_over_whole (x ∷ xs) [] h = absurd (omega arith)
copy_over_whole (x ∷ xs) (o ∷ old) h = rw (copy_over_whole xs old (omega arith))

pub read-done {ℓ} :
    {A : Type ℓ} (xs : List A) (i : ℕ) (d : A) → i < length xs → read xs i ≡ done (get_or xs i d)
read-done xs i d h = rw (get_elem?-get_or xs i d h, read)

-- A successful bind, taken apart.
pub bind-eq-done {ℓ κ} :
    {A : Type ℓ} {B : Type κ} (m : Run A) (f : A → Run B) {b : B}
    → (m >>= f) ≡ done b
    → (a : A) × (m ≡ done a) × (f a ≡ done b)
bind-eq-done (done a) f h = (a, refl, h)
bind-eq-done out_of_bounds f h = cc
bind-eq-done out_of_fuel f h = cc

pub done-injective {ℓ} : {A : Type ℓ} {a b : A} → done a ≡ done b → a ≡ b
done-injective e = cc

-- The run gives a value.
abbrev pub Total {ℓ} : {A : Type ℓ} → Run A → Type ℓ
Total {A} r = (a : A) × (r ≡ done a)

pub done-Total {ℓ} : {A : Type ℓ} (a : A) → Total (done a)
done-Total a = (a, refl)

pub bind-Total {ℓ κ} :
    {A : Type ℓ} {B : Type κ} (m : Run A) (f : A → Run B)
    → Total m
    → ((a : A) → Total (f a))
    → Total (m >>= f)
bind-Total m f (a, e) h = let (b, e') = h a in (b, rw (e, ◌>>=◌) e')

pub read-Total : (xs : List ℕ) (i : ℕ) → i < length xs → Total (read xs i)
read-Total xs i h = (get_or xs i 0, read-done xs i 0 h)

pub subspan-Total {ℓ} :
    {A : Type ℓ} (xs : List A) (offset count : ℕ)
    → offset + count ≤ length xs
    → Total (subspan xs offset count)
subspan-Total xs offset count h =
    (take count (drop offset xs), rw (le→ltb (length xs) (offset + count) h))
