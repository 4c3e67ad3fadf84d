-- ===== src/Enocean/Table/Laws.antt =====
-- Searches of the device table: what they find, and what they find after a slot was written.
use enocean_core.Base.{
  ℕ, zero, suc, ◌+◌, ◌≤◌, ◌≡◌, refl, ◌∙◌, sym, arith, ◌↔◌, Bool, true, false, not, inl, inr, List,
  [], ◌∷◌, length, set, get_elem?, none, some, if◌then◌else◌, Option-cases,
}
use mathlib.Core.Bool.{false≢true}
use enocean_core.Enocean.Types.{EnoceanDevice}
use enocean_core.Enocean.Table.{
  equal, find_first, has_addr, find_device, allocate_device, count_active,
}

pub equal_iff : (xs ys : List ℕ) → length xs ≡ length ys → (equal xs ys ≡ true) ↔ (xs ≡ ys)
unfolding equal
equal_iff [] [] h = (λ _. refl, λ _. refl)
equal_iff [] (y ∷ ys) h = absurd (omega arith)
equal_iff (x ∷ xs) [] h = absurd (omega arith)
equal_iff (x ∷ xs) (y ∷ ys) h = ground (arith, equal_iff xs ys (omega arith))

-- What a search returns is a slot that passes the test.
pub find_first-some :
    (test : EnoceanDevice → Bool) (ds : List EnoceanDevice) {i : ℕ} {dev : EnoceanDevice}
    → find_first test ds ≡ some (i, dev)
    → (get_elem? ds i ≡ some dev) × (test dev ≡ true)
unfolding find_first
find_first-some test [] e = cc
find_first-some test (x ∷ ds) {i = zero} e = ground (arith, find_first-some test ds)
find_first-some test (x ∷ ds) {i = suc i} {dev} e = elim (Option-cases (find_first test ds)) [
  | inl missing ↦ ground arith
  | inr ((k, y), found) ↦ ground (arith, find_first-some test ds {i = k} {dev = y} found)
]

-- A search that fails leaves no slot that passes the test.
pub find_first-none :
    (test : EnoceanDevice → Bool) (ds : List EnoceanDevice) (i : ℕ) {dev : EnoceanDevice}
    → find_first test ds ≡ none
    → get_elem? ds i ≡ some dev
    → test dev ≡ false
unfolding find_first
find_first-none test [] i e h = cc
find_first-none test (x ∷ ds) zero e h = ground arith
find_first-none test (x ∷ ds) (suc i) {dev} e h =
    ground (arith, find_first-none test ds i {dev = dev})

pub find_device-some :
    (addr : List ℕ) (ds : List EnoceanDevice) {i : ℕ} {dev : EnoceanDevice}
    → find_device addr ds ≡ some (i, dev)
    → (get_elem? ds i ≡ some dev) × (dev.active ≡ true) × (equal addr dev.ble_addr.addr ≡ true)
unfolding find_device
find_device-some addr ds {i} {dev} e =
    let found = find_first-some (has_addr addr) ds {i = i} {dev = dev} e in
    (found.0, ground arith, ground arith)

pub allocate_device-some :
    (ds : List EnoceanDevice) {i : ℕ} {dev : EnoceanDevice}
    → allocate_device ds ≡ some (i, dev)
    → (get_elem? ds i ≡ some dev) × (dev.active ≡ false)
unfolding allocate_device
allocate_device-some ds {i} {dev} e =
    let found = find_first-some (λ dev. not dev.active) ds {i = i} {dev = dev} e in
    (found.0, ground arith)

-- A slot that passes the test is found, if none before it does; some slot is found in any case.
pub find_first-total :
    (test : EnoceanDevice → Bool) (ds : List EnoceanDevice) (i : ℕ) {dev : EnoceanDevice}
    → get_elem? ds i ≡ some dev
    → test dev ≡ true
    → (k : ℕ) × (y : EnoceanDevice) × (find_first test ds ≡ some (k, y))
find_first-total test ds i h t = elim (Option-cases (find_first test ds)) [
  | inl missing ↦ absurd (false≢true (sym (find_first-none test ds i missing h) ∙ t))
  | inr ((k, y), found) ↦ (k, y, found)
]

abbrev pub one : Bool → ℕ
one b = if b then 1 else 0

-- A write to a slot changes the count by that slot alone.
pub count_active-set :
    (ds : List EnoceanDevice) (i : ℕ) (old new : EnoceanDevice)
    → get_elem? ds i ≡ some old
    → count_active (set ds i new) + one old.active ≡ count_active ds + one new.active
unfolding count_active
count_active-set [] i old new e = cc
count_active-set (x ∷ ds) zero old new e = ground arith
count_active-set (x ∷ ds) (suc i) old new e = omega (arith, count_active-set ds i old new e)

pub count_active-le : (ds : List EnoceanDevice) → count_active ds ≤ length ds
unfolding count_active
count_active-le [] = omega arith
count_active-le (x ∷ ds) = ground (arith, count_active-le ds)

-- No free slot is found exactly when every slot is in use.
pub allocate_device-full :
    (ds : List EnoceanDevice) → (allocate_device ds ≡ none) ↔ (count_active ds ≡ length ds)
unfolding count_active allocate_device
allocate_device-full [] = (λ _. refl, λ _. refl)
allocate_device-full (x ∷ ds) = ground (arith, allocate_device-full ds, count_active-le ds)
