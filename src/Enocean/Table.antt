-- ===== src/Enocean/Table.antt =====
-- src/enocean/EnoceanDriver.ipp: the device table. A pointer into the table is the index of a slot,
-- given together with what the slot holds; a write through it is `set`.

pub mod Laws
pub mod Invariant
use enocean_core.Base.{
  ℕ, zero, suc, ◌+◌, Bool, true, false, not, ◌&&◌, List, [], ◌∷◌, Option, none, some, ◌==◌,
  if◌then◌else◌,
}
use enocean_core.Enocean.Types.{EnoceanDevice}

-- `std::equal(xs.begin(), xs.end(), ys.begin())`, for `ys` at least as long as `xs`.
unfoldable pub equal : List ℕ → List ℕ → Bool
equal [] ys = true
equal (x ∷ xs) [] = false
equal (x ∷ xs) (y ∷ ys) = x == y && equal xs ys

-- The same slot, counted from one slot earlier.
abbrev later : Option (ℕ × EnoceanDevice) → Option (ℕ × EnoceanDevice)
later none = none
later (some (i, dev)) = some (suc i, dev)

-- `for (auto& dev : devices_) if (...) return &dev; return nullptr;`
unfoldable pub find_first : (EnoceanDevice → Bool) → List EnoceanDevice → Option (ℕ × EnoceanDevice)
find_first test [] = none
find_first test (dev ∷ devices) =
    if test dev then some (0, dev) else later (find_first test devices)

abbrev pub has_addr : List ℕ → EnoceanDevice → Bool
has_addr addr dev = dev.active && equal addr dev.ble_addr.addr

unfoldable pub find_device : List ℕ → List EnoceanDevice → Option (ℕ × EnoceanDevice)
unfolding find_first
find_device addr = find_first (has_addr addr)

unfoldable pub allocate_device : List EnoceanDevice → Option (ℕ × EnoceanDevice)
unfolding find_first
allocate_device = find_first (λ dev. not dev.active)

unfoldable pub count_active : List EnoceanDevice → ℕ
count_active [] = 0
count_active (dev ∷ devices) = (if dev.active then 1 else 0) + count_active devices
