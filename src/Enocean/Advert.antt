-- ===== src/Enocean/Advert.antt =====
-- src/enocean/EnoceanDriver.ipp: extract_manufacturer_data, the walk over the AD structures of an
-- advertisement. Each read goes through `read` and the final `subspan` through `subspan`, which are
-- out of bounds where the C++ has undefined behaviour. The `while` loop takes fuel.
pub mod Scan
pub mod Structures
use enocean_core.Base.{
  ℕ, zero, suc, ◌+◌, ◌-◌, not, List, [], ◌∷◌, length, take, drop, Run, done, out_of_bounds,
  out_of_fuel, ◌>>=◌, read, subspan, ltb, ◌==◌, if◌then◌else◌, bit_or,
}
use enocean_core.Base.Bits.{◌<<◌}
use enocean_core.Enocean.Types.{k_enocean_manufacturer_id}

abbrev pub k_ad_type_manufacturer : ℕ
k_ad_type_manufacturer = 0xFF

-- The body of `if (type == k_ad_type_manufacturer)` at index `i` of the type byte; `next` is the
-- rest of the loop.
manufacturer : List ℕ → ℕ → ℕ → Run (List ℕ) → Run (List ℕ)
manufacturer adv_data i len next = if ltb (length adv_data - i) 3 then done [] else do
  lo ← read adv_data (i + 1)
  hi ← read adv_data (i + 2)
  if bit_or lo (hi << 8) == k_enocean_manufacturer_id
      then if ltb len 3 then done [] else subspan adv_data (i + 3) (len - 3)
      else next

-- A round of the loop from the type byte at index `i` on.
structure : List ℕ → ℕ → ℕ → Run (List ℕ) → Run (List ℕ)
unfolding manufacturer
structure adv_data i len next = do
  type ← read adv_data i
  if type == k_ad_type_manufacturer then manufacturer adv_data i len next else next

walk : ℕ → List ℕ → ℕ → Run (List ℕ)
unfolding structure
walk zero adv_data i = out_of_fuel
walk (suc fuel) adv_data i =
    let rest = λ (len : ℕ). walk fuel adv_data (i + 1 + len) in
    if not (ltb i (length adv_data)) then done [] else do
      len ← read adv_data i
      if len == 0
          then done []
          else if ltb (length adv_data) (i + len)
          then done []
          else structure adv_data (i + 1) len (rest len)

-- Every round moves the index forward, so one round more than the bytes there are is enough.
unfoldable pub extract_manufacturer_data : List ℕ → Run (List ℕ)
unfolding walk
extract_manufacturer_data adv_data = walk (suc (length adv_data)) adv_data 0
