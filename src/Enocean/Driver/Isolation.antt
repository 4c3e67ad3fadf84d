-- ===== src/Enocean/Driver/Isolation.antt =====
-- Devices of other addresses, and the number of devices, in process_advertisement
-- (src/enocean/EnoceanDriver.ipp).
use native.Mathlib.Decide.{ℕ_discrete}
use enocean_core.Base.{
  ℕ, suc, ◌≤◌, ◌≡◌, ◌≢◌, refl, ◌∙◌, sym, ap, subst, arith, ◌⊎◌, inl, inr, true, List, length,
  length-set, get_elem?, get_elem?-set_ne, some, none, done,
}
use mathlib.Core.Bool.{false≢true}
use enocean_core.Base.Int.{ℤ}
use enocean_core.Crypto.{Decrypt}
use enocean_core.Enocean.Types.{EnoceanDevice, Event}
use enocean_core.Enocean.Table.{find_device}
use enocean_core.Enocean.Table.Laws.{
  find_device-some, allocate_device-some, count_active-set, count_active-le, one,
}
use enocean_core.Enocean.Table.Invariant.{IsTable, find_device-addr}
use enocean_core.Enocean.Driver.Steps.{Step, ignore, refuse, accept, commission, with_device}
use enocean_core.Enocean.Driver.Refine.{process_advertisement-Step}
use enocean_core.Enocean.Driver.{EnoceanDriver, process_advertisement, device_count}

-- Every device in use under another address is as it was.
abbrev pub Spares : List ℕ → EnoceanDriver → EnoceanDriver → Type 0
Spares addr d d' =
    (j : ℕ) (other : EnoceanDevice)
    → get_elem? d.devices j ≡ some other
    → other.active ≡ true
    → other.ble_addr.addr ≢ addr
    → get_elem? d'.devices j ≡ some other

-- A write to a slot whose device is not in use under another address.
Spares-set :
    (d : EnoceanDriver) (addr : List ℕ) (i : ℕ) (old new : EnoceanDevice)
    → get_elem? d.devices i ≡ some old
    → (old.active ≡ true → old.ble_addr.addr ≡ addr)
    → Spares addr d (with_device d i new)
Spares-set d addr i old new at own j other e on foreign = elim (ℕ_discrete i j) [
  | yes same ↦
      let same_device : old ≡ other = cc (same, at, e) in
      absurd (
        foreign
          (ap (λ k. k.ble_addr.addr) (sym same_device) ∙ own (ap (λ k. k.active) same_device ∙ on)))
  | no apart ↦ get_elem?-set_ne d.devices i j new apart ∙ e
]

Step-Spares :
    {crypto : Decrypt} {d d' : EnoceanDriver} {addr : List ℕ} {rssi : ℤ} {adv_data : List ℕ}
    {events : List Event}
    → IsTable d.devices
    → length addr ≡ 6
    → Step crypto d addr rssi adv_data events d'
    → Spares addr d d'
Step-Spares {d = d} {addr = addr} t len (ignore e _) =
    subst (Spares addr d) (sym e) (λ j other at on foreign. at)
Step-Spares {d = d} {addr = addr} t len (refuse i dev found e _) = subst (Spares addr d) (sym e) (
    Spares-set d addr i dev _ (find_device-some addr d.devices {i = i} {dev = dev} found).0
      (λ _. find_device-addr addr d.devices t len found))
Step-Spares {d = d} {addr = addr} t len (accept i dev p seq _ found x r n g e _ _) =
    subst (Spares addr d) (sym e) (
      Spares-set d addr i dev _ (find_device-some addr d.devices {i = i} {dev = dev} found).0
        (λ _. find_device-addr addr d.devices t len found))
Step-Spares {d = d} {addr = addr} t len
      (commission i free p seq marker type _ on unknown slot x long r m dt e) =
    let at = allocate_device-some d.devices {i = i} {dev = free} slot in
    subst (Spares addr d) (sym e.0)
      (Spares-set d addr i free _ at.0 (λ h. absurd (false≢true (sym at.1 ∙ h))))

-- An advertisement from a six-byte address, to a well-formed table, changes no device in use under
-- another address.
pub process_advertisement-Spares :
    (crypto : Decrypt) (d : EnoceanDriver) (addr : List ℕ) (addr_type adv_type : ℕ) (rssi : ℤ)
    (adv_data : List ℕ) {d' : EnoceanDriver} {events : List Event}
    → IsTable d.devices
    → length addr ≡ 6
    → process_advertisement crypto d addr addr_type adv_type rssi adv_data ≡ done (d', events)
    → Spares addr d d'
process_advertisement-Spares crypto d addr addr_type adv_type rssi adv_data {d'} {events} t len e =
    Step-Spares t len (
      process_advertisement-Step crypto d addr rssi t addr_type adv_type adv_data {events = events}
        {d' = d'} e)

-- The number of devices after an advertisement.
abbrev pub Counts : List ℕ → EnoceanDriver → EnoceanDriver → Type 0
Counts addr d d' =
    (device_count d' ≡ device_count d)
    ⊎ ((device_count d' ≡ suc (device_count d))
        × (d.commissioning_enabled ≡ true)
        × (find_device addr d.devices ≡ none))

-- A device written back to its slot, still in use.
count-update :
    (d : EnoceanDriver) (i : ℕ) (old new : EnoceanDevice)
    → get_elem? d.devices i ≡ some old
    → new.active ≡ old.active
    → device_count (with_device d i new) ≡ device_count d
count-update d i old new at same =
    omega (arith, count_active-set d.devices i old new at, ap (λ b. one b) same)

Step-Counts :
    {crypto : Decrypt} {d d' : EnoceanDriver} {addr : List ℕ} {rssi : ℤ} {adv_data : List ℕ}
    {events : List Event}
    → Step crypto d addr rssi adv_data events d'
    → Counts addr d d'
Step-Counts {d = d} {addr = addr} (ignore e _) = inl (ap (λ q. device_count q) e)
Step-Counts {d = d} {addr = addr} (refuse i dev found e _) = inl (
    ap (λ q. device_count q) e
    ∙ count-update d i dev _ (find_device-some addr d.devices {i = i} {dev = dev} found).0 refl)
Step-Counts {d = d} {addr = addr} (accept i dev p seq _ found x r n g e _ _) = inl (
    ap (λ q. device_count q) e
    ∙ count-update d i dev _ (find_device-some addr d.devices {i = i} {dev = dev} found).0 refl)
Step-Counts {d = d} {addr = addr}
      (commission i free p seq marker type _ on unknown slot x long r m dt e) =
    let at = allocate_device-some d.devices {i = i} {dev = free} slot in
    inr (
      ap (λ q. device_count q) e.0
          ∙ omega (arith, count_active-set d.devices i free _ at.0, ap (λ b. one b) at.1),
      on,
      unknown,
    )

Step-size :
    {crypto : Decrypt} {d d' : EnoceanDriver} {addr : List ℕ} {rssi : ℤ} {adv_data : List ℕ}
    {events : List Event}
    → Step crypto d addr rssi adv_data events d'
    → length d'.devices ≡ length d.devices
Step-size {d = d} (ignore e _) = ap (λ q. length q.devices) e
Step-size {d = d} (refuse i dev found e _) = ap (λ q. length q.devices) e ∙ length-set d.devices i _
Step-size {d = d} (accept i dev p seq _ found x r n g e _ _) =
    ap (λ q. length q.devices) e ∙ length-set d.devices i _
Step-size {d = d} (commission i free p seq marker type _ on unknown slot x long r m dt e) =
    ap (λ q. length q.devices) e.0 ∙ length-set d.devices i _

-- An advertisement to a well-formed table leaves the number of devices as it is, or adds one, and
-- this only while
-- commissioning is enabled and from an address that the table does not know. There are at most eight.
pub process_advertisement-Counts :
    (crypto : Decrypt) (d : EnoceanDriver) (addr : List ℕ) (addr_type adv_type : ℕ) (rssi : ℤ)
    (adv_data : List ℕ) {d' : EnoceanDriver} {events : List Event}
    → IsTable d.devices
    → process_advertisement crypto d addr addr_type adv_type rssi adv_data ≡ done (d', events)
    → Counts addr d d' × (device_count d' ≤ 8)
process_advertisement-Counts crypto d addr addr_type adv_type rssi adv_data {d'} {events} t e =
    let st =
      process_advertisement-Step crypto d addr rssi t addr_type adv_type adv_data {events = events}
        {d' = d'} e in
    (Step-Counts st, omega (arith, count_active-le d'.devices, Step-size st, t.size))
