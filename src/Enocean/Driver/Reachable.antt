-- ===== src/Enocean/Driver/Reachable.antt =====
-- The driver of src/enocean/EnoceanDriver.ipp from its construction and `init` on.
use enocean_core.Base.{
  ℕ, ◌≡◌, refl, arith, false, true, List, [], ◌∷◌, ◌++◌, All, none, done, Total, done-Total,
}
use enocean_core.Crypto.{Decrypt}
use enocean_core.Enocean.Types.{EnoceanDevice, EnoceanCallbacks, Event}
use enocean_core.Enocean.Advert.{extract_manufacturer_data}
use enocean_core.Enocean.Table.{find_device, find_first, count_active}
use enocean_core.Enocean.Table.Invariant.{IsTable}
use enocean_core.Enocean.Driver.History.{Call, enables, disables, advertises, call, run_calls}
use enocean_core.Enocean.Driver.Invariant.{construct-IsTable, init-IsTable}
use enocean_core.Enocean.Driver.Persist.{IsCall, call-keeps}
use enocean_core.Enocean.Driver.Safe.{process_advertisement-Total}
use enocean_core.Enocean.Driver.{EnoceanDriver, construct, init, clear, device_count}

count_active-clear : (ds : List EnoceanDevice) → count_active (clear ds) ≡ 0
unfolding count_active clear
count_active-clear [] = refl
count_active-clear (x ∷ ds) = omega (arith, count_active-clear ds)

find_device-clear : (addr : List ℕ) (ds : List EnoceanDevice) → find_device addr (clear ds) ≡ none
unfolding find_device find_first clear
find_device-clear addr [] = refl
find_device-clear addr (x ∷ ds) =
    unfold find_device find_first in ground (arith, find_device-clear addr ds)

-- After `init` the driver knows no device, whatever it knew before, and commissioning is disabled.
pub init-clear :
    (d : EnoceanDriver) (addr : List ℕ)
    → (device_count (init d).0 ≡ 0)
      × (find_device addr (init d).0.devices ≡ none)
      × ((init d).0.commissioning_enabled ≡ false)
      × ((init d).0.initialised ≡ true)
unfolding init
init-clear d addr = (count_active-clear d.devices, find_device-clear addr d.devices, refl, refl)

-- The advertisements of a history are bytes from which the manufacturer data can be extracted.
abbrev pub IsReadable : Call → Type 0
IsReadable (advertises addr addr_type adv_type rssi adv_data) =
    Total (extract_manufacturer_data adv_data)
IsReadable _ = Unit

call-Total :
    (crypto : Decrypt) (d : EnoceanDriver) (c : Call)
    → IsTable d.devices
    → IsReadable c
    → Total (call crypto d c)
unfolding call
call-Total crypto d enables t x = done-Total _
call-Total crypto d disables t x = done-Total _
call-Total crypto d (advertises addr addr_type adv_type rssi adv_data) t x =
    process_advertisement-Total crypto d addr addr_type adv_type rssi adv_data t x

run_calls-Total :
    (crypto : Decrypt) (cs : List Call) (d : EnoceanDriver)
    → IsTable d.devices
    → All IsCall cs
    → All IsReadable cs
    → (r : EnoceanDriver × List Event) × (run_calls crypto d cs ≡ done r) × IsTable r.0.devices
unfolding run_calls
run_calls-Total crypto [] d t b x = ((d, []), refl, t)
run_calls-Total crypto (c ∷ cs) d t b x =
    let (first, ran) = call-Total crypto d c t x.0 in
    let (rest, ran', t') =
      run_calls-Total crypto cs first.0 (call-keeps crypto c d t b.0 ran).0 b.1 x.1 in
    ((rest.0, first.1 ++ rest.1), rw (run_calls, ran, ran'), t')

-- From a driver that was constructed and initialised, every history of calls without a further `init`,
-- whose advertisements are bytes from which the manufacturer data can be extracted, runs to its end and
-- leaves a well-formed table.
pub run_calls-init :
    (crypto : Decrypt) (callbacks : EnoceanCallbacks) (cs : List Call)
    → All IsCall cs
    → All IsReadable cs
    → (r : EnoceanDriver × List Event) × (run_calls crypto (init (construct callbacks)).0 cs
        ≡ done r)
      × IsTable r.0.devices
run_calls-init crypto callbacks cs b x =
    run_calls-Total crypto cs (init (construct callbacks)).0
      (init-IsTable (construct callbacks) (construct-IsTable callbacks)) b x
