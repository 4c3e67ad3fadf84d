-- ===== src/Enocean/Driver/History.antt =====
-- Histories of the driver: the calls that an application and a scanner make, in any order.
use enocean_core.Base.{ℕ, List, [], ◌∷◌, ◌++◌, Run, done, ◌>>=◌}
use enocean_core.Base.Int.{ℤ}
use enocean_core.Crypto.{Decrypt}
use enocean_core.Enocean.Types.{Event}
use enocean_core.Enocean.Driver.{
  EnoceanDriver, enable_commissioning, disable_commissioning, process_advertisement,
}

-- Every call but `init`, which empties the table.
pub data Call : Type 0 where
  enables disables : Call
  -- Address, address type, advertisement type, signal strength, bytes.
  advertises : List ℕ → ℕ → ℕ → ℤ → List ℕ → Call

unfoldable pub call : Decrypt → EnoceanDriver → Call → Run (EnoceanDriver × List Event)
call crypto d enables = done (enable_commissioning d, [])
call crypto d disables = done (disable_commissioning d, [])
call crypto d (advertises addr addr_type adv_type rssi adv_data) =
    process_advertisement crypto d addr addr_type adv_type rssi adv_data

-- The state and the callbacks after all calls, if none reads out of bounds.
unfoldable pub run_calls : Decrypt → EnoceanDriver → List Call → Run (EnoceanDriver × List Event)
unfolding call
run_calls crypto d [] = done (d, [])
run_calls crypto d (c ∷ cs) = do
  first ← call crypto d c
  rest ← run_calls crypto first.0 cs
  done (rest.0, first.1 ++ rest.1)
