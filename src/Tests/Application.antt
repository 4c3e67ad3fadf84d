-- ===== src/Tests/Application.antt =====
-- The way from the bytes of the controller to the callbacks of the application, and what they print, on
-- concrete inputs.
use enocean_core.Base.{◌≡◌, refl, arith, inl, List, [], ◌∷◌, map, some, done}
use enocean_core.Base.Int.{negsuc}
use enocean_core.Enocean.Types.{ButtonAction, DeviceType, SensorData, empty_sensor_data}
use enocean_core.Enocean.Sensor.{decode_sensor_data}
use enocean_core.Enocean.Driver.Steps.{with_device}
use enocean_core.Enocean.Driver.History.{run_calls}
use enocean_core.Ble.RoundTrip.{Report}
use enocean_core.App.{Line, on_sensor, receive}
use enocean_core.App.Print.{on_sensor-decode_sensor_data}
use enocean_core.App.Receive.{
  call_for, with_context, map_run, event, report_from, receive-event, receive-switch,
}
use enocean_core.Tests.Data.{
  sum_backend, switch_addr, sensor_addr, a_switch, driver, driver-Knows, advert, advert-Carries,
  switch_bytes,
}
use enocean_core.Tests.Driver.{after_switch, pressed, switch-IsGenuine}

-- The switch's telegram, then an empty report of another sender.
abbrev two_reports : List Report
two_reports =
    report_from a_switch (advert switch_bytes) 196
    ∷ record { event_type = 0; addr_type = 0; addr = sensor_addr; ad = []; rssi_byte = 200 }
    ∷ []

receive-event_example :
    receive sum_backend (driver a_switch) (event 60 two_reports [])
    ≡ map_run with_context (run_calls sum_backend (driver a_switch) (map call_for two_reports))
receive-event_example =
    receive-event sum_backend (driver a_switch) two_reports 60 [] (refl, (refl, tt)) (omega arith)
      (omega arith) (omega arith)

receive-switch_example :
    receive sum_backend
      (driver a_switch)
      (event 40 (report_from a_switch (advert switch_bytes) 196 ∷ []) [])
    ≡ done (some (with_device (driver a_switch) 0 after_switch), pressed)
receive-switch_example =
    receive-switch sum_backend (driver a_switch) 0 a_switch 40 196 (advert switch_bytes) 2 0 0 0
      ButtonAction.press 1 [] (114 ∷ 0 ∷ 0 ∷ 0 ∷ [])
      (driver-Knows switch_addr DeviceType.switch refl) refl (omega arith) (inl refl)
      switch-IsGenuine (advert-Carries switch_bytes) refl (omega arith)

-- An acceleration of -5.12 g on every axis, with status 0.
abbrev at_rest : SensorData
at_rest = record empty_sensor_data {
  accel_status = some 0;
  accel_x_cg = some (negsuc 511);
  accel_y_cg = some (negsuc 511);
  accel_z_cg = some (negsuc 511);
}

on_sensor-decode_sensor_data_example : (lines : List Line) × (on_sensor at_rest ≡ some lines)
on_sensor-decode_sensor_data_example =
    on_sensor-decode_sensor_data (0x8A ∷ 0 ∷ 0 ∷ 0 ∷ 0 ∷ []) at_rest
      (unfold decode_sensor_data in refl)
