-- ===== src/Tests/Driver.antt =====
-- The driver on concrete inputs.
use enocean_core.Base.{
  ◌≤◌, ◌≡◌, refl, arith, inl, false, replicate, List, [], ◌∷◌, ◌++◌, All, done, Total,
}
use enocean_core.Base.Int.{pos, negsuc}
use enocean_core.Enocean.Types.{ButtonAction, DeviceType, EnoceanDevice, Event}
use enocean_core.Enocean.Driver.{
  EnoceanDriver, construct, init, process_advertisement, device_count, enable_commissioning,
  disable_commissioning,
}
use enocean_core.Enocean.Driver.Steps.{with_device, commissioned_device, Step}
use enocean_core.Enocean.Driver.Refine.{process_advertisement-Step}
use enocean_core.Enocean.Driver.Receive.{
  IsGenuine, process_advertisement-known, process_advertisement-switch,
  process_advertisement-sensor,
}
use enocean_core.Enocean.Driver.Reachable.{run_calls-init}
use enocean_core.Enocean.Advert.{extract_manufacturer_data}
use enocean_core.Enocean.Driver.Safe.{process_advertisement-Total}
use enocean_core.Enocean.Driver.Isolation.{
  Spares, process_advertisement-Spares, Counts, process_advertisement-Counts,
}
use enocean_core.Enocean.Driver.Commission.{
  Commissions, process_advertisement-Commissions, process_advertisement-Commissions_sensor,
}
use enocean_core.Enocean.Driver.History.{advertises, enables, disables, call, run_calls}
use enocean_core.Enocean.Driver.Persist.{Extends, run_calls-Extends}
use enocean_core.Enocean.Driver.Replay.{process_advertisement-replay}
use enocean_core.Enocean.Advert.Structures.{extract_manufacturer_data-encode}
use enocean_core.Enocean.Fields.{read_seq, detect_device_type}
use enocean_core.Enocean.Fields.Laws.{IsByte}
use enocean_core.Enocean.Sensor.Fields.{IsValid}
use enocean_core.Enocean.Sensor.Fields
use enocean_core.Enocean.Table.Invariant.{IsTable}
use enocean_core.Enocean.Telegram.{handle_switch, switch_telegram}
use enocean_core.Enocean.Telegram.Accept.{numbered}
use enocean_core.Tests.Data.{
  fresh_driver, fresh_driver-Accepts, sensor_fields, measured, sensor_tag, sensor_bytes,
  sum_backend, callbacks, key, switch_addr, sensor_addr, a_switch, a_sensor, driver, driver-IsTable,
  driver-Knows, structures, structures-IsWellFormed, advert, advert-Carries, switch_bytes,
}

abbrev pub after_switch : EnoceanDevice
after_switch = record a_switch { rssi = negsuc 59; seq_num = 2 }

abbrev pub pressed : List Event
pressed = Event.button after_switch ButtonAction.press 1 [] ∷ []

pub switch-IsGenuine : IsGenuine sum_backend a_switch 2 0 0 0 (3 ∷ []) (114 ∷ 0 ∷ 0 ∷ 0 ∷ [])
switch-IsGenuine =
    unfold enocean_core.Enocean.Fields.Laws.seq_bytes in
    record {
      bytes = (omega arith, (omega arith, (omega arith, (omega arith, tt))));
      newer = omega arith;
      tag_len = refl;
      tag_fits = refl;
    }

switch_runs :
    process_advertisement sum_backend
      (driver a_switch)
      switch_addr
      1
      3
      (negsuc 59)
      (advert switch_bytes)
    ≡ done (with_device (driver a_switch) 0 after_switch, pressed)
switch_runs =
    process_advertisement-switch sum_backend (driver a_switch) 0 a_switch (negsuc 59)
      (advert switch_bytes) 2 0 0 0 ButtonAction.press 1 [] (114 ∷ 0 ∷ 0 ∷ 0 ∷ [])
      (driver-Knows switch_addr DeviceType.switch refl) refl (omega arith) (inl refl)
      switch-IsGenuine (advert-Carries switch_bytes)

process_advertisement-switch_example :
    process_advertisement sum_backend
      (driver a_switch)
      switch_addr
      1
      3
      (negsuc 59)
      (advert switch_bytes)
    ≡ done (with_device (driver a_switch) 0 after_switch, pressed)
process_advertisement-switch_example =
    process_advertisement-switch sum_backend (driver a_switch) 0 a_switch (negsuc 59)
      (advert switch_bytes) 2 0 0 0 ButtonAction.press 1 [] (114 ∷ 0 ∷ 0 ∷ 0 ∷ [])
      (driver-Knows switch_addr DeviceType.switch refl) refl (omega arith) (inl refl)
      switch-IsGenuine (advert-Carries switch_bytes)

sensor-IsGenuine : IsGenuine sum_backend a_sensor 2 0 0 0 (Fields.encode sensor_fields) sensor_tag
sensor-IsGenuine =
    unfold enocean_core.Enocean.Fields.Laws.seq_bytes in
    record {
      bytes = (omega arith, (omega arith, (omega arith, (omega arith, tt))));
      newer = omega arith;
      tag_len = refl;
      tag_fits = refl;
    }

sensor_fields-IsValid : All IsValid sensor_fields
sensor_fields-IsValid = ground arith

process_advertisement-sensor_example :
    process_advertisement sum_backend
      (driver a_sensor)
      sensor_addr
      1
      3
      (negsuc 59)
      (advert sensor_bytes)
    ≡ done (
      with_device (driver a_sensor) 0 (record a_sensor { rssi = negsuc 59; seq_num = 2 }),
      Event.sensor (record a_sensor { rssi = negsuc 59; seq_num = 2 }) measured [] ∷ [],
    )
process_advertisement-sensor_example =
    process_advertisement-sensor sum_backend (driver a_sensor) 0 a_sensor (negsuc 59)
      (advert sensor_bytes) 2 0 0 0 sensor_fields sensor_tag
      (driver-Knows sensor_addr DeviceType.sensor refl) (λ h. cc) sensor_fields-IsValid
      (omega arith) sensor-IsGenuine (advert-Carries sensor_bytes)

a_driver-IsTable : IsTable (driver a_switch).devices
a_driver-IsTable = driver-IsTable a_switch refl refl (omega arith)

process_advertisement-Step_example :
    Step sum_backend
      (driver a_switch)
      switch_addr
      (negsuc 59)
      (advert switch_bytes)
      pressed
      (with_device (driver a_switch) 0 after_switch)
process_advertisement-Step_example =
    process_advertisement-Step sum_backend (driver a_switch) switch_addr (negsuc 59)
      a_driver-IsTable 1 3 (advert switch_bytes) switch_runs

process_advertisement-Total_example : Total (
    process_advertisement sum_backend
      (driver a_switch)
      switch_addr
      1
      3
      (negsuc 59)
      (advert switch_bytes))
process_advertisement-Total_example =
    process_advertisement-Total sum_backend (driver a_switch) switch_addr 1 3 (negsuc 59)
      (advert switch_bytes) a_driver-IsTable
      (
        switch_bytes,
        extract_manufacturer_data-encode (structures switch_bytes) []
            (structures-IsWellFormed switch_bytes) tt,
      )

process_advertisement-Spares_example :
    Spares switch_addr (driver a_switch) (with_device (driver a_switch) 0 after_switch)
process_advertisement-Spares_example =
    process_advertisement-Spares sum_backend (driver a_switch) switch_addr 1 3 (negsuc 59)
      (advert switch_bytes) a_driver-IsTable refl switch_runs

process_advertisement-Counts_example :
    Counts switch_addr (driver a_switch) (with_device (driver a_switch) 0 after_switch)
    × (device_count (with_device (driver a_switch) 0 after_switch) ≤ 8)
process_advertisement-Counts_example =
    process_advertisement-Counts sum_backend (driver a_switch) switch_addr 1 3 (negsuc 59)
      (advert switch_bytes) a_driver-IsTable switch_runs

process_advertisement-Commissions_example :
    Commissions fresh_driver switch_addr
      (commissioned_device switch_addr 1 (negsuc 59) 5 DeviceType.switch key)
      (process_advertisement sum_backend fresh_driver switch_addr 1 3
        (negsuc 59)
        (advert (numbered 5 0 0 0 (key ++ (0 ∷ 0 ∷ [])))))
process_advertisement-Commissions_example =
    process_advertisement-Commissions sum_backend fresh_driver switch_addr (negsuc 59)
      (advert (numbered 5 0 0 0 (key ++ (0 ∷ 0 ∷ [])))) 5 0 0 0 DeviceType.switch 1 (replicate 15 7)
      (0 ∷ 0 ∷ []) (fresh_driver-Accepts switch_addr refl)
      (omega arith, (omega arith, (omega arith, (omega arith, tt))))
      (unfold detect_device_type in refl) (λ h. cc) refl (omega arith) (inl (omega arith))
      (advert-Carries (numbered 5 0 0 0 (key ++ (0 ∷ 0 ∷ []))))

process_advertisement-Commissions_sensor_example :
    Commissions fresh_driver sensor_addr
      (commissioned_device sensor_addr 1 (negsuc 59) 5 DeviceType.sensor key)
      (process_advertisement sum_backend fresh_driver sensor_addr 1 3
        (negsuc 59)
        (advert (numbered 5 0 0 0 (0x3E ∷ (key ++ sensor_addr)))))
process_advertisement-Commissions_sensor_example =
    process_advertisement-Commissions_sensor sum_backend fresh_driver sensor_addr (negsuc 59)
      (advert (numbered 5 0 0 0 (0x3E ∷ (key ++ sensor_addr)))) 5 0 0 0 DeviceType.sensor key
      sensor_addr (fresh_driver-Accepts sensor_addr refl)
      (omega arith, (omega arith, (omega arith, (omega arith, tt))))
      (unfold detect_device_type in refl) refl refl
      (advert-Carries (numbered 5 0 0 0 (0x3E ∷ (key ++ sensor_addr))))

-- The driver after the telegram of the switch, and after commissioning was disabled.
abbrev closed : EnoceanDriver
closed = record (driver after_switch) { commissioning_enabled = false }

after_switch-IsTable : IsTable (driver after_switch).devices
after_switch-IsTable = driver-IsTable after_switch refl refl (omega arith)

closes : run_calls sum_backend (driver after_switch) (enables ∷ disables ∷ []) ≡ done (closed, [])
unfolding run_calls call enable_commissioning disable_commissioning
closes = refl

again_refused :
    process_advertisement sum_backend closed switch_addr 1 3 (negsuc 29) (advert switch_bytes)
    ≡ done (with_device closed 0 (record after_switch { rssi = negsuc 29 }), [])
again_refused =
    process_advertisement-known sum_backend closed 0 after_switch (negsuc 29) (advert switch_bytes)
      switch_bytes (record after_switch { rssi = negsuc 29 }, false, [])
      (record { ready = refl; table = after_switch-IsTable; at = refl; active = refl })
      (advert-Carries switch_bytes) (omega arith) refused
  where
    refused :
        handle_switch sum_backend callbacks (record after_switch { rssi = negsuc 29 }) switch_bytes
        ≡ done (record after_switch { rssi = negsuc 29 }, false, [])
    refused = unfold handle_switch switch_telegram read_seq in refl

advert-IsByte : All IsByte (advert switch_bytes)
advert-IsByte = ground arith

abbrev silence : List Event
silence = []

process_advertisement-replay_example : silence ≡ []
process_advertisement-replay_example =
    process_advertisement-replay sum_backend (driver a_switch) switch_addr 1 3 (negsuc 59)
      (advert switch_bytes) (enables ∷ disables ∷ []) (negsuc 29) a_driver-IsTable advert-IsByte
      (tt, (tt, tt)) switch_runs (λ h. cc) closes again_refused

run_calls-Extends_example :
    IsTable closed.devices × Extends (driver after_switch).devices closed.devices
run_calls-Extends_example =
    run_calls-Extends sum_backend (enables ∷ disables ∷ []) (driver after_switch)
      after_switch-IsTable (tt, (tt, tt)) closes

run_calls-init_example :
    (r : EnoceanDriver × List Event) × (run_calls sum_backend
        (init (construct callbacks)).0
        (enables ∷ advertises switch_addr 1 3 (pos 0) (advert switch_bytes) ∷ [])
      ≡ done r)
    × IsTable r.0.devices
run_calls-init_example =
    run_calls-init sum_backend callbacks
      (enables ∷ advertises switch_addr 1 3 (pos 0) (advert switch_bytes) ∷ [])
      (tt, (advert-IsByte, tt)) (tt, (extracts, tt))
  where
    extracts : Total (extract_manufacturer_data (advert switch_bytes))
    extracts = (
      switch_bytes,
      extract_manufacturer_data-encode (structures switch_bytes) []
          (structures-IsWellFormed switch_bytes) tt,
    )
