-- ===== src/App/Print.antt =====
-- What the callback for a sensor (application/AppEntry.cpp) logs.
use enocean_core.Base.{
  ℕ, ◌+◌, ◌<◌, ◌≡◌, refl, arith, true, false, List, [], ◌∷◌, Option, some, none, done, ◌==◌,
  if_cases, ◌/◌, ◌%◌, ◌&&◌,
}
use enocean_core.Base.Int.{ℤ, pos, negsuc}
use enocean_core.Enocean.Types.{SensorData}
use enocean_core.Enocean.Sensor.{decode_sensor_data}
use enocean_core.Enocean.Sensor.Axes.{HasAxes, is_some, decode_sensor_data-HasAxes}
use enocean_core.App.{Line, temperature, temperature_line, accel_line, accel_lines, on_sensor}

accel_line-some :
    (x y z : Option ℤ)
    → (is_some x && is_some y && is_some z) ≡ true
    → (lines : List Line) × (accel_line x y z ≡ some lines)
accel_line-some (some x) (some y) (some z) h = (Line.accel x y z ∷ [], refl)
accel_line-some none y z h = cc
accel_line-some (some x) none z h = cc
accel_line-some (some x) (some y) none h = cc

accel_lines-some :
    (status : Option ℕ) (d : SensorData)
    → d.accel_status ≡ status
    → HasAxes d
    → (lines : List Line) × (accel_lines status d ≡ some lines)
unfolding accel_lines
accel_lines-some none d e h = ([], refl)
accel_lines-some (some status) d e h =
    let (lines, p) =
      accel_line-some d.accel_x_cg d.accel_y_cg d.accel_z_cg (ground (arith, e, h)) in
    if_cases (λ r. (lines : List Line) × (r ≡ some lines)) (status == 3)
      (λ _. (Line.accel_status status ∷ [], refl))
      (λ _. rw p (Line.accel_status status ∷ lines, refl))

-- Whatever bytes the values of a sensor are decoded from, the callback for them reads no value that is
-- missing: where there is a status of the acceleration there are all three axes.
pub on_sensor-decode_sensor_data :
    (xs : List ℕ) (d : SensorData)
    → decode_sensor_data xs ≡ done d
    → (lines : List Line) × (on_sensor d ≡ some lines)
unfolding on_sensor
on_sensor-decode_sensor_data xs d e =
    let (lines, p) = accel_lines-some d.accel_status d refl (decode_sensor_data-HasAxes xs e) in
    rw (p, on_sensor) (_, refl)

-- From -327.67 to 327.67 degrees, the line shows the sign, the degrees and the hundredths.
pub temperature_line-lt :
    (n : ℕ)
    → n < 32767
    → (temperature_line (pos n) ≡ temperature false (pos (n / 100)) (pos (n % 100)))
      × (temperature_line (negsuc n) ≡ temperature true (pos ((n + 1) / 100)) (pos ((n + 1) % 100)))
unfolding temperature_line
temperature_line-lt n h = (ground arith, ground arith)
