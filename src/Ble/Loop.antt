-- ===== src/Ble/Loop.antt =====
-- platform/posix_core/ble/Ble.cpp: scan_loop, which the scan thread runs, and what it makes of a
-- sequence of events.
use enocean_core.Base.{
  ℕ, ◌≤◌, ◌<◌, ◌≡◌, refl, arith, Bool, true, false, not, ◌&&◌, List, [], ◌∷◌, ◌++◌, map, All,
  length, Option, some, none, ◌⊎◌, inl, inr, Run, done, ◌>>=◌, ◌==◌, lt→ltb, if◌then◌else◌,
}
use enocean_core.Ble.{Advertisement, scan_round}
use enocean_core.Ble.RoundTrip.{Report, encode, deliver, IsReport, scan_round-encode}

-- A turn of the loop: `running_` at its head, the bytes that `read` put into the buffer (none where it
-- returned 0 or less), and `running_` when it is loaded again, which happens behind such a read.
pub record Turn : Type 0 where
  pub running : Bool
  pub bytes : Option (List ℕ)
  pub still_running : Bool

unfoldable pub after_read :
    Bool → Option (List ℕ) → Bool → Run (List Advertisement) → Run (List Advertisement)
after_read has_callback none still_running rest = if not still_running then done [] else rest
after_read has_callback (some buf) still_running rest = do
  now ← scan_round has_callback buf
  later ← rest
  done (now ++ later)

-- The loop, which goes on as long as there are turns.
unfoldable pub scan_loop : Bool → List Turn → Run (List Advertisement)
unfolding after_read
scan_loop has_callback [] = done []
scan_loop has_callback (t ∷ ts) =
    let rest = scan_loop has_callback ts in
    if not t.running then done [] else after_read has_callback t.bytes t.still_running rest

-- What a turn meets while the scanner runs: an advertising report event, with its parameter length and
-- the bytes behind the reports; bytes too few for one; bytes with another header; or a failed read.
pub data Heard : Type 0 where
  event : List Report → ℕ → List ℕ → Heard
  short : List ℕ → Heard
  foreign : (packet code parameter_len subevent : ℕ) → List ℕ → Heard
  nothing : Heard

abbrev pub IsHeard : Heard → Type 0
IsHeard (event rs parameter_len rest) =
    All IsReport rs × (1 ≤ length rs) × (length rs ≤ 15) × (11 ≤ length (encode rs ++ rest))
IsHeard (short buf) = length buf < 16
IsHeard (foreign packet code parameter_len subevent rest) =
    (packet == 0x04 && code == 0x3E && subevent == 0x02) ≡ false
IsHeard nothing = Unit {0}

abbrev pub bytes_of : Heard → Option (List ℕ)
bytes_of (event rs parameter_len rest) =
    some (0x04 ∷ 0x3E ∷ parameter_len ∷ 0x02 ∷ length rs ∷ (encode rs ++ rest))
bytes_of (short buf) = some buf
bytes_of (foreign packet code parameter_len subevent rest) =
    some (packet ∷ code ∷ parameter_len ∷ subevent ∷ rest)
bytes_of nothing = none

abbrev pub turn_of : Heard → Turn
turn_of h = record { running = true; bytes = bytes_of h; still_running = true }

abbrev pub delivered : List Heard → List Advertisement
delivered [] = []
delivered (event rs parameter_len rest ∷ hs) = map deliver rs ++ delivered hs
delivered (_ ∷ hs) = delivered hs

-- A turn in which the loop sees that the scanner does not run.
abbrev pub IsLast : Turn → Type 0
IsLast t = (t.running ≡ false) ⊎ ((t.bytes ≡ none) × (t.still_running ≡ false))

scan_round-short : (buf : List ℕ) → length buf < 16 → scan_round true buf ≡ done []
unfolding scan_round
scan_round-short buf h = rw (lt→ltb (length buf) 16 h)

scan_round-foreign :
    (packet code parameter_len subevent : ℕ) (rest : List ℕ)
    → (packet == 0x04 && code == 0x3E && subevent == 0x02) ≡ false
    → scan_round true (packet ∷ code ∷ parameter_len ∷ subevent ∷ rest) ≡ done []
unfolding scan_round
scan_round-foreign packet code parameter_len subevent [] h = refl
scan_round-foreign packet code parameter_len subevent (n ∷ rest) h = ground (arith, h)

scan_loop-last :
    (last : Turn) (later : List Turn) → IsLast last → scan_loop true (last ∷ later) ≡ done []
unfolding scan_loop after_read
scan_loop-last last later (inl stopped) = rw stopped
scan_loop-last last later (inr (failed, stopped)) = ground (arith, failed, stopped)

-- As long as the scanner runs, the callback is called once for each report of each event that is read,
-- in order, whatever else comes between the events: failed reads, short reads, and bytes with another
-- header. Once the loop sees that the scanner does not run, it calls the callback no more. The events
-- have one to fifteen reports, which take with the bytes behind them eleven bytes or more.
pub scan_loop-turn_of :
    (hs : List Heard) (last : Turn) (later : List Turn)
    → All IsHeard hs
    → IsLast last
    → scan_loop true (map turn_of hs ++ (last ∷ later)) ≡ done (delivered hs)
unfolding scan_loop after_read
scan_loop-turn_of [] last later v l = scan_loop-last last later l
scan_loop-turn_of (event rs parameter_len rest ∷ hs) last later v l = rw (
  scan_round-encode rs parameter_len rest v.0.0 v.0.1 v.0.2 v.0.3,
  scan_loop-turn_of hs last later v.1 l,
)
scan_loop-turn_of (short buf ∷ hs) last later v l =
    rw (scan_round-short buf v.0, scan_loop-turn_of hs last later v.1 l)
scan_loop-turn_of (foreign packet code parameter_len subevent rest ∷ hs) last later v l = rw (
  scan_round-foreign packet code parameter_len subevent rest v.0,
  scan_loop-turn_of hs last later v.1 l,
)
scan_loop-turn_of (nothing ∷ hs) last later v l = scan_loop-turn_of hs last later v.1 l
