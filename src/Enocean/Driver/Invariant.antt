-- ===== src/Enocean/Driver/Invariant.antt =====
-- The device table of src/enocean/EnoceanDriver.ipp and the invariant IsTable.
use enocean_core.Base.{
  ℕ, zero, suc, ◌+◌, ◌≤◌, ◌≡◌, refl, ◌∙◌, sym, ap, subst, arith, List, [], ◌∷◌, All, length,
  length-take, length-drop, take, drop, get_elem?, some,
}
use enocean_core.Base.Int.{ℤ}
use enocean_core.Crypto.{Decrypt}
use enocean_core.Enocean.Types.{EnoceanDevice, empty_device, EnoceanCallbacks, Event}
use enocean_core.Enocean.Advert.Scan.{extract_manufacturer_data-All}
use enocean_core.Enocean.Fields.Laws.{IsByte, read_seq-lt}
use enocean_core.Enocean.Table.Laws.{find_device-some}
use enocean_core.Enocean.Table.Invariant.{
  IsTable, Fits, IsTable-update, IsTable-register, find_device-IsFresh,
}
use enocean_core.Enocean.Driver.Steps.{Step, ignore, refuse, accept, commission, key_offset}
use enocean_core.Enocean.Driver.{EnoceanDriver, construct, init, clear}

empty-Fits : Fits empty_device
empty-Fits = record { key_len = refl; addr_len = refl; seq_num_lt = omega arith }

-- A table of devices not in use.
abbrev IsClear : List EnoceanDevice → Type 0
IsClear = All (λ dev. dev ≡ empty_device)

get-IsClear :
    (ds : List EnoceanDevice) (i : ℕ) {dev : EnoceanDevice}
    → IsClear ds
    → get_elem? ds i ≡ some dev
    → dev ≡ empty_device
get-IsClear [] i c e = cc
get-IsClear (x ∷ ds) zero c e = cc (e, c.0)
get-IsClear (x ∷ ds) (suc i) c e = get-IsClear ds i c.1 e

IsClear-IsTable : (ds : List EnoceanDevice) → length ds ≡ 8 → IsClear ds → IsTable ds
IsClear-IsTable ds h c = record {
  size = h;
  fits = λ i dev e. subst Fits (sym (get-IsClear ds i c e)) empty-Fits;
  distinct = λ i j a b ea eb ha hb same. cc (get-IsClear ds i c ea, ha);
}

length-clear : (ds : List EnoceanDevice) → length (clear ds) ≡ length ds
unfolding clear
length-clear [] = refl
length-clear (x ∷ ds) = ap suc (length-clear ds)

clear-IsClear : (ds : List EnoceanDevice) → IsClear (clear ds)
unfolding clear
clear-IsClear [] = tt
clear-IsClear (x ∷ ds) = (refl, clear-IsClear ds)

pub construct-IsTable : (callbacks : EnoceanCallbacks) → IsTable (construct callbacks).devices
unfolding construct
construct-IsTable callbacks =
    IsClear-IsTable _ refl (refl, (refl, (refl, (refl, (refl, (refl, (refl, (refl, tt))))))))

pub init-IsTable : (d : EnoceanDriver) → IsTable d.devices → IsTable (init d).0.devices
unfolding init
init-IsTable d t =
    IsClear-IsTable (clear d.devices) (length-clear d.devices ∙ t.size) (clear-IsClear d.devices)

-- The key is cut out of the telegram whole.
key_len :
    (p : List ℕ) (marker : ℕ) → 22 ≤ length p → length (take 16 (drop (key_offset p marker) p)) ≡ 16
key_len p marker h =
    let n = key_offset p marker in omega (arith, length-take 16 (drop n p), length-drop n p, enough)
  where
    enough : key_offset p marker + 16 ≤ length p
    enough = ground arith

-- An advertisement made of bytes leaves the table well formed, whatever else it holds.
pub Step-IsTable :
    {crypto : Decrypt} {d d' : EnoceanDriver} {addr : List ℕ} {rssi : ℤ} {adv_data : List ℕ}
    {events : List Event}
    → IsTable d.devices
    → All IsByte adv_data
    → Step crypto d addr rssi adv_data events d'
    → IsTable d'.devices
Step-IsTable {d = d} t b (ignore e _) = subst (λ q. IsTable q.devices) (sym e) t
Step-IsTable {d = d} {addr = addr} {rssi = rssi} t b (refuse i dev found e _) =
    let at = find_device-some addr d.devices {i = i} {dev = dev} found in
    let f = t.fits i dev at.0 in
    subst (λ q. IsTable q.devices) (sym e)
      (IsTable-update d.devices i dev (record dev { rssi = rssi }) t at.0 at.1 refl
        (record { key_len = f.key_len; addr_len = f.addr_len; seq_num_lt = f.seq_num_lt }))
Step-IsTable {d = d} {addr = addr} {rssi = rssi} {adv_data = adv_data} t b
      (accept i dev p seq len found x r n g e _ _) =
    let at = find_device-some addr d.devices {i = i} {dev = dev} found in
    let f = t.fits i dev at.0 in
    let bytes = extract_manufacturer_data-All IsByte adv_data b x in
    subst (λ q. IsTable q.devices) (sym e)
      (IsTable-update d.devices i dev (record dev { rssi = rssi; seq_num = seq }) t at.0 at.1 refl
        (record { key_len = f.key_len; addr_len = f.addr_len; seq_num_lt = read_seq-lt p bytes r }))
Step-IsTable {d = d} {addr = addr} {rssi = rssi} {adv_data = adv_data} t b
      (commission i free p seq marker type len on unknown slot x long r m dt e) =
    let bytes = extract_manufacturer_data-All IsByte adv_data b x in
    subst (λ q. IsTable q.devices) (sym e.0)
      (IsTable-register d.devices i _ t (find_device-IsFresh addr d.devices t len unknown) (record {
        key_len = key_len p marker long;
        addr_len = len;
        seq_num_lt = read_seq-lt p bytes r;
      }))
