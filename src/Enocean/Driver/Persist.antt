-- ===== src/Enocean/Driver/Persist.antt =====
-- What a device in the table of src/enocean/EnoceanDriver.ipp keeps from one call to the next.
use native.Mathlib.Nat.{le_trans, le_refl}
use enocean_core.Base.{
  ℕ, ◌≤◌, ◌≡◌, refl, ◌∙◌, sym, ap, subst, arith, true, List, [], ◌∷◌, ◌++◌, All, set, get_elem?,
  get_elem?-set_self, get_elem?-set_ne, lt-of-get_elem?, some, done, done-injective, bind-eq-done,
  ◌>>=◌,
}
use native.Mathlib.Decide.{ℕ_discrete}
use enocean_core.Base.Int.{ℤ}
use mathlib.Core.Bool.{false≢true}
use enocean_core.Crypto.{Decrypt}
use enocean_core.Enocean.Types.{EnoceanDevice, Event}
use enocean_core.Enocean.Fields.Laws.{IsByte}
use enocean_core.Enocean.Table.Laws.{find_device-some, allocate_device-some}
use enocean_core.Enocean.Table.Invariant.{IsTable}
use enocean_core.Enocean.Driver.Steps.{Step, ignore, refuse, accept, commission}
use enocean_core.Enocean.Driver.Refine.{process_advertisement-Step}
use enocean_core.Enocean.Driver.Invariant.{Step-IsTable}
use enocean_core.Enocean.Driver.History.{Call, enables, disables, advertises, call, run_calls}
use enocean_core.Enocean.Driver.{EnoceanDriver, enable_commissioning, disable_commissioning}

-- `b` is the device `a` some time later.
pub record Keeps (a b : EnoceanDevice) : Type 0 where
  pub address : b.ble_addr ≡ a.ble_addr
  pub key : b.key ≡ a.key
  pub type : b.type ≡ a.type
  pub active : b.active ≡ true
  pub newer : a.seq_num ≤ b.seq_num

-- Every device in use stays in its slot.
abbrev pub Extends : List EnoceanDevice → List EnoceanDevice → Type 0
Extends ds es =
    (i : ℕ) (a : EnoceanDevice)
    → get_elem? ds i ≡ some a
    → a.active ≡ true
    → (b : EnoceanDevice) × (get_elem? es i ≡ some b) × Keeps a b

Keeps-refl : (a : EnoceanDevice) → a.active ≡ true → Keeps a a
Keeps-refl a h = record { address = refl; key = refl; type = refl; active = h; newer = le_refl _ }

pub Keeps-trans : {a b c : EnoceanDevice} → Keeps a b → Keeps b c → Keeps a c
Keeps-trans k l = record {
  address = l.address ∙ k.address;
  key = l.key ∙ k.key;
  type = l.type ∙ k.type;
  active = l.active;
  newer = le_trans k.newer l.newer;
}

pub Extends-refl : (ds : List EnoceanDevice) → Extends ds ds
Extends-refl ds i a e h = (a, e, Keeps-refl a h)

pub Extends-trans : (ds es fs : List EnoceanDevice) → Extends ds es → Extends es fs → Extends ds fs
Extends-trans ds es fs x y i a e h =
    let (b, eb, k) = x i a e h in let (c, ec, l) = y i b eb k.active in (c, ec, Keeps-trans k l)

-- A write to slot `i` keeps every device in use, if it keeps that of slot `i`.
Extends-set :
    (ds : List EnoceanDevice) (i : ℕ) (old new : EnoceanDevice)
    → get_elem? ds i ≡ some old
    → (old.active ≡ true → Keeps old new)
    → Extends ds (set ds i new)
Extends-set ds i old new at keep j a e h = elim (ℕ_discrete i j) [
  | yes same ↦
      let same_device : old ≡ a = cc (same, at, e) in
      (
        new,
        ap (get_elem? (set ds i new)) (sym same)
            ∙ get_elem?-set_self ds i new (lt-of-get_elem? ds i at),
        subst (λ o. Keeps o new) same_device (keep (cc (same_device, h))),
      )
  | no other ↦ (a, get_elem?-set_ne ds i j new other ∙ e, Keeps-refl a h)
]

pub Step-Extends :
    {crypto : Decrypt} {d d' : EnoceanDriver} {addr : List ℕ} {rssi : ℤ} {adv_data : List ℕ}
    {events : List Event}
    → Step crypto d addr rssi adv_data events d'
    → Extends d.devices d'.devices
Step-Extends {d = d} (ignore e _) =
    subst (λ q. Extends d.devices q.devices) (sym e) (Extends-refl d.devices)
Step-Extends {d = d} {addr = addr} {rssi = rssi} (refuse i dev found e _) =
    let at = find_device-some addr d.devices {i = i} {dev = dev} found in
    subst (λ q. Extends d.devices q.devices) (sym e)
      (Extends-set d.devices i dev (record dev { rssi = rssi }) at.0
        (λ h. record { address = refl; key = refl; type = refl; active = h; newer = le_refl _ }))
Step-Extends {d = d} {addr = addr} {rssi = rssi} (accept i dev p seq len found x r n g e _ _) =
    let at = find_device-some addr d.devices {i = i} {dev = dev} found in
    subst (λ q. Extends d.devices q.devices) (sym e)
      (Extends-set d.devices i dev (record dev { rssi = rssi; seq_num = seq }) at.0
        (λ h. record { address = refl; key = refl; type = refl; active = h; newer = omega arith }))
Step-Extends {d = d} (commission i free p seq marker type len on unknown slot x long r m dt e) =
    let at = allocate_device-some d.devices {i = i} {dev = free} slot in
    subst (λ q. Extends d.devices q.devices) (sym e.0)
      (Extends-set d.devices i free _ at.0 (λ h. absurd (false≢true (sym at.1 ∙ h))))

-- The advertisements of a history are made of bytes.
abbrev pub IsCall : Call → Type 0
IsCall (advertises addr addr_type adv_type rssi adv_data) = All IsByte adv_data
IsCall _ = Unit

pub call-keeps :
    (crypto : Decrypt) (c : Call) (d : EnoceanDriver) {r : EnoceanDriver × List Event}
    → IsTable d.devices
    → IsCall c
    → call crypto d c ≡ done r
    → IsTable r.0.devices × Extends d.devices r.0.devices
unfolding call enable_commissioning disable_commissioning
call-keeps crypto enables d t b e =
    subst (λ r. IsTable r.0.devices × Extends d.devices r.0.devices) (done-injective e)
      (t, Extends-refl d.devices)
call-keeps crypto disables d t b e =
    subst (λ r. IsTable r.0.devices × Extends d.devices r.0.devices) (done-injective e)
      (t, Extends-refl d.devices)
call-keeps crypto (advertises addr addr_type adv_type rssi adv_data) d {r} t b e =
    let st =
      process_advertisement-Step crypto d addr rssi t addr_type adv_type adv_data {events = r.1}
        {d' = r.0} e in
    (Step-IsTable t b st, Step-Extends st)

-- Through any history without `init` that runs to its end, with advertisements made of bytes, a table
-- that is well formed stays well formed, and every device in use keeps its slot, its address, its key and
-- its type, with a sequence number that is no smaller after it.
pub run_calls-Extends :
    (crypto : Decrypt) (cs : List Call) (d : EnoceanDriver) {d' : EnoceanDriver}
    {events : List Event}
    → IsTable d.devices
    → All IsCall cs
    → run_calls crypto d cs ≡ done (d', events)
    → IsTable d'.devices × Extends d.devices d'.devices
unfolding run_calls
run_calls-Extends crypto [] d t b e =
    subst (λ r. IsTable r.0.devices × Extends d.devices r.0.devices) (done-injective e)
      (t, Extends-refl d.devices)
run_calls-Extends crypto (c ∷ cs) d {d'} {events} t b e =
    let (first, ran, e') =
      bind-eq-done (call crypto d c)
        (λ first. run_calls crypto first.0 cs >>= λ rest. done (rest.0, first.1 ++ rest.1)) e in
    let (rest, ran', e'') =
      bind-eq-done (run_calls crypto first.0 cs) (λ rest. done (rest.0, first.1 ++ rest.1)) e' in
    let now = call-keeps crypto c d {r = first} t b.0 ran in
    let later =
      run_calls-Extends crypto cs first.0 {d' = rest.0} {events = rest.1} now.0 b.1 ran' in
    subst (λ r. IsTable r.0.devices × Extends d.devices r.0.devices) (done-injective e'')
      (later.0, Extends-trans d.devices first.0.devices rest.0.devices now.1 later.1)
