-- ===== src/Enocean/Driver/Replay.antt =====
-- Replay protection in process_advertisement (src/enocean/EnoceanDriver.ipp).
use enocean_core.Base.{
  ℕ, ◌≤◌, ◌≡◌, ◌≢◌, refl, ◌∙◌, sym, ap, subst, arith, List, [], All, get_elem?, get_elem?-set_self,
  lt-of-get_elem?, some, none, true, done, done-injective,
}
use enocean_core.Base.Int.{ℤ}
use enocean_core.Crypto.{Decrypt}
use enocean_core.Enocean.Types.{EnoceanDevice, Event}
use enocean_core.Enocean.Advert.{extract_manufacturer_data}
use enocean_core.Enocean.Fields.{read_seq}
use enocean_core.Enocean.Fields.Laws.{IsByte}
use enocean_core.Enocean.Table.Laws.{find_device-some, allocate_device-some}
use enocean_core.Enocean.Table.Invariant.{IsTable, find_device-addr, find_device-at}
use enocean_core.Enocean.Driver.Steps.{Step, ignore, refuse, accept, commission}
use enocean_core.Enocean.Driver.Refine.{process_advertisement-Step}
use enocean_core.Enocean.Driver.Invariant.{Step-IsTable}
use enocean_core.Enocean.Driver.History.{Call, run_calls}
use enocean_core.Enocean.Driver.Persist.{Extends, IsCall, run_calls-Extends}
use enocean_core.Enocean.Driver.{EnoceanDriver, process_advertisement}

-- The table holds the address with a sequence number that the advertisement does not exceed.
pub record Spent (addr adv_data : List ℕ) (ds : List EnoceanDevice) : Type 0 where
  slot : ℕ
  dev : EnoceanDevice
  p : List ℕ
  seq : ℕ
  at : get_elem? ds slot ≡ some dev
  active : dev.active ≡ true
  address : dev.ble_addr.addr ≡ addr
  extracted : extract_manufacturer_data adv_data ≡ done p
  reads : read_seq p ≡ done seq
  old : seq ≤ dev.seq_num

-- A step that calls a callback leaves its advertisement spent.
Step-Spent :
    {crypto : Decrypt} {d d' : EnoceanDriver} {addr : List ℕ} {rssi : ℤ} {adv_data : List ℕ}
    {events : List Event}
    → IsTable d.devices
    → Step crypto d addr rssi adv_data events d'
    → events ≢ []
    → Spent addr adv_data d'.devices
Step-Spent t (ignore _ none_called) some_called = absurd (some_called none_called)
Step-Spent t (refuse i dev found e none_called) some_called = absurd (some_called none_called)
Step-Spent {d = d} {addr = addr} {rssi = rssi} {adv_data = adv_data} t
      (accept i dev p seq len found x r n g e _ _) some_called =
    let at = find_device-some addr d.devices {i = i} {dev = dev} found in
    let new = record dev { rssi = rssi; seq_num = seq } in
    subst (λ q. Spent addr adv_data q.devices) (sym e)
      (record {
        slot = i;
        dev = new;
        p = p;
        seq = seq;
        at = get_elem?-set_self d.devices i new (lt-of-get_elem? d.devices i at.0);
        active = at.1;
        address = find_device-addr addr d.devices {i = i} t len found;
        extracted = x;
        reads = r;
        old = omega arith;
      })
Step-Spent {d = d} {addr = addr} {adv_data = adv_data} t
      (commission i free p seq marker type len on unknown slot x long r m dt e) some_called =
    let at = allocate_device-some d.devices {i = i} {dev = free} slot in
    subst (λ q. Spent addr adv_data q.devices) (sym e.0)
      (record {
        slot = i;
        dev = _;
        p = p;
        seq = seq;
        at = get_elem?-set_self d.devices i _ (lt-of-get_elem? d.devices i at.0);
        active = refl;
        address = refl;
        extracted = x;
        reads = r;
        old = omega arith;
      })

Spent-Extends :
    {addr adv_data : List ℕ} (ds es : List EnoceanDevice)
    → Extends ds es
    → Spent addr adv_data ds
    → Spent addr adv_data es
Spent-Extends ds es x s =
    let (b, eb, k) = x s.slot s.dev s.at s.active in
    record {
      slot = s.slot;
      dev = b;
      p = s.p;
      seq = s.seq;
      at = eb;
      active = k.active;
      address = ap (λ a. a.addr) k.address ∙ s.address;
      extracted = s.extracted;
      reads = s.reads;
      old = omega (arith, s.old, k.newer);
    }

-- A spent advertisement calls no callback.
Spent-refused :
    {crypto : Decrypt} {d d' : EnoceanDriver} {addr : List ℕ} {rssi : ℤ} {adv_data : List ℕ}
    {events : List Event}
    → IsTable d.devices
    → Spent addr adv_data d.devices
    → Step crypto d addr rssi adv_data events d'
    → events ≡ []
Spent-refused t s (ignore _ none_called) = none_called
Spent-refused t s (refuse i dev found e none_called) = none_called
Spent-refused {d = d} {addr = addr} t s (accept i dev p seq len found x r n g e _ _) =
    let here = find_device-at addr d.devices s.slot s.dev t s.at s.active s.address in
    let same_dev : dev ≡ s.dev = cc (found, here) in
    let same_p : p ≡ s.p = done-injective (sym x ∙ s.extracted) in
    let same_seq : seq ≡ s.seq = done-injective (sym r ∙ ap read_seq same_p ∙ s.reads) in
    absurd (omega (arith, ap (λ k. k.seq_num) same_dev, s.old))
Spent-refused {d = d} {addr = addr} t s
      (commission i free p seq marker type len on unknown slot x long r m dt e) =
    absurd (
      found_none
        (sym (find_device-at addr d.devices s.slot s.dev t s.at s.active s.address) ∙ unknown))
  where
    found_none : {A : Type 0} {a : A} → some a ≡ none → ⊥
    found_none q = cc

-- From a well-formed table: if an advertisement from an address led to a callback, then after any
-- further history without `init` the same advertisement from the same address leads to none,
-- whatever its signal strength and whatever the crypto backend says. All advertisements are made of
-- bytes, and the calls return.
pub process_advertisement-replay :
    (crypto : Decrypt) (d : EnoceanDriver) (addr : List ℕ) (addr_type adv_type : ℕ) (rssi : ℤ)
    (adv_data : List ℕ) {d1 : EnoceanDriver} {events : List Event} (cs : List Call)
    {d2 : EnoceanDriver} {between : List Event} (rssi' : ℤ) {d3 : EnoceanDriver}
    {again : List Event}
    → IsTable d.devices
    → All IsByte adv_data
    → All IsCall cs
    → process_advertisement crypto d addr addr_type adv_type rssi adv_data ≡ done (d1, events)
    → events ≢ []
    → run_calls crypto d1 cs ≡ done (d2, between)
    → process_advertisement crypto d2 addr addr_type adv_type rssi' adv_data ≡ done (d3, again)
    → again ≡ []
process_advertisement-replay crypto d addr addr_type adv_type rssi adv_data {d1} {events} cs {d2}
      {between} rssi' {d3} {again} t b bs first called ran second =
    let st = process_advertisement-Step crypto d addr rssi t addr_type adv_type adv_data first in
    let t1 = Step-IsTable t b st in
    let (t2, x) = run_calls-Extends crypto cs d1 t1 bs ran in
    Spent-refused t2 (Spent-Extends d1.devices d2.devices x (Step-Spent t st called))
      (process_advertisement-Step crypto d2 addr rssi' t2 addr_type adv_type adv_data second)
