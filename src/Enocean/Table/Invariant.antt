-- ===== src/Enocean/Table/Invariant.antt =====
-- A well-formed device table (src/enocean/EnoceanDriver.ipp): its size, the sizes of its arrays, and
-- that no two slots in use have the same address.
use enocean_core.Base.{
  ℕ, ◌^◌, ◌<◌, ◌≡◌, ◌≢◌, ◌∙◌, sym, ap, subst, true, inl, inr, List, length, length-set, set,
  get_elem?, get_elem?-set_cases, none, some,
}
use mathlib.Core.Bool.{false≢true}
use enocean_core.Enocean.Types.{EnoceanDevice}
use enocean_core.Enocean.Table.{has_addr, find_device}
use enocean_core.Enocean.Table.Laws.{equal_iff, find_device-some, find_first-none, find_first-total}

pub record Fits (dev : EnoceanDevice) : Type 0 where
  pub key_len : length dev.key ≡ 16
  pub addr_len : length dev.ble_addr.addr ≡ 6
  pub seq_num_lt : dev.seq_num < 2 ^ 32

pub record IsTable (ds : List EnoceanDevice) : Type 0 where
  pub size : length ds ≡ 8
  pub fits : (i : ℕ) (dev : EnoceanDevice) → get_elem? ds i ≡ some dev → Fits dev
  pub distinct :
      (i j : ℕ) (a b : EnoceanDevice)
      → get_elem? ds i ≡ some a
      → get_elem? ds j ≡ some b
      → a.active ≡ true
      → b.active ≡ true
      → a.ble_addr.addr ≡ b.ble_addr.addr
      → i ≡ j

-- No slot in use has the address.
abbrev pub IsFresh : List ℕ → List EnoceanDevice → Type 0
IsFresh addr ds =
    (i : ℕ) (dev : EnoceanDevice)
    → get_elem? ds i ≡ some dev
    → dev.active ≡ true
    → dev.ble_addr.addr ≢ addr

-- A write to slot `i` of a device whose address is that of no other slot in use.
IsTable-set :
    (ds : List EnoceanDevice) (i : ℕ) (new : EnoceanDevice)
    → IsTable ds
    → Fits new
    → ((j : ℕ) (b : EnoceanDevice)
        → get_elem? ds j ≡ some b
        → b.active ≡ true
        → new.active ≡ true
        → b.ble_addr.addr ≡ new.ble_addr.addr
        → i ≡ j)
    → IsTable (set ds i new)
IsTable-set ds i new t f alone = record {
  size = length-set ds i new ∙ t.size;
  fits = λ j dev e. elim (get_elem?-set_cases ds i j new e) [
    | inl (p, q) ↦ subst Fits (sym q) f
    | inr (p, q) ↦ t.fits j dev q
  ];
  distinct = λ j k a b ea eb ha hb same. elim (get_elem?-set_cases ds i j new ea) [
    | inl (p, q) ↦ elim (get_elem?-set_cases ds i k new eb) [
      | inl (p', q') ↦ sym p ∙ p'
      | inr (p', q') ↦
          sym p
          ∙ alone k b q' hb (ap (λ d. d.active) (sym q) ∙ ha)
              (sym same ∙ ap (λ d. d.ble_addr.addr) q)
    ]
    | inr (p, q) ↦ elim (get_elem?-set_cases ds i k new eb) [
      | inl (p', q') ↦
          sym (
            alone j a q ha (ap (λ d. d.active) (sym q') ∙ hb) (same ∙ ap (λ d. d.ble_addr.addr) q'))
          ∙ p'
      | inr (p', q') ↦ t.distinct j k a b q q' ha hb same
    ]
  ];
}

-- A device in use changed in its slot, its address kept.
pub IsTable-update :
    (ds : List EnoceanDevice) (i : ℕ) (old new : EnoceanDevice)
    → IsTable ds
    → get_elem? ds i ≡ some old
    → old.active ≡ true
    → new.ble_addr.addr ≡ old.ble_addr.addr
    → Fits new
    → IsTable (set ds i new)
IsTable-update ds i old new t e ha same f =
    IsTable-set ds i new t f λ j b eb hb _ eq. t.distinct i j old b e eb ha hb (sym (eq ∙ same))

-- A device with a fresh address.
pub IsTable-register :
    (ds : List EnoceanDevice) (i : ℕ) (new : EnoceanDevice)
    → IsTable ds
    → IsFresh new.ble_addr.addr ds
    → Fits new
    → IsTable (set ds i new)
IsTable-register ds i new t fresh f =
    IsTable-set ds i new t f λ j b eb hb _ eq. absurd (fresh j b eb hb eq)

pub find_device-addr :
    (addr : List ℕ) (ds : List EnoceanDevice) {i : ℕ} {dev : EnoceanDevice}
    → IsTable ds
    → length addr ≡ 6
    → find_device addr ds ≡ some (i, dev)
    → dev.ble_addr.addr ≡ addr
find_device-addr addr ds {i} {dev} t h e =
    let found = find_device-some addr ds {i = i} {dev = dev} e in
    sym ((equal_iff addr dev.ble_addr.addr (h ∙ sym (t.fits i dev found.0).addr_len)).0 found.2)

pub find_device-IsFresh :
    (addr : List ℕ) (ds : List EnoceanDevice)
    → IsTable ds
    → length addr ≡ 6
    → find_device addr ds ≡ none
    → IsFresh addr ds
unfolding find_device
find_device-IsFresh addr ds t h e i dev at on same =
    let hit =
      (equal_iff addr dev.ble_addr.addr (h ∙ sym (t.fits i dev at).addr_len)).1 (sym same) in
    false≢true (sym (find_first-none (has_addr addr) ds i e at) ∙ rw (on, hit))

-- The lookup of an address finds the slot in use that has it.
pub find_device-at :
    (addr : List ℕ) (ds : List EnoceanDevice) (i : ℕ) (dev : EnoceanDevice)
    → IsTable ds
    → get_elem? ds i ≡ some dev
    → dev.active ≡ true
    → dev.ble_addr.addr ≡ addr
    → find_device addr ds ≡ some (i, dev)
unfolding find_device
find_device-at addr ds i dev t at on same =
    let len : length addr ≡ 6 = ap length (sym same) ∙ (t.fits i dev at).addr_len in
    let hit =
      (equal_iff addr dev.ble_addr.addr (len ∙ sym (t.fits i dev at).addr_len)).1 (sym same) in
    let (k, y, found) = find_first-total (has_addr addr) ds i at (rw (on, hit)) in
    let there = find_device-some addr ds {i = k} {dev = y} found in
    let slot : k ≡ i =
      t.distinct k i y dev there.0 at there.1 on
        (find_device-addr addr ds t len found ∙ sym same) in
    cc (found, slot, there.0, at)
