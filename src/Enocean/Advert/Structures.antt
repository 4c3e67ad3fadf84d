-- ===== src/Enocean/Advert/Structures.antt =====
-- What an advertisement is, independently of the walk: a sequence of AD structures, each a length
-- byte that counts the type byte and the payload behind it.
use enocean_core.Base.{
  ℕ, suc, ◌+◌, ◌-◌, ◌≤◌, ◌≡◌, refl, ◌∙◌, arith, ◌&&◌, List, [], ◌∷◌, ◌++◌, All, length,
  length-append, take-prefix, done, out_of_bounds, ◌==◌, if◌then◌else◌, bit_or, Option, none, some,
}
use mathlib.Core.List.{append_assoc}
use enocean_core.Base.Bits.{◌<<◌}
use enocean_core.Enocean.Types.{k_enocean_manufacturer_id}
use enocean_core.Enocean.Advert.{k_ad_type_manufacturer, extract_manufacturer_data}
use enocean_core.Enocean.Advert.Scan.{scan, extract_manufacturer_data-scan}

pub record AdStructure : Type 0 where
  pub type : ℕ
  pub payload : List ℕ

abbrev pub encode : List AdStructure → List ℕ
encode [] = []
encode (s ∷ ss) = suc (length s.payload) ∷ s.type ∷ (s.payload ++ encode ss)

-- The payload behind the company identifier of a structure of the EnOcean Alliance.
abbrev pub enocean_bytes : AdStructure → List ℕ → Option (List ℕ)
enocean_bytes s (lo ∷ hi ∷ rest) =
    if s.type == k_ad_type_manufacturer && bit_or lo (hi << 8) == k_enocean_manufacturer_id
    then some rest
    else none
enocean_bytes s _ = none

abbrev pub first_enocean : List AdStructure → List ℕ
first_enocean [] = []
first_enocean (s ∷ ss) = elim (enocean_bytes s s.payload) [
  | some rest ↦ rest
  | none ↦ first_enocean ss
]

-- A manufacturer-specific structure holds a company identifier.
abbrev pub IsWellFormed : AdStructure → Type 0
IsWellFormed s = s.type ≡ k_ad_type_manufacturer → 2 ≤ length s.payload

-- The bytes behind the last structure: none, or a zero length byte and whatever follows.
abbrev pub EndsEarly : List ℕ → Type 0
EndsEarly [] = Unit
EndsEarly (b ∷ _) = b ≡ 0

scan-append : (xs ys : List ℕ) → scan (length xs) (xs ++ ys) ≡ scan 0 ys
unfolding scan
scan-append [] ys = refl
scan-append (x ∷ xs) ys = scan-append xs ys

-- One structure in front of any bytes.
scan_one :
    (type : ℕ) (p rest : List ℕ)
    → (type ≡ k_ad_type_manufacturer → 2 ≤ length p)
    → scan 0 (suc (length p) ∷ type ∷ (p ++ rest))
      ≡ elim (enocean_bytes (record { type = type; payload = p }) p) [
        | some found ↦ done found
        | none ↦ scan 0 rest
      ]
unfolding scan
scan_one type [] rest w = ground (arith, length-append {0} [] rest)
scan_one type (lo ∷ []) rest w = ground arith
scan_one type (lo ∷ hi ∷ p) rest w = ground (
  arith,
  scan-append (type ∷ lo ∷ hi ∷ p) rest,
  length-append p rest,
  take-prefix p rest (suc (suc (suc (length p))) - 3) (omega arith),
)

scan-encode :
    (ss : List AdStructure) (rest : List ℕ)
    → All IsWellFormed ss
    → EndsEarly rest
    → scan 0 (encode ss ++ rest) ≡ done (first_enocean ss)
scan-encode [] [] w e = unfold scan in refl
scan-encode [] (b ∷ rest) w e = unfold scan in ground arith
scan-encode (s ∷ ss) rest w e = ground (
  arith,
  append_assoc s.payload (encode ss) rest,
  scan_one s.type s.payload (encode ss ++ rest) w.0,
  scan-encode ss rest w.1 e,
)

-- On an advertisement made of AD structures in which every manufacturer-specific one holds a
-- company identifier, optionally followed by a zero byte and anything, the extraction reads only
-- inside the buffer and returns what follows the company identifier in the first
-- manufacturer-specific structure of the EnOcean Alliance, or nothing where there is none.
pub extract_manufacturer_data-encode :
    (ss : List AdStructure) (rest : List ℕ)
    → All IsWellFormed ss
    → EndsEarly rest
    → extract_manufacturer_data (encode ss ++ rest) ≡ done (first_enocean ss)
extract_manufacturer_data-encode ss rest w e =
    extract_manufacturer_data-scan (encode ss ++ rest) ∙ scan-encode ss rest w e

-- None of the structures is one of the EnOcean Alliance.
abbrev pub IsForeign : AdStructure → Type 0
IsForeign s = IsWellFormed s × (enocean_bytes s s.payload ≡ none)

scan_foreign :
    (ss : List AdStructure) (rest : List ℕ)
    → All IsForeign ss
    → scan 0 (encode ss ++ rest) ≡ scan 0 rest
scan_foreign [] rest w = refl
scan_foreign (s ∷ ss) rest w = ground (
  arith,
  append_assoc s.payload (encode ss) rest,
  scan_one s.type s.payload (encode ss ++ rest) w.0.0,
  scan_foreign ss rest w.1,
)

-- Behind any structures of other vendors, an EnOcean structure that lost its last byte is read
-- beyond the end of the buffer: the length byte counts one byte more than there is, which the
-- bound of the loop lets through.
pub extract_manufacturer_data-truncated :
    (ss : List AdStructure) (body : List ℕ)
    → All IsForeign ss
    → extract_manufacturer_data (encode ss ++ ((length body + 4) ∷ 0xFF ∷ 0xDA ∷ 0x03 ∷ body))
      ≡ out_of_bounds
extract_manufacturer_data-truncated ss body w =
    extract_manufacturer_data-scan _ ∙ scan_foreign ss _ w ∙ unfold scan in ground arith
