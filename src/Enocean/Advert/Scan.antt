-- ===== src/Enocean/Advert/Scan.antt =====
-- The walk of extract_manufacturer_data without indices and without fuel: recursion on the bytes
-- that are left, with a count of those to skip.
use enocean_core.Base.{
  ℕ, zero, suc, ◌+◌, ◌-◌, ◌<◌, ◌≡◌, ◌≢◌, refl, ◌∙◌, sym, ap, arith, List, [], ◌∷◌,
  get_elem?-of_drop, drop-drop, length-drop, All, All-take, subst, done-injective, length, take,
  drop, Run, done, out_of_bounds, out_of_fuel, read, Bool-cases, inl, inr, ltb, ◌==◌, if◌then◌else◌,
  bit_or, lt→ltb, le→ltb,
}
use enocean_core.Base.Bits.{◌<<◌}
use enocean_core.Enocean.Types.{k_enocean_manufacturer_id}
use enocean_core.Enocean.Advert.{
  k_ad_type_manufacturer, manufacturer, structure, walk, extract_manufacturer_data,
}

-- From the byte behind the company identifier on.
abbrev pub enocean_payload : ℕ → List ℕ → Run (List ℕ)
enocean_payload len rest =
    if ltb len 3
    then done []
    else if ltb (length rest) (len - 3)
    then out_of_bounds
    else done (take (len - 3) rest)

-- From the byte behind the type on.
abbrev pub scan_manufacturer : ℕ → List ℕ → Run (List ℕ) → Run (List ℕ)
scan_manufacturer len (lo ∷ hi ∷ rest) next =
    if bit_or lo (hi << 8) == k_enocean_manufacturer_id then enocean_payload len rest else next
scan_manufacturer len _ next = done []

-- From the type byte on.
abbrev pub scan_structure : ℕ → List ℕ → Run (List ℕ) → Run (List ℕ)
scan_structure len [] next = out_of_bounds
scan_structure len (type ∷ rest) next =
    if type == k_ad_type_manufacturer then scan_manufacturer len rest next else next

unfoldable pub scan : ℕ → List ℕ → Run (List ℕ)
scan skip [] = done []
scan (suc skip) (b ∷ bs) = scan skip bs
scan zero (len ∷ bs) =
    if len == 0
    then done []
    else if ltb (suc (length bs)) len
    then done []
    else scan_structure len bs (scan len bs)

scan-skip : (n : ℕ) (xs : List ℕ) → scan n xs ≡ scan 0 (drop n xs)
unfolding scan
scan-skip zero xs = refl
scan-skip (suc n) [] = refl
scan-skip (suc n) (x ∷ xs) = scan-skip n xs

manufacturer-scan :
    (xs ys : List ℕ) (i len : ℕ) (next : Run (List ℕ))
    → drop (suc i) xs ≡ ys
    → i < length xs
    → manufacturer xs i len next ≡ scan_manufacturer len ys next
unfolding manufacturer
manufacturer-scan xs [] i len next d h =
    rw (lt→ltb (length xs - i) 3 (omega (arith, length-drop (suc i) xs, ap length d)), manufacturer)
manufacturer-scan xs (lo ∷ []) i len next d h =
    rw (lt→ltb (length xs - i) 3 (omega (arith, length-drop (suc i) xs, ap length d)), manufacturer)
manufacturer-scan xs (lo ∷ hi ∷ ys) i len next d h = ground (
  arith,
  length-drop (suc i) xs,
  ap length d,
  get_elem?-of_drop xs (suc i) 0 (i + 1) d (omega arith),
  get_elem?-of_drop xs (suc i) 1 (i + 2) d (omega arith),
  drop-drop xs (suc i) 2 (i + 3) (omega arith),
  ap (drop 2) d,
)

structure-scan :
    (xs ys : List ℕ) (i len : ℕ) (next : Run (List ℕ))
    → drop i xs ≡ ys
    → structure xs i len next ≡ scan_structure len ys next
unfolding structure
structure-scan xs [] i len next d = rw (get_elem?-of_drop xs i 0 i d (omega arith), structure, read)
structure-scan xs (type ∷ ys) i len next d =
    let inside : i < length xs = omega (arith, length-drop i xs, ap length d) in
    ground (
      arith,
      get_elem?-of_drop xs i 0 i d (omega arith),
      manufacturer-scan xs ys i len next (drop-drop xs i 1 (suc i) (omega arith) ∙ ap (drop 1) d)
          inside,
    )

-- The loop from index `i`, with fuel for the bytes that are left.
walk-scan :
    (fuel : ℕ) (xs ys : List ℕ) (i : ℕ)
    → drop i xs ≡ ys
    → length ys < fuel
    → walk fuel xs i ≡ scan 0 ys
unfolding walk scan
walk-scan zero xs ys i d h = absurd (omega arith)
walk-scan (suc fuel) xs [] i d h =
    rw (le→ltb i (length xs) (omega (arith, length-drop i xs, ap length d)), walk)
walk-scan (suc fuel) xs (len ∷ ys) i d h =
    let tail : drop (i + 1) xs ≡ ys = drop-drop xs i 1 (i + 1) (omega arith) ∙ ap (drop 1) d in
    let rest : walk fuel xs (i + 1 + len) ≡ scan 0 (drop len ys) =
      walk-scan fuel xs (drop len ys) (i + 1 + len)
        (drop-drop xs (i + 1) len (i + 1 + len) refl ∙ ap (drop len) tail)
        (omega (arith, length-drop len ys)) in
    ground (
      arith,
      get_elem?-of_drop xs i 0 i d (omega arith),
      length-drop i xs,
      ap length d,
      structure-scan xs ys (i + 1) len (walk fuel xs (i + 1 + len)) tail,
      rest ∙ sym (scan-skip len ys),
    )

-- The indexed loop computes the scan of the bytes.
pub extract_manufacturer_data-scan :
    (adv_data : List ℕ) → extract_manufacturer_data adv_data ≡ scan 0 adv_data
unfolding extract_manufacturer_data
extract_manufacturer_data-scan adv_data =
    walk-scan (suc (length adv_data)) adv_data adv_data 0 refl (omega arith)

scan-ne-out_of_fuel : (skip : ℕ) (xs : List ℕ) → scan skip xs ≢ out_of_fuel
unfolding scan
scan-ne-out_of_fuel skip [] e = cc
scan-ne-out_of_fuel (suc skip) (b ∷ bs) e = scan-ne-out_of_fuel skip bs e
scan-ne-out_of_fuel zero (len ∷ []) e = ground arith
scan-ne-out_of_fuel zero (len ∷ t ∷ []) e = ground (arith, scan-ne-out_of_fuel len (t ∷ []))
scan-ne-out_of_fuel zero (len ∷ t ∷ lo ∷ []) e =
    ground (arith, scan-ne-out_of_fuel len (t ∷ lo ∷ []))
scan-ne-out_of_fuel zero (len ∷ t ∷ lo ∷ hi ∷ rest) e =
    ground (arith, scan-ne-out_of_fuel len (t ∷ lo ∷ hi ∷ rest))

-- The loop ends: its fuel never runs out.
pub extract_manufacturer_data-ne-out_of_fuel :
    (adv_data : List ℕ) → extract_manufacturer_data adv_data ≢ out_of_fuel
extract_manufacturer_data-ne-out_of_fuel adv_data e =
    scan-ne-out_of_fuel 0 adv_data (sym (extract_manufacturer_data-scan adv_data) ∙ e)

module _ (P : ℕ → Type 0) where
  enocean_payload-All :
      (len : ℕ) (rest p : List ℕ) → All P rest → enocean_payload len rest ≡ done p → All P p
  enocean_payload-All len rest p h e = elim (Bool-cases (ltb len 3)) [
    | inl small ↦ subst (All P) (done-injective (rw (small, enocean_payload) at e)) tt
    | inr big ↦ elim (Bool-cases (ltb (length rest) (len - 3))) [
      | inl cut ↦ absurd (not_done (rw (big, cut, enocean_payload) at e))
      | inr fits ↦
          subst (All P) (done-injective (rw (big, fits, enocean_payload) at e))
            (All-take P (len - 3) rest h)
    ]
  ]
    where
      not_done : ◌≡◌ {A = Run (List ℕ)} out_of_bounds (done p) → ⊥
      not_done q = cc

  scan-All : (skip : ℕ) (xs p : List ℕ) → All P xs → scan skip xs ≡ done p → All P p
  unfolding scan
  scan-All skip [] p h e = subst (All P) (done-injective e) tt
  scan-All (suc skip) (b ∷ bs) p h e = scan-All skip bs p h.1 e
  scan-All zero (len ∷ []) p h e = ground arith
  scan-All zero (len ∷ t ∷ []) p h e = ground (arith, scan-All len (t ∷ []) p h.1)
  scan-All zero (len ∷ t ∷ lo ∷ []) p h e = ground (arith, scan-All len (t ∷ lo ∷ []) p h.1)
  scan-All zero (len ∷ t ∷ lo ∷ hi ∷ rest) p h e =
      ground
        (arith, scan-All len (t ∷ lo ∷ hi ∷ rest) p h.1, enocean_payload-All len rest p h.1.1.1.1)

  -- What is extracted holds only bytes of the advertisement.
  pub extract_manufacturer_data-All :
      (adv_data : List ℕ) {p : List ℕ}
      → All P adv_data
      → extract_manufacturer_data adv_data ≡ done p
      → All P p
  extract_manufacturer_data-All adv_data {p} h e =
      scan-All 0 adv_data p h (sym (extract_manufacturer_data-scan adv_data) ∙ e)
