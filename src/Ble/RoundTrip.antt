-- ===== src/Ble/RoundTrip.antt =====
-- An LE advertising report event, as a controller writes it, and what a round of the scan loop
-- (platform/posix_core/ble/Ble.cpp) makes of it.
use enocean_core.Base.{
  ℕ, suc, ◌+◌, ◌-◌, ◌≤◌, ◌≡◌, refl, ◌∙◌, sym, ap, arith, true, false, List, [], ◌∷◌, ◌++◌, map, All,
  length, length-append, length-drop, drop, drop-drop, take-prefix, drop-prefix, get_elem?,
  get_elem?-of_drop, some, done, read, le→ltb, lt→ltb, ◌==◌,
}
use mathlib.Core.List.{append_assoc}
use enocean_core.Base.Int.{int8}
use enocean_core.Ble.{Advertisement, reports, dispatch_adv_report, scan_round}

-- A report on the air; the signal strength is a byte.
pub record Report : Type 0 where
  pub event_type : ℕ
  pub addr_type : ℕ
  pub addr : List ℕ
  pub ad : List ℕ
  pub rssi_byte : ℕ

abbrev pub encode_report : Report → List ℕ
encode_report r =
    r.event_type ∷ r.addr_type ∷ (r.addr ++ (length r.ad ∷ (r.ad ++ (r.rssi_byte ∷ []))))

abbrev pub encode : List Report → List ℕ
encode [] = []
encode (r ∷ rs) = encode_report r ++ encode rs

abbrev pub deliver : Report → Advertisement
deliver r = record {
  addr = r.addr;
  addr_type = r.addr_type;
  adv_type = r.event_type;
  rssi = int8 r.rssi_byte;
  adv_data = r.ad;
}

abbrev pub IsReport : Report → Type 0
IsReport r = length r.addr ≡ 6

-- The bytes of a report whose address is known byte by byte.
abbrev laid_out : ℕ → ℕ → ℕ → ℕ → ℕ → ℕ → ℕ → ℕ → List ℕ → ℕ → List ℕ → List ℕ
laid_out t u a0 a1 a2 a3 a4 a5 ad rssi rest =
    t ∷ u ∷ a0 ∷ a1 ∷ a2 ∷ a3 ∷ a4 ∷ a5 ∷ length ad ∷ (ad ++ (rssi ∷ rest))

reports-laid_out :
    (t u a0 a1 a2 a3 a4 a5 : ℕ) (ad : List ℕ) (rssi : ℕ) (rest : List ℕ) (n : ℕ) (buf : List ℕ)
    (ptr : ℕ) {others : List Advertisement}
    → drop ptr buf ≡ laid_out t u a0 a1 a2 a3 a4 a5 ad rssi rest
    → reports n buf (ptr + 9 + length ad + 1) ≡ done others
    → reports (suc n) buf ptr
      ≡ done (
          record {
            addr = a0 ∷ a1 ∷ a2 ∷ a3 ∷ a4 ∷ a5 ∷ [];
            addr_type = u;
            adv_type = t;
            rssi = int8 rssi;
            adv_data = ad;
          }
          ∷ others)
unfolding reports
reports-laid_out t u a0 a1 a2 a3 a4 a5 ad rssi rest n buf ptr e next =
    let len : length buf - ptr ≡ 10 + length ad + length rest =
      sym (length-drop ptr buf) ∙ ap length e ∙ omega (arith, length-append ad (rssi ∷ rest)) in
    let here : get_elem? buf ptr ≡ some t = get_elem?-of_drop buf ptr 0 ptr e (omega arith) in
    let kind : get_elem? buf (ptr + 1) ≡ some u = get_elem?-of_drop buf ptr 1 (ptr + 1) e refl in
    let size : get_elem? buf (ptr + 8) ≡ some (length ad) =
      get_elem?-of_drop buf ptr 8 (ptr + 8) e refl in
    let behind : drop (ptr + 9) buf ≡ ad ++ (rssi ∷ rest) =
      drop-drop buf ptr 9 (ptr + 9) refl ∙ ap (drop 9) e in
    let strength : get_elem? buf (ptr + 9 + length ad) ≡ some rssi =
      get_elem?-of_drop buf (ptr + 9) (length ad) (ptr + 9 + length ad) behind refl ∙ at_end ad in
    let from : drop (ptr + 2) buf
        ≡ a0 ∷ a1 ∷ a2 ∷ a3 ∷ a4 ∷ a5 ∷ length ad ∷ (ad ++ (rssi ∷ rest)) =
      drop-drop buf ptr 2 (ptr + 2) refl ∙ ap (drop 2) e in
    rw (
      le→ltb (length buf) (ptr + 10) (omega arith),
      here,
      kind,
      size,
      read,
      le→ltb (length buf) (ptr + 10 + length ad) (omega arith),
      strength,
      le→ltb (length buf) (ptr + 2 + 6) (omega arith),
      from,
      le→ltb (length buf) (ptr + 9 + length ad) (omega arith),
      behind,
      take-prefix ad (rssi ∷ rest) (length ad) refl,
      next,
    )
  where
    at_end : (xs : List ℕ) → get_elem? (xs ++ (rssi ∷ rest)) (length xs) ≡ some rssi
    at_end [] = refl
    at_end (x ∷ xs) = at_end xs

-- The report given by its parts, so that the address can be taken apart.
reports-parts :
    (t u : ℕ) (addr ad : List ℕ) (s : ℕ) (more : List ℕ) (n : ℕ) (buf : List ℕ) (ptr : ℕ)
    {others : List Advertisement}
    → (let r : Report = record {
      event_type = t;
      addr_type = u;
      addr = addr;
      ad = ad;
      rssi_byte = s;
    } in
        IsReport r
        → drop ptr buf ≡ encode_report r ++ more
        → reports n buf (ptr + length (encode_report r)) ≡ done others
        → reports (suc n) buf ptr ≡ done (deliver r ∷ others))
reports-parts t u (a0 ∷ a1 ∷ a2 ∷ a3 ∷ a4 ∷ a5 ∷ []) ad s more n buf ptr {others} h e next =
    let size : 10 + length ad
        ≡ length (t ∷ u ∷ a0 ∷ a1 ∷ a2 ∷ a3 ∷ a4 ∷ a5 ∷ length ad ∷ (ad ++ (s ∷ []))) =
      omega (arith, length-append ad (s ∷ [])) in
    let at : ptr + 9 + length ad + 1
        ≡ ptr + length (t ∷ u ∷ a0 ∷ a1 ∷ a2 ∷ a3 ∷ a4 ∷ a5 ∷ length ad ∷ (ad ++ (s ∷ []))) =
      omega (arith, size) in
    reports-laid_out t u a0 a1 a2 a3 a4 a5 ad s more n buf ptr {others = others}
      (e
        ∙ ap (λ l. t ∷ u ∷ a0 ∷ a1 ∷ a2 ∷ a3 ∷ a4 ∷ a5 ∷ length ad ∷ l)
            (append_assoc ad (s ∷ []) more))
      (ap (reports n buf) at ∙ next)
reports-parts t u _ ad s more n buf ptr h e next = absurd (omega (arith, h))

reports-encode :
    (rs : List Report) (rest buf : List ℕ) (ptr : ℕ)
    → All IsReport rs
    → drop ptr buf ≡ encode rs ++ rest
    → reports (length rs) buf ptr ≡ done (map deliver rs)
reports-encode [] rest buf ptr v e = unfold reports in refl
reports-encode (r ∷ rs) rest buf ptr v e =
    let e' : drop ptr buf ≡ encode_report r ++ (encode rs ++ rest) =
      e ∙ append_assoc (encode_report r) (encode rs) rest in
    reports-parts r.event_type r.addr_type r.addr r.ad r.rssi_byte (encode rs ++ rest) (length rs)
      buf ptr v.0 e'
      (reports-encode rs rest buf (ptr + length (encode_report r)) v.1 (
        drop-drop buf ptr (length (encode_report r)) (ptr + length (encode_report r)) refl
        ∙ ap (drop (length (encode_report r))) e'
        ∙ drop-prefix (encode_report r) (encode rs ++ rest) (length (encode_report r)) refl))

-- An event with one to fifteen reports, whose reports and the bytes behind them are eleven bytes or
-- more, leads to one call of the callback for each report, in order, with the address, the types, the
-- signal strength and the data that the report was written with.
pub scan_round-encode :
    (rs : List Report) (parameter_len : ℕ) (rest : List ℕ)
    → All IsReport rs
    → 1 ≤ length rs
    → length rs ≤ 15
    → 11 ≤ length (encode rs ++ rest)
    → scan_round true (0x04 ∷ 0x3E ∷ parameter_len ∷ 0x02 ∷ length rs ∷ (encode rs ++ rest))
      ≡ done (map deliver rs)
unfolding scan_round dispatch_adv_report
scan_round-encode rs parameter_len rest v some_report few long =
    let bytes = encode rs ++ rest in
    let event = 0x04 ∷ 0x3E ∷ parameter_len ∷ 0x02 ∷ length rs ∷ bytes in
    let enough = le→ltb (length event) 16 (omega arith) in
    let counted : (length rs == 0) ≡ false = ground arith in
    rw (enough, counted, le→ltb 15 (length rs) few) (reports-encode rs rest bytes 0 v refl)

-- An event with a single report without data is dropped, though it is complete.
pub scan_round-empty :
    (r : Report) (parameter_len : ℕ)
    → IsReport r
    → length r.ad ≡ 0
    → scan_round true (0x04 ∷ 0x3E ∷ parameter_len ∷ 0x02 ∷ 1 ∷ encode_report r) ≡ done []
unfolding scan_round
scan_round-empty r parameter_len h none =
    let event = 0x04 ∷ 0x3E ∷ parameter_len ∷ 0x02 ∷ 1 ∷ encode_report r in
    rw (lt→ltb (length event) 16 (omega (arith, size)))
  where
    size : length (encode_report r) ≡ 10
    size = omega (
      arith,
      length-append r.addr (length r.ad ∷ (r.ad ++ (r.rssi_byte ∷ []))),
      length-append r.ad (r.rssi_byte ∷ []),
      h,
      none,
    )
