-- ===== src/PlatformName/CString.antt =====
-- What the C string in the name of a platform object is.
use enocean_core.Base.{
  ℕ, zero, suc, ◌-◌, ◌<◌, ◌≡◌, refl, arith, min, List, [], ◌∷◌, ◌++◌, length, take, drop, set,
  replicate, All, All-take, ◌∙◌, ◌==◌, if◌then◌else◌, length-append, length-set, length-take,
  length-drop, ap,
}
use enocean_core.PlatformName.{copy_name}

-- The characters before the first NUL.
pub c_str : List ℕ → List ℕ
c_str [] = []
c_str (c ∷ cs) = if c == 0 then [] else c ∷ c_str cs

c_str-set :
    (xs ys : List ℕ)
    → All (λ c. 0 < c) xs
    → 0 < length ys
    → c_str (set (xs ++ ys) (length xs) 0) ≡ xs
unfolding c_str
c_str-set [] [] h l = absurd (omega arith)
c_str-set [] (y ∷ ys) h l = refl
c_str-set (x ∷ xs) ys h l = ground (arith, c_str-set xs ys h.1 l, h.0)

take-eq : (n k : ℕ) (xs : List ℕ) → n ≡ min (length xs) k → take n xs ≡ take k xs
take-eq zero zero xs e = refl
take-eq zero (suc k) [] e = refl
take-eq zero (suc k) (x ∷ xs) e = absurd (omega arith)
take-eq (suc n) zero xs e = absurd (omega arith)
take-eq (suc n) (suc k) [] e = refl
take-eq (suc n) (suc k) (x ∷ xs) e = ap (◌∷◌ x) (take-eq n k xs (omega arith))

-- For a name without NUL, the array has 32 characters, and its C string is the name, cut after 31
-- characters.
pub copy_name-c_str :
    (name : List ℕ)
    → All (λ c. 0 < c) name
    → (length (copy_name name) ≡ 32) × (c_str (copy_name name) ≡ take 31 name)
unfolding copy_name
copy_name-c_str name h =
    let n = min (length name) 31 in
    let cut : length (take n name) ≡ n = omega (arith, length-take n name) in
    let zeros : List ℕ = drop n (replicate 32 0) in
    let l : length zeros ≡ 32 - n = length-drop n (replicate 32 0) in
    let c : c_str (set (take n name ++ zeros) (length (take n name)) 0) ≡ take n name =
      c_str-set (take n name) zeros (All-take (λ c. 0 < c) n name h) (omega (arith, l)) in
    (
      omega
          (arith, length-set (take n name ++ zeros) n 0, length-append (take n name) zeros, l, cut),
      (rw cut at c) ∙ take-eq n 31 name refl,
    )
