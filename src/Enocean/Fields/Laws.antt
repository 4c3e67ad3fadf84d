-- ===== src/Enocean/Fields/Laws.antt =====
-- Laws of read_seq and build_nonce (src/enocean/EnoceanDriver.ipp).
use enocean_core.Base.{
  done-injective, subst, ℕ, ◌+◌, ◌*◌, ◌^◌, ◌/◌, ◌%◌, ◌≤◌, ◌<◌, ◌≡◌, refl, ◌∙◌, sym, ap, arith, List,
  [], ◌∷◌, ◌++◌, length, All, done, ◌>>=◌, bit_or,
}
use enocean_core.Base.Bits.{bit_or-shift, ◌<<◌}
use enocean_core.Enocean.Fields.{read_seq, copy_addr, build_nonce}

abbrev pub IsByte : ℕ → Type 0
IsByte b = b < 256

abbrev pub le_u32 : ℕ → ℕ → ℕ → ℕ → ℕ
le_u32 b0 b1 b2 b3 = b0 + b1 * 256 + b2 * 65536 + b3 * 16777216

pub or_bytes :
    (b0 b1 b2 b3 : ℕ)
    → IsByte b0
    → IsByte b1
    → IsByte b2
    → bit_or (bit_or (bit_or b0 (b1 << 8)) (b2 << 16)) (b3 << 24) ≡ le_u32 b0 b1 b2 b3
or_bytes b0 b1 b2 b3 h0 h1 h2 =
    rw
      (
        bit_or-shift 8 b0 b1 h0,
        bit_or-shift 16 (b0 + b1 * 2 ^ 8) b2 (omega arith),
        bit_or-shift 24 (b0 + b1 * 2 ^ 8 + b2 * 2 ^ 16) b3 (omega arith),
      )
      refl

pub read_seq-le_u32 :
    (b0 b1 b2 b3 : ℕ) (rest : List ℕ)
    → IsByte b0
    → IsByte b1
    → IsByte b2
    → read_seq (b0 ∷ b1 ∷ b2 ∷ b3 ∷ rest) ≡ done (le_u32 b0 b1 b2 b3)
unfolding read_seq
read_seq-le_u32 b0 b1 b2 b3 rest h0 h1 h2 = ap done (or_bytes b0 b1 b2 b3 h0 h1 h2)

-- A telegram with at least four bytes has a sequence number, and every one fits 32 bits.
pub read_seq_total :
    (p : List ℕ)
    → 4 ≤ length p
    → All IsByte p
    → (seq : ℕ) × (read_seq p ≡ done seq) × (seq < 2 ^ 32)
read_seq_total [] h b = absurd (omega arith)
read_seq_total (b0 ∷ []) h b = absurd (omega arith)
read_seq_total (b0 ∷ b1 ∷ []) h b = absurd (omega arith)
read_seq_total (b0 ∷ b1 ∷ b2 ∷ []) h b = absurd (omega arith)
read_seq_total (b0 ∷ b1 ∷ b2 ∷ b3 ∷ rest) h b =
    (le_u32 b0 b1 b2 b3, read_seq-le_u32 b0 b1 b2 b3 rest b.0 b.1.0 b.1.1.0, omega arith)

-- A sequence number that was read fits 32 bits.
pub read_seq-lt : (p : List ℕ) {seq : ℕ} → All IsByte p → read_seq p ≡ done seq → seq < 2 ^ 32
read_seq-lt [] b e = unfold read_seq in cc
read_seq-lt (b0 ∷ []) b e = unfold read_seq in cc
read_seq-lt (b0 ∷ b1 ∷ []) b e = unfold read_seq in cc
read_seq-lt (b0 ∷ b1 ∷ b2 ∷ []) b e = unfold read_seq in cc
read_seq-lt (b0 ∷ b1 ∷ b2 ∷ b3 ∷ rest) b e =
    subst (λ n. n < 2 ^ 32)
      (done-injective (sym (read_seq-le_u32 b0 b1 b2 b3 rest b.0 b.1.0 b.1.1.0) ∙ e)) (omega arith)

abbrev pub IsAddr : List ℕ → Type 0
IsAddr addr = length addr ≡ 6

copy_addr_six : (addr : List ℕ) → IsAddr addr → copy_addr 6 addr 0 ≡ done addr
unfolding copy_addr
copy_addr_six (a0 ∷ a1 ∷ a2 ∷ a3 ∷ a4 ∷ a5 ∷ []) h = refl
copy_addr_six _ h = absurd (omega arith)

unfoldable pub seq_bytes : ℕ → List ℕ
seq_bytes seq =
    seq % 256 ∷ seq / 256 % 256 ∷ seq / 65536 % 256 ∷ seq / 16777216 % 256 ∷ 0 ∷ 0 ∷ 0 ∷ []

pub build_nonce-append :
    (addr : List ℕ) (seq : ℕ) → IsAddr addr → build_nonce addr seq ≡ done (addr ++ seq_bytes seq)
unfolding build_nonce seq_bytes
build_nonce-append addr seq h = rw (copy_addr_six addr h)

-- The nonce of a telegram from a six-byte address is that address, the first four bytes of the
-- telegram and three zeros.
pub build_nonce-read_seq :
    (addr : List ℕ) (b0 b1 b2 b3 : ℕ) (rest : List ℕ)
    → IsAddr addr
    → All IsByte (b0 ∷ b1 ∷ b2 ∷ b3 ∷ rest)
    → (read_seq (b0 ∷ b1 ∷ b2 ∷ b3 ∷ rest) >>= build_nonce addr)
      ≡ done (addr ++ (b0 ∷ b1 ∷ b2 ∷ b3 ∷ 0 ∷ 0 ∷ 0 ∷ []))
unfolding seq_bytes
build_nonce-read_seq addr b0 b1 b2 b3 rest h b =
    rw (read_seq-le_u32 b0 b1 b2 b3 rest b.0 b.1.0 b.1.1.0)
      (build_nonce-append addr (le_u32 b0 b1 b2 b3) h ∙ ap (λ t. done (addr ++ t)) same)
  where
    same : seq_bytes (le_u32 b0 b1 b2 b3) ≡ b0 ∷ b1 ∷ b2 ∷ b3 ∷ 0 ∷ 0 ∷ 0 ∷ []
    same = ground arith

seq_bytes-injective : (s t : ℕ) → s < 2 ^ 32 → t < 2 ^ 32 → seq_bytes s ≡ seq_bytes t → s ≡ t
unfolding seq_bytes
seq_bytes-injective s t hs ht e = ground arith

append-injective :
    (xs ys us vs : List ℕ) → length xs ≡ length ys → xs ++ us ≡ ys ++ vs → (xs ≡ ys) × (us ≡ vs)
append-injective [] [] us vs h e = (refl, e)
append-injective [] (y ∷ ys) us vs h e = absurd (omega arith)
append-injective (x ∷ xs) [] us vs h e = absurd (omega arith)
append-injective (x ∷ xs) (y ∷ ys) us vs h e = ground (arith, append-injective xs ys us vs)

-- No two telegrams share a nonce unless they have the same address and sequence number: the nonce
-- determines both, for six-byte addresses and 32-bit numbers.
pub build_nonce-injective :
    (addr other : List ℕ) (s t : ℕ)
    → IsAddr addr
    → IsAddr other
    → s < 2 ^ 32
    → t < 2 ^ 32
    → build_nonce addr s ≡ build_nonce other t
    → (addr ≡ other) × (s ≡ t)
build_nonce-injective addr other s t ha hb hs ht e =
    let joined =
      append-injective addr other (seq_bytes s) (seq_bytes t) (ha ∙ sym hb)
        (done-injective (sym (build_nonce-append addr s ha) ∙ e ∙ build_nonce-append other t hb)) in
    (joined.0, seq_bytes-injective s t hs ht joined.1)
