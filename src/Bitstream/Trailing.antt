-- ===== src/Bitstream/Trailing.antt =====
-- `bs_trailing_bits` and `bs_bytes_written`: a stream that is closed by them is a whole number of
-- bytes, and these bytes hold its bits.
use display_bridge.Prelude.{
  ℕ, zero, suc, ◌+◌, ◌-◌, ◌*◌, ◌%◌, ◌≤◌, ◌<◌, ◌≡◌, refl, sym, ap, ◌∙◌, arith, List, [], ◌∷◌, ◌++◌,
  append_assoc, append-nil, All, subst₂, ne→==, ◌==◌, ==_iff, replicate, length, length-append,
  length-replicate, take, take-append, true, false,
}
use display_bridge.Bitstream.{Bitstream, init, write1, align, trailing_bits, bytes_written}
use display_bridge.Bitstream.View.{bits_of, bytes_bits, IsByte, Written, Yields, length-Written}
use display_bridge.Bitstream.Emit.{write1-Emits, skip-Emits, Yields-then}

-- A cleared buffer holds no bits.
pub init-Written : (n : ℕ) → Written (init (suc n)) []
unfolding init
init-Written n = record {
  full = [];
  part = 0;
  room = n;
  buf_eq = refl;
  at_byte = refl;
  at_bit = omega arith;
  part_lt = omega arith;
  full_bytes = tt;
  bits_eq = refl;
}

pub length-init : (n : ℕ) → length (init n).buf ≡ n
unfolding init
length-init n = length-replicate n 0

pub bit_pos-eq : {bs : Bitstream} {bits : List ℕ} → Written bs bits → bs.bit_pos ≡ length bits % 8
bit_pos-eq w = omega (arith, length-Written w, w.at_bit)

stops :
    {bs : Bitstream} {bits : List ℕ}
    → Written bs bits
    → (length bits + 0) % 8 ≡ 0
    → (bs.bit_pos == 0) ≡ true
stops {bs} w e = (==_iff bs.bit_pos 0).1 (omega (arith, bit_pos-eq w))

goes_on :
    {bs : Bitstream} {bits : List ℕ} {z : ℕ}
    → Written bs bits
    → (length bits + suc z) % 8 ≡ 0
    → suc z < 8
    → (bs.bit_pos == 0) ≡ false
goes_on {bs} w e s = ne→== bs.bit_pos 0 (omega (arith, bit_pos-eq w))

-- The loop stops at the next whole byte, after `z` zeros.
align-Yields :
    (fuel z : ℕ) (bs : Bitstream) (prior : List ℕ)
    → Written bs prior
    → length prior + z < 8 * length bs.buf
    → z ≤ fuel
    → z < 8
    → (length prior + z) % 8 ≡ 0
    → Yields (align fuel bs) (length bs.buf) (prior ++ replicate z 0)
unfolding align
align-Yields zero zero bs prior w room f s e = rw (stops w e) (skip-Emits bs prior w room)
align-Yields zero (suc z) bs prior w room f s e = absurd (omega arith)
align-Yields (suc fuel) zero bs prior w room f s e = rw (stops w e) (skip-Emits bs prior w room)
align-Yields (suc fuel) (suc z) bs prior w room f s e =
    let first = write1-Emits 0 bs prior w (omega arith) in
    let longer = length-append prior (0 ∷ []) in
    let second =
      align-Yields fuel z first.result (prior ++ (0 ∷ [])) first.holds
        (omega (arith, first.same_size, longer)) (omega arith) (omega arith)
        (omega (arith, longer)) in
    rw (goes_on w e s) (
      Yields-then (write1 0) (align fuel) bs first (
        subst₂ (Yields (align fuel first.result)) first.same_size
          (append_assoc prior (0 ∷ []) (replicate z 0)) second))

-- The number of zeros that follow the stop bit after `n` bits.
abbrev pub padding : ℕ → ℕ
padding n = 7 - n % 8

pub trailing_bits-Yields :
    (bs : Bitstream) (prior : List ℕ)
    → Written bs prior
    → length prior + 8 < 8 * length bs.buf
    → Yields
        (trailing_bits bs)
        (length bs.buf)
        (prior ++ (1 ∷ replicate (padding (length prior)) 0))
unfolding trailing_bits
trailing_bits-Yields bs prior w h = Yields-then (write1 1) (align 7) bs first (
    subst₂ (Yields (align 7 first.result)) first.same_size
      (append_assoc prior (1 ∷ []) (replicate (padding (length prior)) 0)) second)
  where
    first : Yields (write1 1 bs) (length bs.buf) (prior ++ (1 ∷ []))
    first = write1-Emits 1 bs prior w (omega arith)

    longer : length (prior ++ (1 ∷ [])) ≡ length prior + 1
    longer = length-append prior (1 ∷ [])

    second :
        Yields
          (align 7 first.result)
          (length first.result.buf)
          ((prior ++ (1 ∷ [])) ++ replicate (padding (length prior)) 0)
    second =
        align-Yields 7 (padding (length prior)) first.result (prior ++ (1 ∷ [])) first.holds
          (omega (arith, first.same_size, longer)) (omega arith) (omega arith)
          (omega (arith, longer))

-- What the functions of encoder.c hand on: the first `bs_bytes_written` bytes of the buffer.
pub payload : Bitstream → List ℕ
payload bs = take (bytes_written bs) bs.buf

bytes_written-aligned : (bs : Bitstream) → bs.bit_pos ≡ 0 → bytes_written bs ≡ bs.byte_pos
unfolding bytes_written
bytes_written-aligned bs e = ground arith

payload-full :
    {bs : Bitstream} {bits : List ℕ} (w : Written bs bits) → bs.bit_pos ≡ 0 → payload bs ≡ w.full
unfolding payload
payload-full {bs} w e = rw (bytes_written-aligned bs e, w.at_byte, w.buf_eq) (take-append w.full _)

pub payload_lem :
    {bs : Bitstream} {bits : List ℕ}
    → Written bs bits
    → length bits % 8 ≡ 0
    → (bytes_bits (payload bs) ≡ bits)
      × All IsByte (payload bs)
      × (8 * bytes_written bs ≡ length bits)
payload_lem {bs} {bits} w h = (
  rw (payload-full w at_zero) (sym bits_full),
  rw (payload-full w at_zero) w.full_bytes,
  omega (arith, bytes_written-aligned bs at_zero, length-Written w, at_zero),
)
  where
    at_zero : bs.bit_pos ≡ 0
    at_zero = bit_pos-eq w ∙ h

    bits_full : bits ≡ bytes_bits w.full
    bits_full =
        w.bits_eq
        ∙ ap (λ (n : ℕ). bytes_bits w.full ++ bits_of w.part n) at_zero
        ∙ append-nil (bytes_bits w.full)
