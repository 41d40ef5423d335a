-- ===== src/Bitstream/View.antt =====
-- What a bit stream stands for: the list of the bits written so far. Every writer of encoder.c
-- appends to that list, and stores nothing outside the buffer while bits are left in it.
use display_bridge.Prelude.{
  ℕ, zero, suc, ◌+◌, ◌-◌, ◌*◌, ◌/◌, ◌%◌, ◌^◌, ◌<◌, ◌≡◌, refl, ap, arith, Option, some, List, [],
  ◌∷◌, ◌++◌, replicate, length, length-append, length-replicate, All,
}
use display_bridge.Bitstream.{Bitstream, Writer}

-- The `n` low bits of a number, most significant first.
abbrev pub bits_of : ℕ → ℕ → List ℕ
bits_of v zero = []
bits_of v (suc n) = (v / 2 ^ n % 2) ∷ bits_of v n

-- The bits of a sequence of bytes.
abbrev pub bytes_bits : List ℕ → List ℕ
bytes_bits [] = []
bytes_bits (b ∷ bs) = bits_of b 8 ++ bytes_bits bs

abbrev pub IsByte : ℕ → Type 0
IsByte b = b < 256

pub length-bits_of : (v n : ℕ) → length (bits_of v n) ≡ n
length-bits_of v zero = refl
length-bits_of v (suc n) = ap suc (length-bits_of v n)

pub length-bytes_bits : (bs : List ℕ) → length (bytes_bits bs) ≡ 8 * length bs
length-bytes_bits [] = refl
length-bytes_bits (b ∷ bs) = omega (arith, length-bytes_bits bs)

pub bytes_bits-append : (xs ys : List ℕ) → bytes_bits (xs ++ ys) ≡ bytes_bits xs ++ bytes_bits ys
bytes_bits-append [] ys = refl
bytes_bits-append (x ∷ xs) ys = rw (bytes_bits-append xs ys)

-- The stream `bs` holds exactly `bits`: the bytes `full`, then a byte of which `bit_pos` bits, the
-- number `part`, are written, then `room` untouched bytes.
pub record Written (bs : Bitstream) (bits : List ℕ) : Type 0 where
  pub full : List ℕ
  pub part : ℕ
  pub room : ℕ
  pub buf_eq : bs.buf ≡ full ++ ((part * 2 ^ (8 - bs.bit_pos)) ∷ replicate room 0)
  pub at_byte : bs.byte_pos ≡ length full
  pub at_bit : bs.bit_pos < 8
  pub part_lt : part < 2 ^ bs.bit_pos
  pub full_bytes : All IsByte full
  pub bits_eq : bits ≡ bytes_bits full ++ bits_of part bs.bit_pos

-- The outcome `r` of a writer on a stream of `cap` bytes is a stream that holds `bits`.
pub record Yields (r : Option Bitstream) (cap : ℕ) (bits : List ℕ) : Type 0 where
  pub result : Bitstream
  pub returns : r ≡ some result
  pub holds : Written result bits
  pub same_size : length result.buf ≡ cap

-- On any stream with more than `length bits` bits left, `m` appends `bits`.
abbrev pub Emits : Writer → List ℕ → Type 0
Emits m bits =
    (bs : Bitstream) (prior : List ℕ)
    → Written bs prior
    → length prior + length bits < 8 * length bs.buf
    → Yields (m bs) (length bs.buf) (prior ++ bits)

pub length-Written :
    {bs : Bitstream} {bits : List ℕ} (w : Written bs bits)
    → (length bits ≡ 8 * length w.full + bs.bit_pos) × (length bs.buf ≡ length w.full + 1 + w.room)
length-Written {bs} w = (
  rw w.bits_eq (
      omega (
        arith,
        length-append (bytes_bits w.full) (bits_of w.part bs.bit_pos),
        length-bytes_bits w.full,
        length-bits_of w.part bs.bit_pos,
      )),
  rw w.buf_eq (
      omega (
        arith,
        length-append w.full ((w.part * 2 ^ (8 - bs.bit_pos)) ∷ replicate w.room 0),
        length-replicate {A = ℕ} w.room 0,
      )),
)
