-- ===== src/Bitstream.antt =====
-- The bit writer of ubuntu/src/encoder.c: `bitstream_t` and the functions `bs_*`, most significant
-- bit first. A writer takes the stream to the stream after it; `none` is a store outside the
-- buffer, which the code does not test for and C leaves undefined.
pub mod View
pub mod PutBit
pub mod Emit
pub mod Golomb
pub mod Syntax
pub mod Trailing
pub mod Sizes
pub mod RoundTrip
use mathlib.Core.Option
use display_bridge.Prelude.{
  ℕ, zero, suc, ◌+◌, ◌-◌, ◌*◌, Option, none, some, List, bit_and, bit_or, ◌<<<◌, ◌>>>◌, u8, u32,
  ltb, ◌==◌, if◌then◌else◌, get_elem?, set, replicate,
}
use display_bridge.Prelude.Int.{ℤ, pos, negsuc}

-- `bitstream_t`
pub record Bitstream : Type 0 where
  pub buf : List ℕ
  pub capacity : ℕ
  pub byte_pos : ℕ
  pub bit_pos : ℕ

abbrev pub Writer : Type 0
Writer = Bitstream → Option Bitstream

abbrev pub and_then : Option Bitstream → Writer → Option Bitstream
and_then none k = none
and_then (some bs) k = k bs

-- One statement after another.
infixl 5 ◌>>◌
abbrev pub ◌>>◌ : Writer → Writer → Writer
◌>>◌ m k bs = and_then (m bs) k

-- `bs_init`: the `capacity` bytes at `buf` are cleared.
unfoldable pub init : ℕ → Bitstream
init capacity = record {
  buf = replicate capacity 0;
  capacity = capacity;
  byte_pos = 0;
  bit_pos = 0;
}

-- `bs_bits_written`
unfoldable pub bits_written : Bitstream → ℕ
bits_written bs = bs.byte_pos * 8 + bs.bit_pos

-- `bs->bit_pos++` and what follows it.
advance : Bitstream → Bitstream
advance bs =
    if bs.bit_pos + 1 == 8
    then record bs { bit_pos = 0; byte_pos = bs.byte_pos + 1 }
    else record bs { bit_pos = bs.bit_pos + 1 }

-- The body of the loop of `bs_write`.
pub put_bit : ℕ → Writer
unfolding advance
put_bit bit bs =
    Option.map
      (λ byte.
        advance (record bs {
          buf = set bs.buf bs.byte_pos (u8 (bit_or byte (bit <<< (7 - bs.bit_pos))));
        }))
      (get_elem? bs.buf bs.byte_pos)

-- `bs_write`, with the loop's `i` counting down.
unfoldable pub write : ℕ → ℕ → Writer
unfolding put_bit
write value zero bs = some bs
write value (suc i) bs = (put_bit (bit_and (value >>> i) 1) >> write value i) bs

-- `bs_write1`
unfoldable pub write1 : ℕ → Writer
unfolding write
write1 bit = write (bit_and bit 1) 1

-- `while (tmp > 0) { bits++; tmp >>= 1; }`; 32 rounds do for a `uint32_t`.
unfoldable pub bit_count : ℕ → ℕ → ℕ → ℕ
bit_count zero tmp bits = bits
bit_count (suc fuel) tmp bits =
    let rest = bit_count fuel (tmp >>> 1) (bits + 1) in if ltb 0 tmp then rest else bits

-- `n` rounds of `bs_write1(bs, 0)`
unfoldable pub zeros : ℕ → Writer
unfolding write1
zeros zero bs = some bs
zeros (suc n) bs = (write1 0 >> zeros n) bs

-- `bs_write_ue`
unfoldable pub write_ue : ℕ → Writer
unfolding zeros write
write_ue value =
    let v = u32 (value + 1) in let bits = bit_count 32 v 0 in zeros (bits - 1) >> write v bits

-- `bs_write_se`
unfoldable pub se_mapped : ℤ → ℕ
se_mapped (pos zero) = 0
se_mapped (pos (suc n)) = u32 (2 * suc n - 1)
se_mapped (negsuc n) = u32 (2 * (n + 1))

unfoldable pub write_se : ℤ → Writer
unfolding write_ue se_mapped
write_se value = write_ue (se_mapped value)

-- The loop of `bs_trailing_bits`; a byte wants at most seven rounds.
align : ℕ → Writer
unfolding write1
align zero bs = if bs.bit_pos == 0 then some bs else none
align (suc fuel) bs =
    let rest = (write1 0 >> align fuel) bs in if bs.bit_pos == 0 then some bs else rest

-- `bs_trailing_bits`
unfoldable pub trailing_bits : Writer
unfolding align
trailing_bits = write1 1 >> align 7

-- `bs_bytes_written`
unfoldable pub bytes_written : Bitstream → ℕ
bytes_written bs = bs.byte_pos + (if ltb 0 bs.bit_pos then 1 else 0)
