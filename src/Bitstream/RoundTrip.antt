-- ===== src/Bitstream/RoundTrip.antt =====
-- The writers of encoder.c against the parsing processes of H.265: what is put into a stream comes
-- out of its bytes.
use display_bridge.Prelude.{
  ℕ, ◌+◌, ◌*◌, ◌%◌, ◌^◌, ◌<◌, ◌≡◌, arith, some, List, ◌∷◌, ◌++◌, All, map, length, length-append,
  length-replicate, replicate, ap, ◌∙◌,
}
use display_bridge.Bitstream.{Bitstream, write, write_ue, trailing_bits, bytes_written}
use display_bridge.Bitstream.View.{bits_of, bytes_bits, IsByte, Written, Yields, length-bits_of}
use display_bridge.Bitstream.Emit.{write-Emits}
use display_bridge.Bitstream.Golomb.{
  read_bits, read_ue, ue_bits, read_bits-bits_of, write_ue-Emits, read_ue-ue_bits,
}
use display_bridge.Bitstream.Syntax.{
  Elem, kind, InRange, calls, encode, decode, calls-Writes, decode-encode,
}
use display_bridge.Bitstream.Trailing.{padding, payload, trailing_bits-Yields, payload_lem}

-- `bs_write` on a stream with more than `n` bits left stores nothing outside the buffer and appends
-- `n` bits, which a reader of `n` bits takes for the value modulo `2 ^ n`.
read_bits-write :
    (value n : ℕ) (bs : Bitstream) (prior : List ℕ)
    → Written bs prior
    → length prior + n < 8 * length bs.buf
    → Yields (write value n bs) (length bs.buf) (prior ++ bits_of value n)
      × ((rest : List ℕ) → read_bits n 0 (bits_of value n ++ rest) ≡ some (value % 2 ^ n, rest))
read_bits-write value n bs prior w room = (
  write-Emits value n bs prior w (omega (arith, length-bits_of value n)),
  λ rest. read_bits-bits_of n 0 value rest ∙ ap (λ (t : ℕ). some (t, rest)) (omega arith),
)

-- `bs_write_ue` of a value below `2 ^ 32 - 1`, on a stream with room for its code, stores nothing
-- outside the buffer and appends a code that the exp-Golomb parser reads as the value, whatever
-- bits follow.
read_ue-write_ue :
    (value : ℕ) (bs : Bitstream) (prior : List ℕ)
    → value + 1 < 2 ^ 32
    → Written bs prior
    → length prior + length (ue_bits value) < 8 * length bs.buf
    → Yields (write_ue value bs) (length bs.buf) (prior ++ ue_bits value)
      × ((rest : List ℕ) → read_ue (ue_bits value ++ rest) ≡ some (value, rest))
read_ue-write_ue value bs prior h w room =
    (write_ue-Emits value bs prior w room, λ rest. read_ue-ue_bits value rest h)

-- The calls that write a sequence of elements in range, on a stream with room for them, store
-- nothing outside the buffer and append bits from which a parser with the descriptors of the
-- elements gets the elements back, whatever bits follow.
pub decode-calls :
    (es : List Elem) (bs : Bitstream) (prior : List ℕ)
    → All InRange es
    → Written bs prior
    → length prior + length (encode es) < 8 * length bs.buf
    → Yields (calls es bs) (length bs.buf) (prior ++ encode es)
      × ((rest : List ℕ) → decode (map kind es) (encode es ++ rest) ≡ some (es, rest))
decode-calls es bs prior h w room =
    (calls-Writes es bs prior w room, λ rest. decode-encode es rest h)

-- `bs_trailing_bits` on a stream with more than eight bits left ends, stores nothing outside the
-- buffer, and leaves whole bytes: those that `bs_bytes_written` counts are the bits so far, a one
-- and fewer than eight zeros.
payload-trailing_bits :
    (bs : Bitstream) (prior : List ℕ)
    → Written bs prior
    → length prior + 8 < 8 * length bs.buf
    → (closed : Bitstream) × (trailing_bits bs ≡ some closed)
      × (bytes_bits (payload closed) ≡ prior ++ (1 ∷ replicate (padding (length prior)) 0))
      × All IsByte (payload closed)
      × (8 * bytes_written closed ≡ length prior + 1 + padding (length prior))
      × (padding (length prior) < 8)
payload-trailing_bits bs prior w room =
    let y = trailing_bits-Yields bs prior w room in
    let zeros_count = length-replicate {A = ℕ} (padding (length prior)) 0 in
    let count = length-append prior (1 ∷ replicate (padding (length prior)) 0) in
    let (bits, bytes, size) = payload_lem y.holds (omega (arith, zeros_count, count)) in
    (y.result, y.returns, bits, bytes, omega (arith, size, zeros_count, count), omega arith)
