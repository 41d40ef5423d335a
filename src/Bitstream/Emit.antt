-- ===== src/Bitstream/Emit.antt =====
-- The writers of encoder.c append their bits in order, as long as bits are left in the buffer.
use display_bridge.Prelude.{
  ℕ, zero, suc, ◌/◌, ◌%◌, ◌^◌, refl, subst, subst₂, ap, arith, some, List, [], ◌∷◌, ◌++◌,
  append-nil, append_assoc, bit_and, bit_and-one, replicate, length, length-append,
}
use display_bridge.Bitstream.{Bitstream, Writer, ◌>>◌, write, write1, zeros}
use display_bridge.Bitstream.View.{bits_of, Yields, Emits}
use display_bridge.Bitstream.PutBit.{put_bit-Emits}

pub Yields-then :
    (m k : Writer) (bs : Bitstream) {cap : ℕ} {xs ys : List ℕ} (first : Yields (m bs) cap xs)
    → Yields (k first.result) cap ys
    → Yields ((m >> k) bs) cap ys
Yields-then m k bs first second = record {
  result = second.result;
  returns = rw first.returns second.returns;
  holds = second.holds;
  same_size = second.same_size;
}

-- Statement after statement, the bits are appended in order.
pub >>-Emits : {m k : Writer} (xs ys : List ℕ) → Emits m xs → Emits k ys → Emits (m >> k) (xs ++ ys)
>>-Emits {m} {k} xs ys hm hk bs prior w h =
    Yields-then m k bs first
      (subst₂ (Yields (k first.result)) first.same_size (append_assoc prior xs ys) second)
  where
    first : Yields (m bs) (length bs.buf) (prior ++ xs)
    first = hm bs prior w (omega (arith, length-append xs ys))

    second : Yields (k first.result) (length first.result.buf) ((prior ++ xs) ++ ys)
    second =
        hk first.result (prior ++ xs) first.holds
          (omega (arith, length-append xs ys, length-append prior xs, first.same_size))

pub skip-Emits : Emits some []
skip-Emits bs prior w h = record {
  result = bs;
  returns = refl;
  holds = rw append-nil w;
  same_size = refl;
}

-- `bs_write` appends the `n` low bits of the value.
pub write-Emits : (v n : ℕ) → Emits (write v n) (bits_of v n)
unfolding write
write-Emits v zero = skip-Emits
write-Emits v (suc n) =
    >>-Emits ((v / 2 ^ n % 2) ∷ []) (bits_of v n)
      (rw bit_and-one (put_bit-Emits (v / 2 ^ n % 2) (omega arith))) (write-Emits v n)

pub write1-Emits : (b : ℕ) → Emits (write1 b) ((b % 2) ∷ [])
unfolding write1
write1-Emits b =
    subst (Emits (write (bit_and b 1) 1)) (ap (λ (t : ℕ). t ∷ []) (omega (arith, bit_and-one b)))
      (write-Emits (bit_and b 1) 1)

pub zeros-Emits : (n : ℕ) → Emits (zeros n) (replicate n 0)
unfolding zeros
zeros-Emits zero = skip-Emits
zeros-Emits (suc n) = >>-Emits (0 ∷ []) (replicate n 0) (write1-Emits 0) (zeros-Emits n)
