-- ===== src/Bitstream/PutBit.antt =====
-- One round of the loop of `bs_write`: the bit goes behind the bits that the stream holds.
use native.Mathlib.Nat.{div-div-eq-div-mul, pow-succ'}
use native.Mathlib.Decide.{dec_lt}
use native.Mathlib.Numerals.{add-one}
use display_bridge.Prelude.{
  ℕ, zero, suc, ◌+◌, ◌-◌, ◌*◌, ◌/◌, ◌%◌, ◌^◌, ◌<◌, ◌≡◌, refl, sym, subst, ap, ap₂, ◌∙◌, arith, some,
  true, false, List, [], ◌∷◌, ◌++◌, append-nil, append_assoc, bit_or, ◌<<<◌, u8, bit_or_fields,
  replicate, length, length-append, get_elem?-append_mid, set-append_mid, All-append, ◌==◌,
}
use display_bridge.Bitstream.{Bitstream, advance, put_bit}
use display_bridge.Bitstream.View.{
  bits_of, bytes_bits, IsByte, Written, Emits, length-Written, bytes_bits-append,
}

div-two-pow_suc : (q b n : ℕ) → b < 2 → (2 * q + b) / 2 ^ suc n ≡ q / 2 ^ n
div-two-pow_suc q b n h =
    rw (pow-succ' 2 n, ← div-div-eq-div-mul (2 * q + b) 2 (2 ^ n))
      (ap (λ (t : ℕ). t / 2 ^ n) (omega arith))

bits_of-snoc : (q b n : ℕ) → b < 2 → bits_of (2 * q + b) (suc n) ≡ bits_of q n ++ (b ∷ [])
bits_of-snoc q b zero h = ap (λ t. t ∷ []) (omega arith)
bits_of-snoc q b (suc n) h =
    ap₂ ◌∷◌ (ap (λ (t : ℕ). t % 2) (div-two-pow_suc q b n h)) (bits_of-snoc q b n h)

-- What the `|=` of the loop does to the current byte.
or_bit :
    (p q b : ℕ)
    → p < 8
    → q < 2 ^ p
    → b < 2
    → (u8 (bit_or (q * 2 ^ (8 - p)) (b <<< (7 - p))) ≡ (2 * q + b) * 2 ^ (7 - p))
      × (2 * q + b < 2 ^ suc p)
or_bit zero q b hp hq hb = omega (arith, bit_or_fields 8 q (b * 2 ^ 7) (omega arith))
or_bit (suc zero) q b hp hq hb = omega (arith, bit_or_fields 7 q (b * 2 ^ 6) (omega arith))
or_bit (suc (suc zero)) q b hp hq hb = omega (arith, bit_or_fields 6 q (b * 2 ^ 5) (omega arith))
or_bit (suc (suc (suc zero))) q b hp hq hb =
    omega (arith, bit_or_fields 5 q (b * 2 ^ 4) (omega arith))
or_bit (suc (suc (suc (suc zero)))) q b hp hq hb =
    omega (arith, bit_or_fields 4 q (b * 2 ^ 3) (omega arith))
or_bit (suc (suc (suc (suc (suc zero))))) q b hp hq hb =
    omega (arith, bit_or_fields 3 q (b * 2 ^ 2) (omega arith))
or_bit (suc (suc (suc (suc (suc (suc zero)))))) q b hp hq hb =
    omega (arith, bit_or_fields 2 q (b * 2 ^ 1) (omega arith))
or_bit (suc (suc (suc (suc (suc (suc (suc zero))))))) q b hp hq hb =
    omega (arith, bit_or_fields 1 q (b * 2 ^ 0) (omega arith))
or_bit (suc (suc (suc (suc (suc (suc (suc (suc p)))))))) q b hp hq hb = absurd (omega arith)

not_eight : (n : ℕ) → n < 8 → (n == 8) ≡ false
not_eight n p = ground arith

suc_eight : {n : ℕ} → n + 1 ≡ 8 → suc n ≡ 8
suc_eight h = omega arith

mul-two-pow_zero : (x k : ℕ) → k ≡ 0 → x * 2 ^ k ≡ x
mul-two-pow_zero x zero h = omega arith
mul-two-pow_zero x (suc k) h = absurd (omega arith)

eight : (n : ℕ) → n ≡ 8 → (n == 8) ≡ true
eight n p = ground arith

module _ (b : ℕ) (hb : b < 2) (bs : Bitstream) (prior : List ℕ) (w : Written bs prior) where
  -- The buffer after the store.
  abbrev stored : List ℕ
  stored = w.full ++ (((2 * w.part + b) * 2 ^ (7 - bs.bit_pos)) ∷ replicate w.room 0)

  put_bit-eq : put_bit b bs ≡ some (advance (record bs { buf = stored }))
  unfolding put_bit
  put_bit-eq =
      rw
        (
          w.buf_eq,
          w.at_byte,
          get_elem?-append_mid w.full (w.part * 2 ^ (8 - bs.bit_pos)) (replicate w.room 0),
          (or_bit bs.bit_pos w.part b w.at_bit w.part_lt hb).0,
          set-append_mid w.full (w.part * 2 ^ (8 - bs.bit_pos))
              ((2 * w.part + b) * 2 ^ (7 - bs.bit_pos)) (replicate w.room 0),
        )
        refl

  snoc_eq : prior ++ (b ∷ []) ≡ bytes_bits w.full ++ bits_of (2 * w.part + b) (suc bs.bit_pos)
  snoc_eq =
      rw (bits_of-snoc w.part b bs.bit_pos hb, w.bits_eq)
        (append_assoc (bytes_bits w.full) (bits_of w.part bs.bit_pos) (b ∷ []))

  -- The byte still has a bit left.
  inside : bs.bit_pos + 1 < 8 → Written (advance (record bs { buf = stored })) (prior ++ (b ∷ []))
  unfolding advance
  inside h = rw (not_eight _ h) (record {
    full = w.full;
    part = 2 * w.part + b;
    room = w.room;
    buf_eq =
        ap (λ (k : ℕ). w.full ++ (((2 * w.part + b) * 2 ^ k) ∷ replicate w.room 0)) (omega arith);
    at_byte = w.at_byte;
    at_bit = h;
    part_lt = rw add-one (or_bit bs.bit_pos w.part b w.at_bit w.part_lt hb).1;
    full_bytes = w.full_bytes;
    bits_eq = rw add-one snoc_eq;
  })

  part_byte : bs.bit_pos + 1 ≡ 8 → 2 * w.part + b < 2 ^ 8
  part_byte h =
      subst (λ n. 2 * w.part + b < 2 ^ n) (suc_eight h)
        (or_bit bs.bit_pos w.part b w.at_bit w.part_lt hb).1

  whole_byte :
      bs.bit_pos + 1 ≡ 8
      → bytes_bits w.full ++ bits_of (2 * w.part + b) (suc bs.bit_pos)
        ≡ bytes_bits (w.full ++ ((2 * w.part + b) ∷ [])) ++ []
  whole_byte h =
      rw (bytes_bits-append, append-nil, append-nil)
        (ap (λ (n : ℕ). bytes_bits w.full ++ bits_of (2 * w.part + b) n) (suc_eight h))

  -- The byte is complete.
  at_end :
      (room : ℕ)
      → w.room ≡ suc room
      → bs.bit_pos + 1 ≡ 8
      → Written (advance (record bs { buf = stored })) (prior ++ (b ∷ []))
  unfolding advance
  at_end room r h = rw (eight _ h) (record {
    full = w.full ++ ((2 * w.part + b) ∷ []);
    part = 0;
    room = room;
    buf_eq =
        ap₂ (λ (x : ℕ) (t : List ℕ). w.full ++ (x ∷ t))
          (mul-two-pow_zero (2 * w.part + b) (7 - bs.bit_pos) (omega arith))
          (ap (λ (n : ℕ). replicate n 0) r)
        ∙ sym (append_assoc w.full ((2 * w.part + b) ∷ []) (0 ∷ replicate room 0));
    at_byte = rw (length-append w.full ((2 * w.part + b) ∷ [])) (omega (arith, w.at_byte));
    at_bit = omega arith;
    part_lt = omega arith;
    full_bytes = All-append IsByte w.full ((2 * w.part + b) ∷ []) w.full_bytes (part_byte h, tt);
    bits_eq = snoc_eq ∙ whole_byte h;
  })

buf-advance : (s : Bitstream) → (advance s).buf ≡ s.buf
unfolding advance
buf-advance s = ground arith

length-stored :
    (full : List ℕ) (x y room : ℕ)
    → length (full ++ (x ∷ replicate room 0)) ≡ length (full ++ (y ∷ replicate room 0))
length-stored full x y room =
    omega
      (arith, length-append full (x ∷ replicate room 0), length-append full (y ∷ replicate room 0))

-- The body of the loop of `bs_write` appends its bit.
pub put_bit-Emits : (b : ℕ) → b < 2 → Emits (put_bit b) (b ∷ [])
put_bit-Emits b hb bs prior w h = record {
  result = advance (record bs { buf = stored b hb bs prior w });
  returns = put_bit-eq b hb bs prior w;
  holds = elim (dec_lt (bs.bit_pos + 1) 8) [
    | yes p ↦ inside b hb bs prior w p
    | no p ↦
        at_end b hb bs prior w (w.room - 1) (omega (arith, length-Written w, w.at_bit))
          (omega (arith, w.at_bit))
  ];
  same_size = rw (buf-advance, w.buf_eq) (length-stored w.full _ _ w.room);
}
