-- ===== src/Headers/Rbsp.antt =====
-- From the calls of a header to the bytes that it puts out: what a receiver decodes from them, and
-- how many they are.
use display_bridge.Prelude.{
  ℕ, suc, ◌+◌, ◌*◌, ◌≤◌, ◌<◌, ◌≡◌, ap, subst, arith, Option, some, List, [], ◌∷◌, ◌++◌, All, length,
  length-append, length-replicate, replicate, map,
}
use display_bridge.Bitstream.{Writer, ◌>>◌, init, trailing_bits, bytes_written}
use display_bridge.Bitstream.View.{bytes_bits, IsByte, Emits, Yields, length-bytes_bits}
use display_bridge.Bitstream.Emit.{Yields-then}
use display_bridge.Bitstream.Syntax.{Elem, kind, InRange, encode, decode, decode-encode}
use display_bridge.Bitstream.Trailing.{
  init-Written, length-init, trailing_bits-Yields, padding, payload, payload_lem,
}
use display_bridge.Nal.{add_emulation_prevention}
use display_bridge.Nal.Escape.{
  unescape, unescape-add_emulation_prevention, length-add_emulation_prevention,
}
use display_bridge.Headers.{rbsp}

-- `r` is a NAL unit body that holds exactly the elements `es`: with the inserted bytes dropped, the
-- descriptors of `es` find `es`, and only the stop bit and the padding follow.
pub record Carries (es : List Elem) (r : Option (List ℕ)) : Type 0 where
  pub bytes : List ℕ
  pub returns : r ≡ some bytes
  pub content :
      bytes_bits (unescape bytes) ≡ encode es ++ (1 ∷ replicate (padding (length (encode es))) 0)
  pub decodes :
      decode (map kind es) (bytes_bits (unescape bytes))
      ≡ some (es, 1 ∷ replicate (padding (length (encode es))) 0)
  pub not_longer : 16 * length bytes ≤ 3 * length (encode es) + 24

module _ (n : ℕ) (body : Writer) (es : List Elem) (emits : Emits body (encode es))
    (fits : length (encode es) + 8 < 8 * suc n) where
  abbrev closed : List ℕ
  closed = encode es ++ (1 ∷ replicate (padding (length (encode es))) 0)

  closed-Yields : Yields ((body >> trailing_bits) (init (suc n))) (suc n) closed
  closed-Yields = Yields-then body trailing_bits (init (suc n)) first second
    where
      first : Yields (body (init (suc n))) (suc n) (encode es)
      first =
          subst (λ c. Yields (body (init (suc n))) c (encode es)) (length-init (suc n))
            (emits (init (suc n)) [] (init-Written n) (rw (length-init (suc n)) (omega arith)))

      second : Yields (trailing_bits first.result) (suc n) closed
      second =
          subst (λ c. Yields (trailing_bits first.result) c closed) first.same_size
            (trailing_bits-Yields first.result (encode es) first.holds (rw first.same_size fits))

  pub rbsp-Carries : All InRange es → Carries es (rbsp (suc n) body)
  unfolding rbsp
  rbsp-Carries ranges = record {
    bytes = add_emulation_prevention raw;
    returns = rw closed-Yields.returns;
    content = rw (unescape-add_emulation_prevention raw) holds.0;
    decodes =
        rw (unescape-add_emulation_prevention raw, holds.0)
          (decode-encode es (1 ∷ replicate (padding (length (encode es))) 0) ranges);
    not_longer = omega (
      arith,
      length-add_emulation_prevention raw,
      length-bytes_bits raw,
      ap length holds.0,
      length_closed,
    );
  }
    where
      raw : List ℕ
      raw = payload closed-Yields.result

      length_closed : length closed ≡ length (encode es) + 1 + padding (length (encode es))
      length_closed = omega (
        arith,
        length-append (encode es) (1 ∷ replicate (padding (length (encode es))) 0),
        length-replicate {A = ℕ} (padding (length (encode es))) 0,
      )

      holds :
          (bytes_bits raw ≡ closed)
          × All IsByte raw
          × (8 * bytes_written closed-Yields.result ≡ length closed)
      holds = payload_lem closed-Yields.holds (omega (arith, length_closed))
