-- ===== src/Bitstream/Syntax.antt =====
-- Sequences of syntax elements as H.265 clause 7.2 describes them, u(n), ue(v) and se(v): the calls
-- that write one, the bits that stand for it, and a decoder that reads it back from its kinds.
use mathlib.Core.Option
use native.Mathlib.Nat.{mod-eq_of_lt}
use display_bridge.Prelude.{
  ℕ, zero, suc, ◌+◌, ◌*◌, ◌/◌, ◌%◌, ◌^◌, ◌<◌, ◌≡◌, refl, sym, ap, arith, Option, some, List, [],
  ◌∷◌, ◌++◌, append_assoc, append-nil, All, map, ◌==◌, if◌then◌else◌, subst,
}
use display_bridge.Prelude.Int.{ℤ, pos, negsuc, sub_ℕ}
use display_bridge.Bitstream.{Writer, ◌>>◌, write, write1, write_ue, write_se, se_mapped}
use display_bridge.Bitstream.View.{bits_of, Emits}
use display_bridge.Bitstream.Emit.{>>-Emits, skip-Emits, write-Emits, write1-Emits}
use display_bridge.Bitstream.Golomb.{
  read_bits, read_ue, ue_bits, read_bits-bits_of, write_ue-Emits, read_ue-ue_bits,
}

-- A descriptor.
pub data Kind : Type 0 where
  u : ℕ → Kind
  flag ue se : Kind

-- A syntax element with its value.
pub data Elem : Type 0 where
  fixed : (v n : ℕ) → Elem
  bit : ℕ → Elem
  golomb : ℕ → Elem
  signed : ℤ → Elem

abbrev pub kind : Elem → Kind
kind (fixed v n) = u n
kind (bit b) = flag
kind (golomb v) = ue
kind (signed z) = se

-- The values that a descriptor can carry.
abbrev pub InRange : Elem → Type 0
InRange (fixed v n) = v < 2 ^ n
InRange (bit b) = b < 2
InRange (golomb v) = v + 1 < 2 ^ 32
InRange (signed (pos n)) = 2 * n + 1 < 2 ^ 32
InRange (signed (negsuc n)) = 2 * n + 3 < 2 ^ 32

-- The call of encoder.c that writes an element.
abbrev pub call : Elem → Writer
call (fixed v n) = write v n
call (bit b) = write1 b
call (golomb v) = write_ue v
call (signed z) = write_se z

-- The calls in order.
abbrev pub calls : List Elem → Writer
calls [] = some
calls (e ∷ []) = call e
calls (e ∷ f ∷ es) = call e >> calls (f ∷ es)

-- The calls in order, and then the rest of a function.
abbrev pub calls_then : List Elem → Writer → Writer
calls_then [] k = k
calls_then (e ∷ es) k = call e >> calls_then es k

abbrev pub elem_bits : Elem → List ℕ
elem_bits (fixed v n) = bits_of v n
elem_bits (bit b) = (b % 2) ∷ []
elem_bits (golomb v) = ue_bits v
elem_bits (signed z) = ue_bits (se_mapped z)

unfoldable pub encode : List Elem → List ℕ
encode [] = []
encode (e ∷ es) = elem_bits e ++ encode es

-- The inverse of the mapping of clause 9.2.2: codes 0, 1, 2, 3, 4 stand for 0, 1, -1, 2, -2.
unfoldable pub se_value : ℕ → ℤ
se_value k = if k % 2 == 0 then sub_ℕ 0 (k / 2) else pos (k / 2 + 1)

read_elem : Kind → List ℕ → Option (Elem × List ℕ)
unfolding read_bits read_ue se_value
read_elem (u n) bits = Option.map (λ (p : ℕ × List ℕ). (fixed p.0 n, p.1)) (read_bits n 0 bits)
read_elem flag bits = Option.map (λ (p : ℕ × List ℕ). (bit p.0, p.1)) (read_bits 1 0 bits)
read_elem ue bits = Option.map (λ (p : ℕ × List ℕ). (golomb p.0, p.1)) (read_ue bits)
read_elem se bits = Option.map (λ (p : ℕ × List ℕ). (signed (se_value p.0), p.1)) (read_ue bits)

-- The elements that a sequence of descriptors finds, and the bits after them.
unfoldable pub decode : List Kind → List ℕ → Option (List Elem × List ℕ)
unfolding read_elem
decode [] bits = some ([], bits)
decode (k ∷ ks) bits =
    Option.bind (read_elem k bits)
      λ p. Option.map (λ (q : List Elem × List ℕ). (p.0 ∷ q.0, q.1)) (decode ks p.1)

pub call-Emits : (e : Elem) → Emits (call e) (elem_bits e)
call-Emits (fixed v n) = write-Emits v n
call-Emits (bit b) = write1-Emits b
call-Emits (golomb v) = write_ue-Emits v
call-Emits (signed z) = unfold write_se in write_ue-Emits (se_mapped z)

pub calls-Emits : (es : List Elem) → Emits (calls es) (encode es)
unfolding encode
calls-Emits [] = skip-Emits
calls-Emits (e ∷ []) = subst (Emits (call e)) (sym (append-nil (elem_bits e))) (call-Emits e)
calls-Emits (e ∷ f ∷ es) =
    >>-Emits (elem_bits e) (encode (f ∷ es)) (call-Emits e) (calls-Emits (f ∷ es))

pub calls_then-Emits :
    (es : List Elem) {k : Writer} {bits : List ℕ}
    → Emits k bits
    → Emits (calls_then es k) (encode es ++ bits)
unfolding encode
calls_then-Emits [] h = h
calls_then-Emits (e ∷ es) {k} {bits} h =
    rw (append_assoc (elem_bits e) (encode es) bits)
      (>>-Emits (elem_bits e) (encode es ++ bits) (call-Emits e) (calls_then-Emits es h))

se_value-se_mapped : (z : ℤ) → InRange (signed z) → se_value (se_mapped z) ≡ z
unfolding se_value se_mapped
se_value-se_mapped (pos zero) h = refl
se_value-se_mapped (pos (suc n)) h = ground arith
se_value-se_mapped (negsuc n) h = ground arith

se_mapped-lt : (z : ℤ) → InRange (signed z) → se_mapped z + 1 < 2 ^ 32
unfolding se_mapped
se_mapped-lt (pos zero) h = omega arith
se_mapped-lt (pos (suc n)) h = omega arith
se_mapped-lt (negsuc n) h = omega arith

read_elem-elem_bits :
    (e : Elem) (rest : List ℕ)
    → InRange e
    → read_elem (kind e) (elem_bits e ++ rest) ≡ some (e, rest)
unfolding read_elem
read_elem-elem_bits (fixed v n) rest h =
    rw (read_bits-bits_of n 0 v rest)
      (ap (λ (t : ℕ). some (fixed t n, rest)) (omega (arith, mod-eq_of_lt h)))
read_elem-elem_bits (bit b) rest h = ap (λ (t : ℕ). some (bit t, rest)) (omega arith)
read_elem-elem_bits (golomb v) rest h = rw (read_ue-ue_bits v rest h)
read_elem-elem_bits (signed z) rest h =
    rw (read_ue-ue_bits (se_mapped z) rest (se_mapped-lt z h), se_value-se_mapped z h)

-- The decoder finds the elements that were written, whatever follows them.
pub decode-encode :
    (es : List Elem) (rest : List ℕ)
    → All InRange es
    → decode (map kind es) (encode es ++ rest) ≡ some (es, rest)
unfolding decode encode Option.bind
decode-encode [] rest h = refl
decode-encode (e ∷ es) rest (h, hs) =
    rw
      (
        append_assoc (elem_bits e) (encode es) rest,
        read_elem-elem_bits e (encode es ++ rest) h,
        decode-encode es rest hs,
      )
      refl

pub encode-append : (es fs : List Elem) → encode (es ++ fs) ≡ encode es ++ encode fs
unfolding encode
encode-append [] fs = refl
encode-append (e ∷ es) fs =
    rw (encode-append es fs, append_assoc (elem_bits e) (encode es) (encode fs))

-- A writer that appends exactly the elements `es`.
abbrev pub Writes : Writer → List Elem → Type 0
Writes m es = Emits m (encode es)

pub calls-Writes : (es : List Elem) → Writes (calls es) es
calls-Writes es = calls-Emits es

pub calls_then-Writes :
    (es : List Elem) {k : Writer} (fs : List Elem)
    → Writes k fs
    → Writes (calls_then es k) (es ++ fs)
calls_then-Writes es fs h = rw (encode-append es fs) (calls_then-Emits es h)

pub >>-Writes :
    {m k : Writer} (es fs : List Elem) → Writes m es → Writes k fs → Writes (m >> k) (es ++ fs)
>>-Writes es fs hm hk = rw (encode-append es fs) (>>-Emits (encode es) (encode fs) hm hk)
