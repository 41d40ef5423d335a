-- ===== src/Headers/Slice.antt =====
-- `write_slice_header` of encoder.c: what it writes, and what a parser of H.265 makes of it.
use display_bridge.Prelude.{
  ℕ, ◌%◌, ◌^◌, ◌≤◌, ◌<◌, ◌≡◌, ◌≢◌, refl, ap, ◌∙◌, arith, Bool, true, false, some, Option,
  append_assoc, List, [], ◌∷◌, ◌++◌, All, length, u32, replicate,
}
use display_bridge.Prelude.Int.{pos}
use display_bridge.Encoder.{Encoder}
use display_bridge.Bitstream.View.{bytes_bits}
use display_bridge.Bitstream.Syntax.{
  Elem, Kind, fixed, bit, golomb, signed, u, ue, se, flag, InRange, Writes, calls-Writes,
  calls_then-Writes, >>-Writes, encode, decode, decode-encode, encode-append,
}
use display_bridge.Bitstream.{bit_count, se_mapped}
use display_bridge.Bitstream.Golomb.{ue_bits}
use display_bridge.Bitstream.Sizes.{length-encode, max_bits}
use display_bridge.Bitstream.Trailing.{padding}
use display_bridge.Nal.Escape.{unescape}
use display_bridge.Headers.{slice_references, slice_body, write_slice_header}
use display_bridge.Headers.Rbsp.{Carries, rbsp-Carries}

-- The picture order count of the current frame within its period.
abbrev pub order_count : Encoder → ℕ
order_count enc = u32 (enc.frame_count % enc.idr_interval)

-- What the function writes. Only the 12 low bits of the order count have room.
abbrev pub reference_table : ℕ → List Elem
reference_table poc = fixed poc 12 ∷ bit 0 ∷ golomb 1 ∷ golomb 0 ∷ golomb 0 ∷ bit 1 ∷ []

abbrev pub slice_table : ℕ → Bool → List Elem
slice_table poc true = bit 1 ∷ bit 0 ∷ golomb 0 ∷ golomb 2 ∷ signed (pos 0) ∷ []
slice_table poc false =
    (bit 1 ∷ golomb 0 ∷ golomb 1 ∷ []) ++ (reference_table poc ++ (bit 0 ∷ signed (pos 0) ∷ []))

slice_body-Writes :
    (enc : Encoder) (is_idr : Bool)
    → Writes (slice_body enc is_idr) (slice_table (order_count enc) is_idr)
unfolding slice_body slice_references
slice_body-Writes enc true = calls-Writes (slice_table (order_count enc) true)
slice_body-Writes enc false =
    calls_then-Writes (bit 1 ∷ golomb 0 ∷ golomb 1 ∷ [])
      (reference_table (order_count enc) ++ (bit 0 ∷ signed (pos 0) ∷ []))
      (>>-Writes (reference_table (order_count enc)) (bit 0 ∷ signed (pos 0) ∷ [])
        (calls-Writes (reference_table (order_count enc)))
        (calls-Writes (bit 0 ∷ signed (pos 0) ∷ [])))

pub max_bits-slice_table : (poc : ℕ) (is_idr : Bool) → max_bits (slice_table poc is_idr) ≤ 1000
max_bits-slice_table poc true = omega arith
max_bits-slice_table poc false = omega arith

slice_table_ranges : (poc : ℕ) (is_idr : Bool) → poc < 2 ^ 12 → All InRange (slice_table poc is_idr)
slice_table_ranges poc true h = omega arith
slice_table_ranges poc false h = omega arith

-- For an order count of at most 12 bits the slice header holds exactly the elements of the table
-- above, and is written inside its buffer.
pub write_slice_header-Carries :
    (enc : Encoder) (is_idr : Bool)
    → order_count enc < 2 ^ 12
    → Carries (slice_table (order_count enc) is_idr) (write_slice_header enc is_idr)
unfolding write_slice_header
write_slice_header-Carries enc is_idr h =
    rbsp-Carries 255 (slice_body enc is_idr) (slice_table (order_count enc) is_idr)
      (slice_body-Writes enc is_idr)
      (omega (
        arith,
        length-encode (slice_table (order_count enc) is_idr),
        max_bits-slice_table (order_count enc) is_idr,
      ))
      (slice_table_ranges (order_count enc) is_idr h)

-- The descriptors of a P slice up to its reference picture set, clauses 7.3.6.1 and 7.3.7, and the
-- elements of one short-term reference before the current picture, which is in use: the order count
-- of the picture and `delta_poc_s0_minus1`.
abbrev pub reference_kinds : List Kind
reference_kinds = flag ∷ ue ∷ ue ∷ u 12 ∷ flag ∷ ue ∷ ue ∷ ue ∷ flag ∷ []

abbrev pub reference_elements : ℕ → ℕ → List Elem
reference_elements poc delta =
    bit 1
    ∷ golomb 0
    ∷ golomb 1
    ∷ fixed poc 12
    ∷ bit 0
    ∷ golomb 1
    ∷ golomb 0
    ∷ golomb delta
    ∷ bit 1
    ∷ []

-- What a parser of H.265 finds of references in a slice header.
pub record Refers (poc delta : ℕ) (r : Option (List ℕ)) : Type 0 where
  pub bytes : List ℕ
  pub returns : r ≡ some bytes
  pub rest : List ℕ
  pub decodes :
      decode reference_kinds (bytes_bits (unescape bytes))
      ≡ some (reference_elements poc delta, rest)

pub write_slice_header-Refers :
    (enc : Encoder)
    → order_count enc < 2 ^ 12
    → Refers (order_count enc) 0 (write_slice_header enc false)
write_slice_header-Refers enc h =
    let c = write_slice_header-Carries enc false h in
    let front = reference_elements (order_count enc) 0 in
    let back : List Elem = bit 0 ∷ signed (pos 0) ∷ [] in
    let close : List ℕ =
      1 ∷ replicate (padding (length (encode (slice_table (order_count enc) false)))) 0 in
    let bits : bytes_bits (unescape c.bytes) ≡ encode front ++ (encode back ++ close) =
      c.content
      ∙ ap (λ b. b ++ close) (encode-append front back)
      ∙ append_assoc (encode front) (encode back) close in
    record {
      bytes = c.bytes;
      returns = c.returns;
      rest = encode back ++ close;
      decodes =
          ap (decode reference_kinds) bits
          ∙ decode-encode front (encode back ++ close) (omega arith);
    }

-- The descriptors of clause 7.3.6.1 under the parameter sets of `write_sps` and `write_pps`, up to
-- `byte_alignment()`. A P slice has `five_minus_max_num_merge_cand` before `slice_qp_delta`; and as
-- the PPS sets `pps_loop_filter_across_slices_enabled_flag` and leaves deblocking on, every slice
-- has `slice_loop_filter_across_slices_enabled_flag` after it.
abbrev pub slice_kinds : Bool → List Kind
slice_kinds true = flag ∷ flag ∷ ue ∷ ue ∷ se ∷ flag ∷ []
slice_kinds false = flag ∷ ue ∷ ue ∷ u 12 ∷ flag ∷ ue ∷ ue ∷ ue ∷ flag ∷ flag ∷ ue ∷ se ∷ flag ∷ []

-- The elements that such a parser finds, and the bits that it leaves.
abbrev pub parsed : ℕ → Bool → List Elem × List ℕ
parsed poc true = (slice_table poc true ++ (bit 1 ∷ []), [])
parsed poc false = (
  (bit 1 ∷ golomb 0 ∷ golomb 1 ∷ [])
      ++ (reference_table poc ++ (bit 0 ∷ golomb 0 ∷ signed (pos 0) ∷ bit 0 ∷ [])),
  replicate 4 0,
)

-- The bits of a slice header up to the end of its last byte.
abbrev closed_bits : ℕ → Bool → List ℕ
closed_bits poc is_idr =
    encode (slice_table poc is_idr)
    ++ (1 ∷ replicate (padding (length (encode (slice_table poc is_idr)))) 0)

closed_bits-parsed :
    (poc : ℕ) (is_idr : Bool)
    → closed_bits poc is_idr ≡ encode (parsed poc is_idr).0 ++ (parsed poc is_idr).1
unfolding encode ue_bits bit_count se_mapped
closed_bits-parsed poc true = refl
closed_bits-parsed poc false = refl

no_stop_bit : (poc : ℕ) (is_idr : Bool) (rest : List ℕ) → (parsed poc is_idr).1 ≢ 1 ∷ rest
no_stop_bit poc true rest = ground arith
no_stop_bit poc false rest = ground arith

parse :
    (poc : ℕ) (is_idr : Bool)
    → poc < 2 ^ 12
    → decode (slice_kinds is_idr) (closed_bits poc is_idr) ≡ some (parsed poc is_idr)
parse poc true h =
    rw (closed_bits-parsed poc true) (decode-encode (parsed poc true).0 [] (omega arith))
parse poc false h =
    rw (closed_bits-parsed poc false)
      (decode-encode (parsed poc false).0 (replicate 4 0) (omega arith))

-- A parser of H.265 reads every slice header whose order count has at most 12 bits to the end
-- without finding the stop bit of `byte_alignment()` where it has to stand: what is left does not
-- begin with a one.
pub write_slice_header_misparsed :
    (enc : Encoder) (is_idr : Bool)
    → order_count enc < 2 ^ 12
    → (bytes : List ℕ) × (write_slice_header enc is_idr ≡ some bytes)
      × (decode (slice_kinds is_idr) (bytes_bits (unescape bytes))
          ≡ some (parsed (order_count enc) is_idr))
      × ((rest : List ℕ) → (parsed (order_count enc) is_idr).1 ≢ 1 ∷ rest)
write_slice_header_misparsed enc is_idr h =
    let c = write_slice_header-Carries enc is_idr h in
    (
      c.bytes,
      c.returns,
      ap (decode (slice_kinds is_idr)) c.content ∙ parse (order_count enc) is_idr h,
      no_stop_bit (order_count enc) is_idr,
    )
