-- ===== src/Va/Rows.antt =====
-- The bounds of the copies into the image by `db_encoder_encode_nv12`.
use mathlib.Core.List.{Memᴰ}
use display_bridge.Prelude.{
  ℕ, zero, suc, ◌+◌, ◌*◌, ◌/◌, ◌^◌, ◌≤◌, ◌<◌, ◌≡◌, ap, arith, List, [], ◌∷◌, ◌++◌, ◌⊎◌, inl, inr,
  u32,
}
use display_bridge.Encoder.{Encoder}
use display_bridge.Va.{Row, VaImage}
use display_bridge.Va.Frames.{plane_rows, picture_rows}

-- A row between two positions of the destination and of the source.
record IsWithin (r : Row) (dst_end src_end : ℕ) : Type 0 where
  written : r.dst + r.size ≤ dst_end
  read : r.src + r.size ≤ src_end

plane_rows-IsWithin :
    (n dst src pitch stride width : ℕ) (r : Row)
    → width ≤ pitch
    → width ≤ stride
    → Memᴰ r (plane_rows n dst src pitch stride width)
    → IsWithin r (dst + n * pitch) (src + n * stride)
unfolding plane_rows
plane_rows-IsWithin zero dst src pitch stride width r h k m = elim m [ ]
plane_rows-IsWithin (suc n) dst src pitch stride width r h k (Memᴰ.head e) =
    let to : r.dst ≡ dst = ap (λ (x : Row). x.dst) e in
    let from : r.src ≡ src = ap (λ (x : Row). x.src) e in
    let size : r.size ≡ width = ap (λ (x : Row). x.size) e in
    record { written = omega (arith, to, size); read = omega (arith, from, size) }
plane_rows-IsWithin (suc n) dst src pitch stride width r h k (Memᴰ.tail m) =
    let rest = plane_rows-IsWithin n (dst + pitch) (src + stride) pitch stride width r h k m in
    record { written = omega (arith, rest.written); read = omega (arith, rest.read) }

mem_append : {A : Type 0} (xs ys : List A) (a : A) → Memᴰ a (xs ++ ys) → Memᴰ a xs ⊎ Memᴰ a ys
mem_append [] ys a m = inr m
mem_append (x ∷ xs) ys a (Memᴰ.head e) = inl (Memᴰ.head e)
mem_append (x ∷ xs) ys a (Memᴰ.tail m) = elim (mem_append xs ys a m) [
  | inl l ↦ inl (Memᴰ.tail l)
  | inr l ↦ inr l
]

-- `db_encoder_encode_nv12` copies inside its buffers: for a picture whose rows fit the stride of the
-- data and the pitches of the image, whose planes lie within the `size` bytes of the image, and
-- whose Y plane has less than `2 ^ 32` bytes, each row that is copied ends within the image, and
-- within the `height * 3 / 2` rows of the data (with the height halved first).
pub picture_rows_bounds :
    (enc : Encoder) (stride size : ℕ) (image : VaImage) (r : Row)
    → enc.width ≤ stride
    → enc.width ≤ image.pitch_y
    → enc.width ≤ image.pitch_uv
    → image.offset_y + enc.height * image.pitch_y ≤ size
    → image.offset_uv + enc.height / 2 * image.pitch_uv ≤ size
    → stride * enc.height < 2 ^ 32
    → Memᴰ r (picture_rows enc stride image)
    → (r.dst + r.size ≤ size) × (r.src + r.size ≤ stride * enc.height + enc.height / 2 * stride)
unfolding picture_rows
picture_rows_bounds enc stride size image r fits fits_y fits_uv room_y room_uv small m =
    elim (mem_append (plane_rows enc.height image.offset_y 0 image.pitch_y stride enc.width)
      (plane_rows (enc.height / 2) image.offset_uv (u32 (stride * enc.height)) image.pitch_uv stride
        enc.width)
      r m) [
        | inl l ↦
            let k =
              plane_rows-IsWithin enc.height image.offset_y 0 image.pitch_y stride enc.width r
                fits_y fits l in
            (omega (arith, k.written, room_y), omega (arith, k.read))
        | inr l ↦
            let k =
              plane_rows-IsWithin (enc.height / 2) image.offset_uv (u32 (stride * enc.height))
                image.pitch_uv stride enc.width r fits_uv fits l in
            (omega (arith, k.written, room_uv), omega (arith, k.read, small))
      ]
