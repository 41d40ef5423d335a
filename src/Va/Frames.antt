-- ===== src/Va/Frames.antt =====
-- The functions of ubuntu/src/encoder.c that encode a picture that they are given:
-- `db_encoder_encode_dmabuf`, `db_encoder_encode_nv12` and `db_encoder_encode_bgrx`, with
-- `import_dmabuf_surface`, and `db_encoder_release_frame`.
use display_bridge.Prelude.{
  ℕ, zero, suc, ◌+◌, ◌*◌, ◌/◌, Bool, true, false, not, ◌||◌, List, [], ◌∷◌, ◌++◌, ltb, u32,
}
use display_bridge.Calls.{check, Calls, done, tell, ask, ◌>>=◌}
use display_bridge.Encoder.{Encoder}
use display_bridge.Headers.{align_ctu}
use display_bridge.Colour.Picture.{convert}
use display_bridge.Va.{
  coded_buf, input, va_image_buf, Row, VaImage, PrimeDescriptor, VaCall, create_surfaces,
  import_surface, destroy_surfaces, derive_image, destroy_image, map_buffer, unmap_buffer,
  copy_rows, malloc, free, store_bytes,
}
use display_bridge.Va.Surface.{encode_surface}

-- `desc` of `import_dmabuf_surface`
unfoldable pub prime_descriptor : Encoder → ℕ → ℕ → ℕ → ℕ → PrimeDescriptor
prime_descriptor enc dmabuf_fd stride offset drm_modifier = record {
  width = u32 enc.width;
  height = u32 enc.height;
  object_fd = dmabuf_fd;
  object_size = u32 (stride * enc.height * 3) / 2;
  modifier = drm_modifier;
  offset_y = offset;
  offset_uv = u32 (offset + stride * enc.height);
  pitch = stride;
}

-- `import_dmabuf_surface`
unfoldable pub import_dmabuf_surface : Encoder → ℕ → ℕ → ℕ → ℕ → Calls VaCall Bool
unfolding prime_descriptor
import_dmabuf_surface enc dmabuf_fd stride offset drm_modifier =
    ask (import_surface (prime_descriptor enc dmabuf_fd stride offset drm_modifier)) done

-- The last lines of the functions that encode: the input surface is destroyed either way.
unfoldable pub encode_input : Encoder → Calls VaCall Bool
unfolding ◌>>=◌
encode_input enc = encode_surface enc >>= λ ret. tell (destroy_surfaces input) (done ret)

-- `db_encoder_encode_dmabuf`
unfoldable pub encode_dmabuf : Encoder → ℕ → ℕ → ℕ → ℕ → Calls VaCall Bool
unfolding import_dmabuf_surface ◌>>=◌
encode_dmabuf enc dmabuf_fd stride offset drm_modifier =
    import_dmabuf_surface enc dmabuf_fd stride offset drm_modifier >>= λ ok. elim ok [
      | true ↦ encode_input enc
      | false ↦ done false
    ]

-- The rows of a plane: the rounds left, the two positions, and by how much they move.
unfoldable pub plane_rows : ℕ → ℕ → ℕ → ℕ → ℕ → ℕ → List Row
plane_rows zero dst src pitch stride width = []
plane_rows (suc n) dst src pitch stride width =
    record { dst = dst; src = src; size = width }
    ∷ plane_rows n (dst + pitch) (src + stride) pitch stride width

-- The Y plane and the UV plane.
unfoldable pub picture_rows : Encoder → ℕ → VaImage → List Row
unfolding plane_rows
picture_rows enc stride image =
    plane_rows enc.height image.offset_y 0 image.pitch_y stride enc.width
    ++ plane_rows (enc.height / 2) image.offset_uv (u32 (stride * enc.height)) image.pitch_uv stride
        enc.width

-- `db_encoder_encode_nv12`, for the image that `vaDeriveImage` gives.
unfoldable pub encode_nv12 : Encoder → ℕ → VaImage → Calls VaCall Bool
unfolding check
encode_nv12 enc stride image =
    check (create_surfaces input (align_ctu enc.width) (align_ctu enc.height)) (done false) (
      check derive_image (tell (destroy_surfaces input) (done false)) (
        check (map_buffer va_image_buf)
          (tell destroy_image (tell (destroy_surfaces input) (done false)))
          (tell (copy_rows va_image_buf (picture_rows enc stride image))
            (tell (unmap_buffer va_image_buf) (tell destroy_image (encode_input enc))))))

-- `conv_buf`, whether there is one, and `conv_buf_size`.
pub record ConvBuf : Type 0 where
  pub present : Bool
  pub size : ℕ

-- `free(enc->conv_buf)`, which does nothing for `NULL`.
abbrev pub free_conv {ℓ} : {A : Type ℓ} → Bool → Calls VaCall A → Calls VaCall A
free_conv true next = tell free next
free_conv false next = next

abbrev pub allocated : ℕ → Bool → ConvBuf
allocated needed true = record { present = true; size = needed }
allocated needed false = record { present = false; size = 0 }

-- The first block of `db_encoder_encode_bgrx`: the buffer afterwards.
unfoldable pub ensure_conv_buf : Bool → ℕ → ConvBuf → Calls VaCall ConvBuf
ensure_conv_buf true needed conv =
    free_conv conv.present (ask (malloc needed) λ ok. done (allocated needed ok))
ensure_conv_buf false needed conv = done conv

-- `needed`
abbrev pub needed : Encoder → ℕ
needed enc = enc.width * enc.height * 3 / 2

-- The rest of it, if there is a buffer.
unfoldable pub convert_and_encode :
    Encoder → (ℕ → ℕ) → ℕ → VaImage → ConvBuf → Calls VaCall (Bool × ConvBuf)
unfolding ◌>>=◌
convert_and_encode enc bgrx stride image conv = elim conv.present [
  | true ↦
      tell (store_bytes (convert bgrx enc.width enc.height stride))
        (encode_nv12 enc (u32 enc.width) image >>= λ ret. done (ret, conv))
  | false ↦ done (false, conv)
]

-- `db_encoder_encode_bgrx`
unfoldable pub encode_bgrx :
    Encoder → ConvBuf → (ℕ → ℕ) → ℕ → VaImage → Calls VaCall (Bool × ConvBuf)
unfolding ◌>>=◌
encode_bgrx enc conv bgrx stride image =
    ensure_conv_buf (ltb conv.size (needed enc) || not conv.present) (needed enc) conv
    >>= convert_and_encode enc bgrx stride image

-- `db_encoder_release_frame`, where `coded_buf` is not `VA_INVALID_ID`.
unfoldable pub release_frame : Calls VaCall Bool
release_frame = tell (unmap_buffer coded_buf) (done true)
