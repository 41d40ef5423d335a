-- ===== src/Va.antt =====
-- The calls that ubuntu/src/encoder.c makes of VA-API, of the DRM node and of the allocator, and the
-- rules of those libraries. What the code holds goes by the name of its variable.
pub mod Rules
pub mod Submit
pub mod Surface
pub mod Frames
pub mod Device
pub mod Bracket
pub mod Rows
pub mod Lifetime
pub mod Opening
use display_bridge.Prelude.{ℕ, Bool, true, false, List}
use display_bridge.Params.{PicParam, SliceParam}
use display_bridge.Params.Sequence.{SeqParam}

pub data Handle : Type 0 where
  drm_fd va_display config_id recon_surfaces context_id coded_buf conv_buf : Handle
  input va_image va_image_buf : Handle
  seq_buf param_buf data_buf rc_buf hrd_buf fr_buf pic_buf slice_buf : Handle

-- `VAEncMiscParameterRateControl`, the fields that the code sets.
pub record RateControl : Type 0 where
  pub bits_per_second : ℕ
  pub target_percentage : ℕ
  pub window_size : ℕ
  pub initial_qp : ℕ
  pub min_qp : ℕ
  pub basic_unit_size : ℕ
  pub reset : ℕ
  pub disable_frame_skip : ℕ
  pub disable_bit_stuffing : ℕ

-- The types of packed headers that the code names.
pub data HeaderType : Type 0 where
  packed_sequence packed_slice : HeaderType

-- What a buffer of VA-API holds: its type, and the structure in it.
pub data Contents : Type 0 where
  sequence : SeqParam → Contents
  picture : PicParam → Contents
  slice : SliceParam → Contents
  -- The bit length, and the bytes.
  packed_param : HeaderType → ℕ → Contents
  packed_data : ℕ → List ℕ → Contents
  misc_parameter : Contents
  rate_control : RateControl → Contents
  -- `initial_buffer_fullness` and `buffer_size`.
  hrd : ℕ → ℕ → Contents
  frame_rate : ℕ → Contents
  coded : ℕ → Contents

-- `memcpy` of a row: offsets in the destination and in the source, and the number of bytes.
pub record Row : Type 0 where
  pub dst : ℕ
  pub src : ℕ
  pub size : ℕ

-- `VAImage`, as `vaDeriveImage` fills it in.
pub record VaImage : Type 0 where
  pub offset_y : ℕ
  pub offset_uv : ℕ
  pub pitch_y : ℕ
  pub pitch_uv : ℕ

-- The planes of a buffer that is imported: `desc` of `import_dmabuf_surface`.
pub record PrimeDescriptor : Type 0 where
  pub width : ℕ
  pub height : ℕ
  pub object_fd : ℕ
  pub object_size : ℕ
  pub modifier : ℕ
  pub offset_y : ℕ
  pub offset_uv : ℕ
  pub pitch : ℕ

pub data VaCall : Type 0 where
  open_node : ℕ → VaCall
  close_node get_display initialize terminate create_config destroy_config : VaCall
  create_surfaces : Handle → ℕ → ℕ → VaCall
  import_surface : PrimeDescriptor → VaCall
  destroy_surfaces : Handle → VaCall
  create_context : ℕ → ℕ → VaCall
  destroy_context : VaCall
  derive_image destroy_image : VaCall
  create_buffer : Handle → Contents → VaCall
  map_buffer unmap_buffer destroy_buffer : Handle → VaCall
  -- A store into mapped memory.
  fill : Handle → Contents → VaCall
  copy_rows : Handle → List Row → VaCall
  begin_picture end_picture sync_surface : VaCall
  render_picture : List Handle → VaCall
  malloc : ℕ → VaCall
  free : VaCall
  -- Stores of bytes into the conversion buffer: offsets and values.
  store_bytes : List (ℕ × ℕ) → VaCall
  -- A store outside an array.
  stray_store : VaCall
