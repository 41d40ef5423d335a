-- ===== src/Va/Device.antt =====
-- `db_encoder_init` and `db_encoder_destroy` of ubuntu/src/encoder.c with what they acquire and
-- release, `open_drm_render_node` and `calc_coded_buf_size`.
use display_bridge.Prelude.{ℕ, ◌*◌, ◌/◌, Bool, true, false, List, ltb, ◌==◌, if◌then◌else◌}
use display_bridge.Calls.{check, where_held, Calls, done, tell, ask, ◌>>=◌}
use display_bridge.Encoder.{Encoder}
use display_bridge.Headers.{align_ctu}
use display_bridge.Protocol.{codec_hevc}
use display_bridge.Va.{
  recon_surfaces, coded_buf, coded, VaCall, open_node, close_node, get_display, initialize,
  terminate, create_config, destroy_config, create_surfaces, destroy_surfaces, create_context,
  destroy_context, create_buffer, destroy_buffer, malloc,
}
use display_bridge.Va.Frames.{ConvBuf, free_conv}

-- `DB_ENCODER_SURFACE_POOL`
abbrev pub surface_pool : ℕ
surface_pool = 4

-- The fields of `db_encoder_t` by which it knows what it holds: whether they are valid.
pub record Handles : Type 0 where
  pub has_drm_fd : Bool
  pub has_display : Bool
  pub has_config : Bool
  pub num_recon_surfaces : ℕ
  pub has_context : Bool
  pub has_coded_buf : Bool
  pub conv : ConvBuf

-- The fields as `db_encoder_init` first sets them.
abbrev pub no_handles : Handles
no_handles = record {
  has_drm_fd = false;
  has_display = false;
  has_config = false;
  num_recon_surfaces = 0;
  has_context = false;
  has_coded_buf = false;
  conv = record { present = false; size = 0 };
}

-- The value of `db_encoder_init`, `true` for 0, and the fields.
pub record Opened : Type 0 where
  pub success : Bool
  pub held : Handles

abbrev pub opened : Handles → Calls VaCall Opened
opened h = done (record { success = true; held = h })

abbrev pub failed : Handles → Calls VaCall Opened
failed h = done (record { success = false; held = h })

-- The labels of the clean-up, each of which falls through to the next.
abbrev pub fail_drm : Handles → Calls VaCall Opened
fail_drm h = tell close_node (failed (record h { has_drm_fd = false }))

abbrev pub fail_va : Handles → Calls VaCall Opened
fail_va h = tell terminate (fail_drm h)

abbrev pub fail_config : Handles → Calls VaCall Opened
fail_config h = tell destroy_config (fail_va (record h { has_config = false }))

abbrev pub fail_surfaces : Handles → Calls VaCall Opened
fail_surfaces h = tell (destroy_surfaces recon_surfaces) (fail_config h)

abbrev pub fail_context : Handles → Calls VaCall Opened
fail_context h = tell destroy_context (fail_surfaces (record h { has_context = false }))

abbrev pub fail_coded_buf : Handles → Calls VaCall Opened
fail_coded_buf h =
    tell (destroy_buffer coded_buf) (fail_context (record h { has_coded_buf = false }))

-- `calc_coded_buf_size`
unfoldable pub calc_coded_buf_size : ℕ → ℕ → ℕ
calc_coded_buf_size width height =
    let size = width * height * 3 / 2 in
    if ltb size (4 * 1024 * 1024) then 4 * 1024 * 1024 else size

-- `open_drm_render_node`: the devices by their numbers.
unfoldable pub open_drm_render_node : Calls VaCall Bool
unfolding check
open_drm_render_node =
    ask (open_node 128) λ ok. elim ok [ true ↦ done true | false ↦ ask (open_node 129) done ]

-- `db_encoder_init` from the test of the codec on.
module _ (width height : ℕ) where
  -- The fields with the conversion buffer, which is there or not.
  abbrev pub with_conv : Handles → Bool → Handles
  with_conv h present = record h {
    conv = record { present = present; size = width * height * 3 / 2 };
  }

  unfoldable pub open_device : Calls VaCall Opened
  unfolding check
  open_device =
      let drm = record no_handles { has_drm_fd = true } in
      let display = record drm { has_display = true } in
      let config = record display { has_config = true; num_recon_surfaces = surface_pool } in
      let context = record config { has_context = true } in
      let ready = record context { has_coded_buf = true } in
      check get_display (fail_drm drm) (
        check initialize (fail_drm display) (
          check create_config (fail_va display) (
            check (create_surfaces recon_surfaces (align_ctu width) (align_ctu height))
              (fail_config config)
              (check (create_context (align_ctu width) (align_ctu height)) (fail_surfaces config) (
                check (create_buffer coded_buf (coded (calc_coded_buf_size width height)))
                  (fail_context context)
                  (check (malloc (width * height * 3 / 2)) (fail_coded_buf (with_conv ready false))
                    (opened (with_conv ready true))))))))

  -- `db_encoder_init`
  unfoldable pub init : ℕ → Calls VaCall Opened
  unfolding open_drm_render_node open_device ◌>>=◌
  init codec =
      if codec == codec_hevc
      then (open_drm_render_node >>= λ ok. elim ok [
        | true ↦ open_device
        | false ↦ failed no_handles
      ])
      else failed no_handles

-- The state of the encoder that `db_encoder_init` sets up, with the surfaces that VA-API gives.
unfoldable pub init_state : ℕ → ℕ → ℕ → ℕ → ℕ → List ℕ → Encoder
init_state width height bitrate_kbps fps codec surfaces = record {
  recon_surfaces = surfaces;
  num_recon_surfaces = surface_pool;
  current_recon_idx = 0;
  width = width;
  height = height;
  bitrate_kbps = bitrate_kbps;
  fps = fps;
  codec = codec;
  frame_count = 0;
  idr_interval = fps * 2;
}

-- `db_encoder_destroy`
unfoldable pub destroy : Handles → Calls VaCall Handles
destroy h = free_conv h.conv.present (
    where_held h.has_coded_buf (destroy_buffer coded_buf) (
      where_held h.has_context destroy_context (
        where_held (ltb 0 h.num_recon_surfaces) (destroy_surfaces recon_surfaces) (
          where_held h.has_config destroy_config (
            where_held h.has_display terminate
              (where_held h.has_drm_fd close_node (done no_handles)))))))
