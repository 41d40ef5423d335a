-- ===== src/Tools.antt =====
-- The tools of the repository, tools/set_mode.c and tools/inject_edid.c, which ask the DRM node for
-- the virtual connector: their calls of libdrm and of the C library, and where they read the fields of
-- what libdrm gave. What libdrm reports, and the
-- numbers of its header, are arguments.
pub mod SetMode
pub mod InjectEdid
pub mod Rules
pub mod Lifetime
pub mod Search
pub mod Choice
use display_bridge.Prelude.{ℕ, Bool, List}

-- The fields of `drmModeModeInfo`, but for the name.
pub record Mode : Type 0 where
  pub clock : ℕ
  pub hdisplay : ℕ
  pub hsync_start : ℕ
  pub hsync_end : ℕ
  pub htotal : ℕ
  pub vdisplay : ℕ
  pub vsync_start : ℕ
  pub vsync_end : ℕ
  pub vtotal : ℕ
  pub vrefresh : ℕ
  pub flags : ℕ
  pub kind : ℕ

-- The size of a mode, as far as inject_edid.c looks at it.
pub record Size : Type 0 where
  pub hdisplay : ℕ
  pub vdisplay : ℕ

-- `drmModePropertyRes`: the number and the name.
pub record Property : Type 0 where
  pub prop_id : ℕ
  pub prop_name : List ℕ

-- The fields of `drmModeConnector` that the tools read.
pub record Connector : Type 0 where
  pub connector_type : ℕ
  pub connector_id : ℕ
  pub encoder_id : ℕ
  pub modes : List Size
  pub props : List Property

-- `DRM_MODE_CONNECTOR_VIRTUAL`
abbrev pub connector_virtual : ℕ
connector_virtual = 15

pub data ToolCall : Type 0 where
  -- `open("/dev/dri/card0")`
  open_card close_card : ToolCall
  set_master drop_master : ToolCall
  get_resources free_resources : ToolCall
  -- That fields are read of what the library gave.
  read_resources read_connector read_encoder read_crtc read_property : ToolCall
  -- By the place in the list of connectors.
  get_connector : ℕ → ToolCall
  -- By the number of a connector, `drmModeGetConnector` and `drmModeGetConnectorCurrent`.
  probe_connector current_connector : ℕ → ToolCall
  free_connector : ToolCall
  get_encoder : ℕ → ToolCall
  free_encoder : ToolCall
  get_crtc : ℕ → ToolCall
  free_crtc : ToolCall
  -- The CRTC, the connector and the mode.
  set_crtc : ℕ → ℕ → Mode → ToolCall
  get_property : ℕ → ToolCall
  free_property : ToolCall
  -- The file with the EDID.
  open_file read_file close_file : ToolCall
