-- ===== src/Tools/SetMode.antt =====
-- tools/set_mode.c
use display_bridge.Prelude.{ℕ, ◌+◌, true, false, List, [], ◌∷◌, ◌==◌, if◌then◌else◌, bit_or}
use display_bridge.Calls.{Calls, done, tell, ask, check, where_held, ◌>>=◌}
use display_bridge.Tools.{
  Mode, Connector, connector_virtual, ToolCall, open_card, close_card, set_master, drop_master,
  get_resources, free_resources, read_resources, read_connector, read_encoder, read_crtc,
  get_connector, free_connector, get_encoder, free_encoder, get_crtc, free_crtc, set_crtc,
}

-- `make_2880x1800_mode`, with DRM_MODE_FLAG_NHSYNC, DRM_MODE_FLAG_PVSYNC and
-- DRM_MODE_TYPE_USERDEF of libdrm.
unfoldable pub make_2880x1800_mode : ℕ → ℕ → ℕ → Mode
make_2880x1800_mode nhsync pvsync userdef = record {
  clock = 333790;
  hdisplay = 2880;
  hsync_start = 2928;
  hsync_end = 2960;
  htotal = 3040;
  vdisplay = 1800;
  vsync_start = 1803;
  vsync_end = 1809;
  vtotal = 1830;
  vrefresh = 60;
  flags = bit_or nhsync pvsync;
  kind = userdef;
}

-- What libdrm reports of the card: its connectors, its CRTCs and the CRTC of an encoder.
pub record Card : Type 0 where
  pub connectors : List Connector
  pub crtcs : List ℕ
  pub crtc_of : ℕ → ℕ

-- `conn_id` and `enc_id`
pub record Chosen : Type 0 where
  pub conn_id : ℕ
  pub enc_id : ℕ

abbrev pub none_chosen : Chosen
none_chosen = record { conn_id = 0; enc_id = 0 }

abbrev pub choose : Chosen → Connector → Chosen
choose f c =
    if c.connector_type == connector_virtual
    then record { conn_id = c.connector_id; enc_id = c.encoder_id }
    else f

-- The loop over the connectors, from the `i`th on.
unfoldable pub find_virtual : ℕ → List Connector → Chosen → Calls ToolCall Chosen
find_virtual i [] f = tell read_resources (done f)
find_virtual i (c ∷ cs) f = tell read_resources (
    ask (get_connector i) λ ok. elim ok [
      | true ↦ tell read_connector (tell free_connector (find_virtual (i + 1) cs (choose f c)))
      | false ↦ find_virtual (i + 1) cs f
    ])

-- The tool ends with the value of `main`.
abbrev pub gives_up : Calls ToolCall ℕ
gives_up = tell free_resources (tell close_card (done 1))

-- From `drmModeGetCrtc` on.
unfoldable pub set_on : Mode → ℕ → ℕ → Calls ToolCall ℕ
set_on mode conn_id crtc_id = ask (get_crtc crtc_id) λ shown. where_held shown read_crtc (
    where_held shown free_crtc (
      ask (set_crtc crtc_id conn_id mode) λ ok.
        tell drop_master (tell free_resources (tell close_card (done (if ok then 0 else 1))))))

-- The CRTC of the encoder, or else the first one, or else 0.
abbrev pub first_crtc : List ℕ → ℕ
first_crtc [] = 0
first_crtc (crtc ∷ crtcs) = crtc

abbrev pub pick_crtc : Card → ℕ → ℕ
pick_crtc card via = if via == 0 then first_crtc card.crtcs else via

unfoldable pub crtc_via : Card → ℕ → Calls ToolCall ℕ
crtc_via card enc_id =
    if enc_id == 0
    then done 0
    else (ask (get_encoder enc_id) λ ok. elim ok [
      | true ↦ tell read_encoder (tell free_encoder (done (card.crtc_of enc_id)))
      | false ↦ done 0
    ])

abbrev pub set_or_give_up : Mode → ℕ → ℕ → Calls ToolCall ℕ
set_or_give_up mode conn_id crtc_id = if crtc_id == 0 then gives_up else set_on mode conn_id crtc_id

-- With the CRTC of the encoder, or 0: the lists are read again if there is none.
abbrev pub with_crtc : Card → Mode → ℕ → ℕ → Calls ToolCall ℕ
with_crtc card mode conn_id via =
    where_held (via == 0) read_resources (set_or_give_up mode conn_id (pick_crtc card via))

-- After the loop.
unfoldable pub with_chosen : Card → Mode → Chosen → Calls ToolCall ℕ
unfolding crtc_via set_on ◌>>=◌
with_chosen card mode f =
    if f.conn_id == 0
    then gives_up
    else crtc_via card f.enc_id >>= λ via. with_crtc card mode f.conn_id via

-- `main`: a failure of `drmSetMaster` is only reported.
unfoldable pub set_mode : Card → Mode → Calls ToolCall ℕ
unfolding check find_virtual with_chosen ◌>>=◌
set_mode card mode = check open_card (done 1) (
    ask set_master λ is_master.
      check get_resources (tell close_card (done 1))
        (find_virtual 0 card.connectors none_chosen >>= λ f. with_chosen card mode f))
