-- ===== src/Screencast/Stream.antt =====
-- The callbacks of the PipeWire stream in ubuntu/src/capture.c, and `db_capture_start` and
-- `db_capture_stop`. What PipeWire hands over is an argument.
use display_bridge.Prelude.{
  ℕ, Bool, true, false, not, ◌&&◌, ◌||◌, Option, none, some, List, [], ◌∷◌, ◌++◌, ltb,
  if◌then◌else◌,
}

-- `struct spa_video_info_raw`, the size and the format of the pixels.
pub record VideoInfo : Type 0 where
  pub width : ℕ
  pub height : ℕ
  pub format : ℕ

-- The fields of `struct db_capture` that the callbacks use; `none` is `video_info_valid = 0`.
pub record StreamState : Type 0 where
  pub video_info : Option VideoInfo
  pub has_callback : Bool
  pub running : Bool

-- The data of `spa_buffer`: a DMA-BUF by its file descriptor; memory by whether `frame_data` is not
-- `NULL`, with the size and the stride of the chunk; and the other types.
pub data SpaData : Type 0 where
  dma_buf : ℕ → SpaData
  mem_ptr mem_fd : Bool → ℕ → ℕ → SpaData
  other_data : SpaData

-- A buffer of the stream, by its number, and its data, if there is any.
pub record PwBuffer : Type 0 where
  pub number : ℕ
  pub contents : Option SpaData

-- What the callbacks ask for. `frame has_data width height stride` is a call of the callback of
-- main.c; `update_params` tells PipeWire the kinds of buffers for a picture of this size.
pub data StreamCall : Type 0 where
  dequeued queued : ℕ → StreamCall
  frame : Bool → ℕ → ℕ → ℕ → StreamCall
  update_params : ℕ → ℕ → StreamCall
  quit : StreamCall

-- What `spa_format_video_parse` makes of a parameter.
pub data Parsed : Type 0 where
  parse_error not_raw : Parsed
  raw : VideoInfo → Parsed

-- A change of the state, and what is asked for.
pub record Reaction : Type 0 where
  pub after : StreamState
  pub calls : List StreamCall

abbrev pub ignore : StreamState → Reaction
ignore s = record { after = s; calls = [] }

abbrev react_parsed : StreamState → Parsed → Reaction
react_parsed s parse_error = ignore s
react_parsed s not_raw = ignore s
react_parsed s (raw info) = record {
  after = record s { video_info = some info };
  calls = update_params info.width info.height ∷ [];
}

-- `on_stream_param_changed`: whether there is a parameter and whether its id is that of a format.
unfoldable pub on_stream_param_changed : StreamState → Bool → Bool → Parsed → Reaction
on_stream_param_changed s present is_format parsed =
    if not present || not is_format then ignore s else react_parsed s parsed

-- The frame of memory that is mapped.
abbrev pub memory_frame : StreamState → VideoInfo → Bool → ℕ → ℕ → List StreamCall
memory_frame s info has_data size stride =
    if ltb 0 size && (has_data && s.has_callback)
    then frame true info.width info.height stride ∷ []
    else []

-- The call of the callback, for data and a format.
abbrev pub deliver : StreamState → VideoInfo → SpaData → List StreamCall
deliver s info (dma_buf fd) =
    if s.has_callback then frame false info.width info.height fd ∷ [] else []
deliver s info (mem_ptr has_data size stride) = memory_frame s info has_data size stride
deliver s info (mem_fd has_data size stride) = memory_frame s info has_data size stride
deliver s info other_data = []

abbrev pub delivered : StreamState → Option VideoInfo → Option SpaData → List StreamCall
delivered s info none = []
delivered s none (some d) = []
delivered s (some info) (some d) = deliver s info d

-- `on_stream_process`; `none` is that there is no buffer to dequeue.
unfoldable pub on_stream_process : StreamState → Option PwBuffer → Reaction
on_stream_process s none = ignore s
on_stream_process s (some b) = record {
  after = s;
  calls = dequeued b.number ∷ (delivered s s.video_info b.contents ++ (queued b.number ∷ []));
}

-- `on_stream_state_changed`: whether the new state is an error.
unfoldable pub on_stream_state_changed : StreamState → Bool → Reaction
on_stream_state_changed s true = record { after = record s { running = false }; calls = quit ∷ [] }
on_stream_state_changed s false = ignore s

-- `db_capture_start` before its loop, and `db_capture_stop`, with a PipeWire loop.
unfoldable pub capture_start : StreamState → Reaction
capture_start s = record { after = record s { running = true }; calls = [] }

unfoldable pub capture_stop : StreamState → Reaction
capture_stop s = record { after = record s { running = false }; calls = quit ∷ [] }

-- What happens to a stream.
pub data StreamEvent : Type 0 where
  param_changed : Bool → Bool → Parsed → StreamEvent
  process : Option PwBuffer → StreamEvent
  state_changed : Bool → StreamEvent
  stopped : StreamEvent

abbrev pub handle : StreamState → StreamEvent → Reaction
handle s (param_changed present is_format parsed) =
    on_stream_param_changed s present is_format parsed
handle s (process buffer) = on_stream_process s buffer
handle s (state_changed is_error) = on_stream_state_changed s is_error
handle s stopped = capture_stop s

-- A run of the stream, from what `db_capture_start` leaves.
unfoldable pub events : StreamState → List StreamEvent → StreamState × List StreamCall
events s [] = (s, [])
events s (e ∷ es) =
    let rest = events (handle s e).after es in (rest.0, (handle s e).calls ++ rest.1)
