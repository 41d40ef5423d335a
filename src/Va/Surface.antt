-- ===== src/Va/Surface.antt =====
-- `encode_surface` of ubuntu/src/encoder.c.
use display_bridge.Prelude.{Bool, true, false, [], ◌∷◌}
use display_bridge.Calls.{check, Calls, done, tell, ◌>>=◌}
use display_bridge.Encoder.{Encoder}
use display_bridge.Gop.{is_idr, recon_surface, ref_surface}
use display_bridge.Params.{fill_pic_param, fill_slice_param}
use display_bridge.Params.Sequence.{fill_seq_param}
use display_bridge.Va.{
  Handle, coded_buf, seq_buf, pic_buf, slice_buf, Contents, sequence, picture, slice, VaCall,
  create_buffer, map_buffer, destroy_buffer, begin_picture, end_picture, sync_surface,
  render_picture,
}
use display_bridge.Va.Submit.{
  submit_packed_sequence_headers, submit_packed_slice_header, submit_rate_control, submit_hrd_param,
  submit_framerate_param,
}

-- A parameter buffer, whose `VA_CHECK`s go to `fail_end`: the result is whether they passed.
unfoldable pub submit_param : Handle → Contents → Calls VaCall Bool
unfolding check
submit_param h contents =
    check (create_buffer h contents) (done false)
      (check (render_picture (h ∷ [])) (done false) (tell (destroy_buffer h) (done true)))

-- `fail_end` and `fail`.
abbrev pub fail_end : Calls VaCall Bool
fail_end = tell end_picture (done false)

-- The rest of the picture, or `fail_end`.
unfoldable pub or_fail_end : Calls VaCall Bool → Calls VaCall Bool → Calls VaCall Bool
or_fail_end p next = p >>= λ ok. elim ok [ true ↦ next | false ↦ fail_end ]

-- A submission whose status is only logged, or not read.
infixr 5 ◌then_also◌
unfoldable pub ◌then_also◌ : Calls VaCall Bool → Calls VaCall Bool → Calls VaCall Bool
p then_also next = p >>= λ st. next

-- What is submitted for an IDR picture only.
unfoldable pub submit_sequence : Encoder → Bool → Calls VaCall Bool
submit_sequence enc false = done true
submit_sequence enc true = submit_param seq_buf (sequence (fill_seq_param enc)) >>= λ ok. elim ok [
  | true ↦ submit_packed_sequence_headers enc then_also done true
  | false ↦ done false
]

-- From the end of the picture on.
unfoldable pub finish_picture : Calls VaCall Bool
unfolding check
finish_picture =
    check end_picture (done false)
      (check sync_surface (done false) (check (map_buffer coded_buf) (done false) (done true)))

-- `encode_surface`: whether it returns 0. It changes the state of the encoder by `Gop.advance`, and
-- its output is the segment of the coded buffer that it maps.
unfoldable pub encode_surface : Encoder → Calls VaCall Bool
unfolding check
encode_surface enc =
    let idr = is_idr enc in
    let pic = fill_pic_param enc (recon_surface enc) (ref_surface enc) idr in
    let slice_param = fill_slice_param enc (ref_surface enc) idr in
    check begin_picture (done false) (
      or_fail_end (submit_sequence enc idr) (
        submit_rate_control enc
        then_also submit_hrd_param enc
        then_also submit_framerate_param enc
        then_also or_fail_end (submit_param pic_buf (picture pic)) (
            submit_packed_slice_header enc idr
            then_also or_fail_end (submit_param slice_buf (slice slice_param)) finish_picture)))
