-- ===== src/Gop/References.antt =====
-- Every P picture refers to the picture that was encoded last, and a forced IDR picture comes at
-- once.
use native.Mathlib.Nat.{div-add-mod', mul-mod_left, mod-eq_of_lt, mod-lt}
use display_bridge.Prelude.{
  ℕ, ◌+◌, ◌-◌, ◌*◌, ◌/◌, ◌%◌, ◌^◌, ◌≤◌, ◌<◌, ◌≡◌, ◌≢◌, refl, sym, ap, ◌∙◌, arith, Bool, true, false,
  Option, none, some, List, [], ◌∷◌, ==_iff, if◌then◌else◌, get_elem?, Bool-cases, inl, inr, subst,
  ◌⊎◌,
}
use display_bridge.Encoder.{Encoder}
use display_bridge.Gop.{is_idr, prev_recon, ref_surface, advance, force_idr}

-- `DB_ENCODER_SURFACE_POOL` surfaces, as `db_encoder_init` makes them.
pub record IsValid (enc : Encoder) : Type 0 where
  pub pool : enc.num_recon_surfaces ≡ 4
  pub in_pool : enc.current_recon_idx < 4

-- A call of the encoder: a frame, with whether the hardware encodes it, or a forced IDR picture.
pub data Call : Type 0 where
  encode : Bool → Call
  force : Call

-- The index of the surface that the last encoded picture was reconstructed into.
abbrev pub last_recon : Option ℕ → Encoder → Call → Option ℕ
last_recon last enc (encode true) = some enc.current_recon_idx
last_recon last enc (encode false) = last
last_recon last enc force = last

abbrev pub call : Encoder → Call → Encoder
call enc (encode ok) = advance enc ok
call enc force = force_idr enc

abbrev pub calls : Option ℕ → Encoder → List Call → Option ℕ × Encoder
calls last enc [] = (last, enc)
calls last enc (c ∷ cs) = calls (last_recon last enc c) (call enc c) cs

-- The surface of an index in the pool, if there is one.
abbrev pub surface_of : Encoder → Option ℕ → Option ℕ
surface_of enc none = none
surface_of enc (some i) = get_elem? enc.recon_surfaces i

-- The frame count stands at an IDR picture, or the last picture is in the surface before the
-- current one.
abbrev Follows : Option ℕ → Encoder → Type 0
Follows last enc = (is_idr enc ≡ true) ⊎ (last ≡ some (prev_recon enc))

next_prev : (enc : Encoder) → IsValid enc → prev_recon (advance enc true) ≡ enc.current_recon_idx
unfolding advance
next_prev enc v = rw v.pool (omega (arith, v.in_pool))

call-IsValid : (enc : Encoder) (c : Call) → IsValid enc → IsValid (call enc c)
unfolding advance force_idr
call-IsValid enc (encode true) v = record { pool = v.pool; in_pool = rw v.pool (omega arith) }
call-IsValid enc (encode false) v = v
call-IsValid enc force v = ground (arith, v.pool, v.in_pool)

force_idr-idle : (enc : Encoder) → is_idr enc ≡ true → force_idr enc ≡ enc
unfolding force_idr
force_idr-idle enc e = rw e refl

force_idr-Follows :
    (last : Option ℕ) (enc : Encoder) → Follows last enc → Follows last (force_idr enc)
unfolding force_idr
force_idr-Follows last enc (inl e) =
    inl (subst (λ (x : Encoder). is_idr x ≡ true) (sym (force_idr-idle enc e)) e)
force_idr-Follows last enc (inr e) = inr (e ∙ ap some (same_prev enc))
  where
    same_prev : (enc : Encoder) → prev_recon enc ≡ prev_recon (force_idr enc)
    same_prev enc = ground arith

call-Follows :
    (last : Option ℕ) (enc : Encoder) (c : Call)
    → IsValid enc
    → Follows last enc
    → Follows (last_recon last enc c) (call enc c)
call-Follows last enc (encode true) v f = inr (ap some (sym (next_prev enc v)))
call-Follows last enc (encode false) v f = unfold advance in f
call-Follows last enc force v f = force_idr-Follows last enc f

calls-Follows :
    (cs : List Call) (last : Option ℕ) (enc : Encoder)
    → IsValid enc
    → Follows last enc
    → Follows (calls last enc cs).0 (calls last enc cs).1 × IsValid (calls last enc cs).1
calls-Follows [] last enc v f = (f, v)
calls-Follows (c ∷ cs) last enc v f =
    calls-Follows cs (last_recon last enc c) (call enc c) (call-IsValid enc c v)
      (call-Follows last enc c v f)

first_frame : (enc : Encoder) → enc.frame_count ≡ 0 → is_idr enc ≡ true
first_frame enc e =
    let multiple : enc.frame_count ≡ 0 * enc.idr_interval = omega arith in
    (==_iff (enc.frame_count % enc.idr_interval) 0).1
      (ap (λ (t : ℕ). t % enc.idr_interval) multiple ∙ mul-mod_left 0 enc.idr_interval)

other_slot : (enc : Encoder) → IsValid enc → enc.current_recon_idx ≢ prev_recon enc
other_slot enc v e =
    let prev : prev_recon enc ≡ (enc.current_recon_idx + 4 - 1) % 4 =
      ap (λ (n : ℕ). (enc.current_recon_idx + n - 1) % n) v.pool in
    omega (arith, e, prev, v.in_pool)

ref_surface-Follows :
    (last : Option ℕ) (enc : Encoder)
    → Follows last enc
    → ref_surface enc ≡ (if is_idr enc then none else surface_of enc last)
unfolding ref_surface
ref_surface-Follows last enc (inl e) = rw e refl
ref_surface-Follows last enc (inr e) =
    ap (λ (l : Option ℕ). if is_idr enc then none else surface_of enc l) (sym e)

-- From a fresh encoder with a pool of four surfaces on, through frames that are encoded or fail and
-- forced IDR pictures in any order, the next frame is an IDR picture without a reference, or it
-- refers to the surface of the frame that was encoded last, and it is reconstructed into another
-- slot of the pool.
pub ref_surface-calls :
    (enc : Encoder) (cs : List Call)
    → IsValid enc
    → enc.frame_count ≡ 0
    → let (last, now) = calls none enc cs in
      (ref_surface now ≡ (if is_idr now then none else surface_of now last))
      × (now.current_recon_idx ≢ prev_recon now)
ref_surface-calls enc cs v e =
    let (f, v') = calls-Follows cs none enc v (inl (first_frame enc e)) in
    (
      ref_surface-Follows (calls none enc cs).0 (calls none enc cs).1 f,
      other_slot (calls none enc cs).1 v',
    )

next_multiple : (a n : ℕ) → 0 < n → a + (n - a % n) ≡ (a / n + 1) * n
next_multiple a n p = omega (arith, div-add-mod' a n, mod-lt a p)

-- What a forced picture does inside a period.
force_idr-inside :
    (enc : Encoder)
    → is_idr enc ≡ false
    → 0 < enc.idr_interval
    → enc.frame_count + enc.idr_interval < 2 ^ 64
    → (force_idr enc).frame_count
      ≡ enc.frame_count + (enc.idr_interval - enc.frame_count % enc.idr_interval)
unfolding force_idr
force_idr-inside enc e p h = rw e (mod-eq_of_lt (omega arith))

interval-force_idr : (enc : Encoder) → (force_idr enc).idr_interval ≡ enc.idr_interval
unfolding force_idr
interval-force_idr enc = ground arith

-- After `db_encoder_force_idr` the next frame is an IDR picture, less than one period further on,
-- and a second call changes nothing, as long as the frame count stays below `2 ^ 64`.
force_idr_lem :
    (enc : Encoder)
    → 0 < enc.idr_interval
    → enc.frame_count + enc.idr_interval < 2 ^ 64
    → (is_idr (force_idr enc) ≡ true)
      × (enc.frame_count ≤ (force_idr enc).frame_count)
      × ((force_idr enc).frame_count < enc.frame_count + enc.idr_interval)
      × (force_idr (force_idr enc) ≡ force_idr enc)
force_idr_lem enc p h = elim (Bool-cases (is_idr enc)) [
  | inl e ↦
      let idle = force_idr-idle enc e in
      (rw idle e, rw idle (omega arith), rw idle (omega arith), ap force_idr idle)
  | inr e ↦
      let count = force_idr-inside enc e p h in
      let interval = interval-force_idr enc in
      let inside : enc.frame_count % enc.idr_interval ≢ 0 = ground (arith, e) in
      let multiple =
        ap (λ (t : ℕ). t % (force_idr enc).idr_interval) count
        ∙ ap
            (λ (t : ℕ).
              (enc.frame_count + (enc.idr_interval - enc.frame_count % enc.idr_interval)) % t)
            interval
        ∙ ap (λ (t : ℕ). t % enc.idr_interval) (next_multiple enc.frame_count enc.idr_interval p)
        ∙ mul-mod_left (enc.frame_count / enc.idr_interval + 1) enc.idr_interval in
      let due =
        (==_iff ((force_idr enc).frame_count % (force_idr enc).idr_interval) 0).1 multiple in
      (
        due,
        omega (arith, count),
        omega (arith, count, inside, mod-lt enc.frame_count p),
        force_idr-idle (force_idr enc) due,
      )
]
