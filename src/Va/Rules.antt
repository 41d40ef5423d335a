-- ===== src/Va/Rules.antt =====
-- The rules that VA-API has for the calls of ubuntu/src/encoder.c, as an observer of them.
use mathlib.Core.List.{Memᴰ}
use native.Mathlib.Omega.{arith}
use display_bridge.Prelude.{
  ◌||◌, Bool-cases, inl, inr, ℕ, ◌≡◌, refl, sym, ap, ap₂, ◌∙◌, Bool, true, false, not, ◌&&◌, Option,
  none, some, List, [], ◌∷◌, if◌then◌else◌, get_or, and_both,
}
use display_bridge.Calls.Held.{Named, is_held, all_held, acquire, release, same_held, same_held→≡}
use display_bridge.Va.{
  Handle, drm_fd, va_display, config_id, recon_surfaces, context_id, coded_buf, conv_buf, input,
  va_image, va_image_buf, seq_buf, param_buf, data_buf, rc_buf, hrd_buf, fr_buf, pic_buf, slice_buf,
  VaCall, open_node, close_node, get_display, initialize, terminate, create_config, destroy_config,
  create_surfaces, import_surface, destroy_surfaces, create_context, destroy_context, derive_image,
  destroy_image, create_buffer, map_buffer, unmap_buffer, destroy_buffer, fill, copy_rows,
  begin_picture, end_picture, sync_surface, render_picture, malloc, free, store_bytes, stray_store,
}

abbrev number : Handle → ℕ
number drm_fd = 0
number va_display = 1
number config_id = 2
number recon_surfaces = 3
number context_id = 4
number coded_buf = 5
number conv_buf = 6
number input = 7
number va_image = 8
number va_image_buf = 9
number seq_buf = 10
number param_buf = 11
number data_buf = 12
number rc_buf = 13
number hrd_buf = 14
number fr_buf = 15
number pic_buf = 16
number slice_buf = 17

abbrev all_handles : List Handle
all_handles =
    drm_fd ∷ va_display ∷ config_id ∷ recon_surfaces ∷ context_id ∷ coded_buf ∷ conv_buf ∷ input
    ∷ va_image ∷ va_image_buf ∷ seq_buf ∷ param_buf ∷ data_buf ∷ rc_buf ∷ hrd_buf ∷ fr_buf ∷ pic_buf
    ∷ slice_buf ∷ []

abbrev name : ℕ → Handle
name n = get_or all_handles n drm_fd

pub name-number : (h : Handle) → name (number h) ≡ h
name-number drm_fd = refl
name-number va_display = refl
name-number config_id = refl
name-number recon_surfaces = refl
name-number context_id = refl
name-number coded_buf = refl
name-number conv_buf = refl
name-number input = refl
name-number va_image = refl
name-number va_image_buf = refl
name-number seq_buf = refl
name-number param_buf = refl
name-number data_buf = refl
name-number rc_buf = refl
name-number hrd_buf = refl
name-number fr_buf = refl
name-number pic_buf = refl
name-number slice_buf = refl

abbrev pub handles : Named Handle
handles = record { number = number; name = name; name-number = name-number }

-- What is live, what of it is mapped, and whether a picture is begun.
pub record VaState : Type 0 where
  pub live : List Handle
  pub mapped : List Handle
  pub in_picture : Bool

abbrev with_live : VaState → Option (List Handle) → Option VaState
with_live s none = none
with_live s (some hs) = some (record s { live = hs })

abbrev with_mapped : VaState → Option (List Handle) → Option VaState
with_mapped s none = none
with_mapped s (some hs) = some (record s { mapped = hs })

-- A call that needs some handles, and what it does.
abbrev needs : VaState → List Handle → Option VaState → Option VaState
needs s hs o = if all_held handles hs s.live then o else none

abbrev creates : VaState → Handle → Bool → Option VaState
creates s h true = with_live s (acquire handles h s.live)
creates s h false = some s

-- A mapped buffer is not destroyed.
abbrev destroys : VaState → Handle → Option VaState
destroys s h = if is_held handles h s.mapped then none else with_live s (release handles h s.live)

abbrev maps : VaState → Handle → Bool → Option VaState
maps s h true = with_mapped s (acquire handles h s.mapped)
maps s h false = some s

abbrev unmaps : VaState → Handle → Option VaState
unmaps s h = with_mapped s (release handles h s.mapped)

abbrev writes : VaState → Handle → Option VaState
writes s h = if is_held handles h s.mapped then some s else none

abbrev begins : VaState → Bool → Option VaState
begins s b = if s.in_picture then none else some (record s { in_picture = b })

abbrev pub watch : VaState → VaCall → Bool → Option VaState
watch s (open_node path) b = creates s drm_fd b
watch s close_node b = destroys s drm_fd
watch s get_display b = needs s (drm_fd ∷ []) (some s)
watch s initialize b = needs s (drm_fd ∷ []) (creates s va_display b)
watch s terminate b = needs s (drm_fd ∷ []) (destroys s va_display)
watch s create_config b = needs s (va_display ∷ []) (creates s config_id b)
watch s destroy_config b = needs s (va_display ∷ []) (destroys s config_id)
watch s (create_surfaces h w k) b = needs s (va_display ∷ []) (creates s h b)
watch s (import_surface desc) b = needs s (va_display ∷ []) (creates s input b)
watch s (destroy_surfaces h) b = needs s (va_display ∷ []) (destroys s h)
watch s (create_context w k) b =
    needs s (va_display ∷ config_id ∷ recon_surfaces ∷ []) (creates s context_id b)
watch s destroy_context b = needs s (va_display ∷ []) (destroys s context_id)
watch s derive_image b = needs s (va_display ∷ input ∷ []) (creates s va_image b)
watch s destroy_image b =
    if is_held handles va_image_buf s.mapped
    then none
    else needs s (va_display ∷ []) (destroys s va_image)
watch s (create_buffer h contents) b = needs s (va_display ∷ context_id ∷ []) (creates s h b)
watch s (map_buffer va_image_buf) b = needs s (va_display ∷ va_image ∷ []) (maps s va_image_buf b)
watch s (map_buffer h) b = needs s (va_display ∷ h ∷ []) (maps s h b)
watch s (unmap_buffer h) b = needs s (va_display ∷ []) (unmaps s h)
watch s (destroy_buffer h) b = needs s (va_display ∷ []) (destroys s h)
watch s (fill h contents) b = writes s h
watch s (copy_rows h rows) b = writes s h
watch s begin_picture b = needs s (va_display ∷ context_id ∷ input ∷ []) (begins s b)
watch s (render_picture hs) b =
    if s.in_picture then needs s (va_display ∷ context_id ∷ hs) (some s) else none
watch s end_picture b =
    if s.in_picture
    then needs s (va_display ∷ context_id ∷ []) (some (record s { in_picture = false }))
    else none
watch s sync_surface b = needs s (va_display ∷ input ∷ []) (some s)
watch s (malloc size) b = creates s conv_buf b
watch s free b = destroys s conv_buf
watch s (store_bytes stores) b = needs s (conv_buf ∷ []) (some s)
watch s stray_store b = none

abbrev same_bool : Bool → Bool → Bool
same_bool true b = b
same_bool false b = not b

-- Whether two states are the same.
abbrev pub same_state : VaState → VaState → Bool
same_state s t =
    same_held handles s.live t.live
    && (same_held handles s.mapped t.mapped && same_bool s.in_picture t.in_picture)

same_bool→≡ : (a b : Bool) → same_bool a b ≡ true → a ≡ b
same_bool→≡ true true h = refl
same_bool→≡ true false h = sym h
same_bool→≡ false true h = h
same_bool→≡ false false h = refl

abbrev state : List Handle → List Handle → Bool → VaState
state live mapped in_picture = record { live = live; mapped = mapped; in_picture = in_picture }

path_of : {a b c d : List Handle} {i j : Bool} → a ≡ b → c ≡ d → i ≡ j → state a c i ≡ state b d j
path_of {b} {d} {i} p q r = ap₂ (λ x y. state x y i) p q ∙ ap (state b d) r

pub same_state→≡ : (s t : VaState) → same_state s t ≡ true → s ≡ t
same_state→≡ s t h =
    let first =
      and_both (same_held handles s.live t.live)
        (same_held handles s.mapped t.mapped && same_bool s.in_picture t.in_picture) h in
    let second =
      and_both (same_held handles s.mapped t.mapped) (same_bool s.in_picture t.in_picture)
        first.1 in
    path_of (same_held→≡ handles s.live t.live first.0)
      (same_held→≡ handles s.mapped t.mapped second.0)
      (same_bool→≡ s.in_picture t.in_picture second.1)

-- One of some states.
abbrev pub one_of : List VaState → VaState → Bool
one_of [] t = false
one_of (u ∷ us) t = same_state t u || one_of us t

abbrev pub all_of : (VaState → Bool) → List VaState → Bool
all_of f [] = true
all_of f (u ∷ us) = f u && all_of f us

pub one_of→Memᴰ : (us : List VaState) (t : VaState) → one_of us t ≡ true → Memᴰ t us
one_of→Memᴰ [] t h = ground arith
one_of→Memᴰ (u ∷ us) t h = elim (Bool-cases (same_state t u)) [
  | inl e ↦ Memᴰ.head (same_state→≡ t u e)
  | inr e ↦ Memᴰ.tail (one_of→Memᴰ us t (sym (ap (λ b. b || one_of us t) e) ∙ h))
]

all_of-Memᴰ :
    (f : VaState → Bool) (us : List VaState) (t : VaState)
    → all_of f us ≡ true
    → Memᴰ t us
    → f t ≡ true
all_of-Memᴰ f [] t h m = elim m [ ]
all_of-Memᴰ f (u ∷ us) t h (Memᴰ.head e) = ap f e ∙ (and_both (f u) (all_of f us) h).0
all_of-Memᴰ f (u ∷ us) t h (Memᴰ.tail m) = all_of-Memᴰ f us t (and_both (f u) (all_of f us) h).1 m

pub all_of-one_of :
    (f : VaState → Bool) (us : List VaState) (t : VaState)
    → all_of f us ≡ true
    → one_of us t ≡ true
    → f t ≡ true
all_of-one_of f us t h e = all_of-Memᴰ f us t h (one_of→Memᴰ us t e)
