-- ===== src/Headers/Crop.antt =====
-- The picture size that a receiver finds in the SPS of encoder.c, by the parser and the cropping
-- rule of H.265: it is the encoder's, rounded up to an even number.
use mathlib.Core.Option
use display_bridge.Prelude.{
  ℕ, ◌+◌, ◌-◌, ◌*◌, ◌/◌, ◌%◌, ◌≡◌, refl, ap, ◌∙◌, arith, false, Option, none, some, List, [], ◌∷◌,
  ◌++◌, All, ◌==◌, if◌then◌else◌, Bool-cases, inl, inr, append_assoc, map, ap₂,
}
use display_bridge.Encoder.{Encoder}
use display_bridge.Bitstream.View.{bytes_bits}
use display_bridge.Bitstream.Syntax.{
  Elem, kind, bit, golomb, ue, flag, InRange, encode, encode-append, decode, decode-encode,
}
use display_bridge.Nal.Escape.{unescape}
use display_bridge.Headers.{need_conf, write_sps, align_ctu}
use display_bridge.Headers.Align.{align_ctu_lem}
use display_bridge.Headers.Tables.{profile_tier_level, sps_front, sps_size, sps_window, sps_back}
use display_bridge.Headers.Sps.{IsPictureSize, sps_table, write_sps-Carries}

-- The parser of clause 7.3.2.2 as far as the conformance window. It takes the coded size and the
-- flag, and then the four offsets if the flag is set.
size_of : List Elem → Option (ℕ × ℕ × ℕ)
size_of (golomb i ∷ golomb c ∷ golomb w ∷ golomb h ∷ bit f ∷ []) = some (w, h, f)
size_of es = none

offsets_of : List Elem → Option (ℕ × ℕ)
offsets_of (golomb l ∷ golomb r ∷ golomb t ∷ golomb b ∷ []) = some (l + r, t + b)
offsets_of es = none

-- The size of the cropped picture: clause 7.4.3.2.1, with crop units of 2 for 4:2:0.
crop : ℕ → ℕ → Option (ℕ × ℕ) → Option (ℕ × ℕ)
crop w h none = none
crop w h (some (x, y)) = some (w - 2 * x, h - 2 * y)

window_of : ℕ → List ℕ → Option (ℕ × ℕ)
unfolding offsets_of
window_of f bits =
    if f == 0
    then some (0, 0)
    else Option.bind (decode (ue ∷ ue ∷ ue ∷ ue ∷ []) bits) (λ p. offsets_of p.0)

-- The picture size that a receiver shows for the bits of an SPS.
pub shown_size : List ℕ → Option (ℕ × ℕ)
unfolding size_of crop window_of
shown_size bits = Option.bind (decode (map kind (sps_front ++ profile_tier_level)) bits) λ p.
    Option.bind (decode (ue ∷ ue ∷ ue ∷ ue ∷ flag ∷ []) p.1)
      λ q. Option.bind (size_of q.0) λ s. crop s.0 s.1 (window_of s.2 q.1)

encode-parts :
    (a b c d e : List Elem) (rest : List ℕ)
    → encode (a ++ (b ++ (c ++ (d ++ e)))) ++ rest
      ≡ encode (a ++ b) ++ (encode c ++ (encode d ++ (encode e ++ rest)))
encode-parts a b c d e rest = simp (encode-append, append_assoc)

bind-eq {ℓ} :
    {A B : Type ℓ} (o : Option A) (a : A) (f : A → Option B) → o ≡ some a → Option.bind o f ≡ f a
unfolding Option.bind
bind-eq o a f e = rw e

abbrev right_offset : Encoder → ℕ
right_offset enc = (align_ctu enc.width - enc.width) / 2

abbrev bottom_offset : Encoder → ℕ
bottom_offset enc = (align_ctu enc.height - enc.height) / 2

abbrev window : Encoder → List Elem
window enc = if need_conf enc then sps_window (right_offset enc) (bottom_offset enc) else []

some_pair : {a b c d : ℕ} → a ≡ c → b ≡ d → ◌≡◌ {A = Option (ℕ × ℕ)} (some (a, b)) (some (c, d))
some_pair p q = ap₂ (λ x y. some (x, y)) p q

abbrev size : Encoder → List Elem
size enc = sps_size (align_ctu enc.width) (align_ctu enc.height) (if need_conf enc then 1 else 0)

no_window :
    (enc : Encoder)
    → need_conf enc ≡ false
    → (align_ctu enc.width ≡ enc.width) × (align_ctu enc.height ≡ enc.height)
no_window enc e = ground arith

-- What is left after the size and the flag.
crop-window :
    (enc : Encoder) (rest : List ℕ)
    → IsPictureSize enc
    → crop
        (align_ctu enc.width)
        (align_ctu enc.height)
        (window_of (if need_conf enc then 1 else 0) (encode (window enc) ++ rest))
      ≡ some (enc.width + enc.width % 2, enc.height + enc.height % 2)
unfolding window_of crop
crop-window enc rest h = elim (Bool-cases (need_conf enc)) [
  | inl e ↦ rw e (
      ap (crop (align_ctu enc.width) (align_ctu enc.height)) (
        bind-eq _ _ (λ p. offsets_of p.0)
          (decode-encode (sps_window (right_offset enc) (bottom_offset enc)) rest
            (omega (arith, align_ctu_lem enc.width h.0, align_ctu_lem enc.height h.1))))
      ∙ some_pair (omega (arith, align_ctu_lem enc.width h.0))
          (omega (arith, align_ctu_lem enc.height h.1)))
  | inr e ↦ rw e (
      some_pair (omega (arith, align_ctu_lem enc.width h.0, no_window enc e))
        (omega (arith, align_ctu_lem enc.height h.1, no_window enc e)))
]

shown_size-encode :
    (enc : Encoder) (rest : List ℕ)
    → IsPictureSize enc
    → shown_size (encode (sps_table enc) ++ rest)
      ≡ some (enc.width + enc.width % 2, enc.height + enc.height % 2)
unfolding shown_size
shown_size-encode enc rest h =
    ap shown_size (encode-parts sps_front profile_tier_level (size enc) (window enc) sps_back rest)
    ∙ bind-eq _ _ _ (decode-encode (sps_front ++ profile_tier_level) after_profile (omega arith))
    ∙ bind-eq _ _ _ (decode-encode (size enc) after_size size_ranges)
    ∙ bind-eq {A = ℕ × ℕ × ℕ} (size_of (size enc))
        (align_ctu enc.width, align_ctu enc.height, if need_conf enc then 1 else 0) _ refl
    ∙ crop-window enc (encode sps_back ++ rest) h
  where
    after_size : List ℕ
    after_size = encode (window enc) ++ (encode sps_back ++ rest)

    after_profile : List ℕ
    after_profile = encode (size enc) ++ after_size

    size_ranges : All InRange (size enc)
    size_ranges = elim (Bool-cases (need_conf enc)) [
      | inl e ↦ rw e (omega (arith, align_ctu_lem enc.width h.0, align_ctu_lem enc.height h.1))
      | inr e ↦ rw e (omega (arith, align_ctu_lem enc.width h.0, align_ctu_lem enc.height h.1))
    ]

-- For a picture size that does not overflow an `int`, a receiver that parses the SPS shows a
-- picture of the encoder's size, an odd width or height rounded up to the next even one.
pub shown_size-write_sps :
    (enc : Encoder)
    → IsPictureSize enc
    → (bytes : List ℕ) × (write_sps enc ≡ some bytes)
      × (shown_size (bytes_bits (unescape bytes))
          ≡ some (enc.width + enc.width % 2, enc.height + enc.height % 2))
shown_size-write_sps enc h =
    let c = write_sps-Carries enc h in
    (c.bytes, c.returns, ap shown_size c.content ∙ shown_size-encode enc _ h)
