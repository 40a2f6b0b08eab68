-- ===== src/Rtp/Bounds.antt =====
-- The parser of RTP packets does not panic, and keeps to the bytes that it is given.
use rtp_http_flv.Prelude.{
  ℕ, ◌+◌, ◌-◌, ◌*◌, ◌/◌, ◌%◌, ◌≤◌, ◌<◌, ◌≡◌, refl, Bool, true, false, List, [], ◌∷◌, Option, none,
  some, arith, ltb, leb, ◌==◌, if◌then◌else◌, length, done, uint16, slice_from-done, Slice, reslice,
  take, drop, ◌++◌, get_elem?-lt, length-append, length-drop, length-take, Bool-cases, inl, inr, ap,
  take-append_le, drop-append_le, WhenSome, ◌∙◌, sym,
}
use rtp_http_flv.Rtp.{RtpPack, rtp_fixed_header_length}
use rtp_http_flv.Rtp.Parse.{
  skip_csrc, skip_extension, strip_padding, parse_header, parse_payload, parse,
}

pub skip_csrc_bounds :
    (offset size cnt : ℕ)
    → offset ≤ size
    → (offset ≤ skip_csrc offset size cnt) × (skip_csrc offset size cnt ≤ size)
unfolding skip_csrc
skip_csrc_bounds offset size cnt h = ground arith

-- Two bytes are there to be read.
uint16_total : (b : List ℕ) → 2 ≤ length b → (n : ℕ) × (uint16 b ≡ done n)
uint16_total (x ∷ y ∷ b) h = (x * 256 + y, refl)
uint16_total [] h = absurd (omega arith)
uint16_total _ h = absurd (omega arith)

pub skip_extension_bounds :
    (b : List ℕ) (extension : Bool) (offset : ℕ)
    → offset ≤ length b
    → (o : ℕ) × (skip_extension b extension offset ≡ done o) × (offset ≤ o) × (o ≤ length b)
unfolding skip_extension
skip_extension_bounds b false offset h = (offset, refl, omega arith, omega arith)
skip_extension_bounds b true offset h = elim (Bool-cases (leb 4 (length b - offset))) [
  | inl fits ↦
      let (n, e) =
        uint16_total (drop (offset + 2) b) (ground (arith, length-drop (offset + 2) b)) in
      (
        if leb (4 * n) (length b - (offset + 4)) then offset + 4 + 4 * n else offset + 4,
        ground (arith, e, slice_from-done b (offset + 2)),
        ground arith,
        ground arith,
      )
  | inr short ↦ (offset, ground arith, omega arith, omega arith)
]

pub strip_padding_bounds :
    (b : List ℕ) (padding : Bool) (offset : ℕ)
    → offset ≤ length b
    → (o : ℕ) × (strip_padding b padding offset ≡ done o) × (offset ≤ o) × (o ≤ length b)
unfolding strip_padding
strip_padding_bounds b false offset h = (length b, refl, omega arith, omega arith)
strip_padding_bounds b true offset h = elim (Bool-cases (ltb 0 (length b - offset))) [
  | inl fits ↦
      let (n, e) = get_elem?-lt b (length b - 1) (ground arith) in
      (
        if leb n (length b - offset) then length b - n else length b,
        ground (arith, e),
        ground arith,
        ground arith,
      )
  | inr short ↦ (length b, ground arith, omega arith, omega arith)
]

-- What the parser returns lies in the bytes that it was given: behind the fixed header, not empty,
-- and copied from the place that `payload_offset` names.
pub record Carries (b : List ℕ) (p : RtpPack) : Type 0 where
  pub behind_header : rtp_fixed_header_length ≤ p.payload_offset
  pub not_empty : 0 < length p.payload.elems
  pub fits : p.payload_offset + length p.payload.elems ≤ length b
  pub window : p.payload.elems ≡ take (length p.payload.elems) (drop p.payload_offset b)

-- A part within the elements of a slice.
take-drop-append :
    (b c : List ℕ) (n lo : ℕ) → lo + n ≤ length b → take n (drop lo (b ++ c)) ≡ take n (drop lo b)
take-drop-append b c n lo h =
    ap (take n) (drop-append_le lo b c (omega arith))
    ∙ take-append_le n (drop lo b) c (omega (arith, length-drop lo b))

length-take-drop : (b : List ℕ) (n lo : ℕ) → lo + n ≤ length b → length (take n (drop lo b)) ≡ n
length-take-drop b n lo h = omega (arith, length-take n (drop lo b), length-drop lo b)

reslice-done :
    (s : Slice) (lo hi : ℕ)
    → lo ≤ hi
    → hi ≤ length s.elems
    → reslice s lo hi
      ≡ done (record {
        elems = take (hi - lo) (drop lo s.elems);
        spare = drop hi (s.elems ++ s.spare);
      })
reslice-done s lo hi h k = ground (
  arith,
  length-append s.elems s.spare,
  take-drop-append s.elems s.spare (hi - lo) lo (omega arith),
)

parse_payload_total :
    (s : Slice) (pack : RtpPack) (offset : ℕ)
    → rtp_fixed_header_length ≤ offset
    → offset ≤ length s.elems
    → (r : Option RtpPack) × (parse_payload s pack offset ≡ done r) × WhenSome (Carries s.elems) r
unfolding parse_payload
parse_payload_total s pack offset h k =
    let (stop, e, lo, hi) = strip_padding_bounds s.elems pack.padding offset k in
    elim (Bool-cases (ltb (stop - offset) 1)) [
      | inl empty ↦ (none, ground (arith, e, reslice-done s offset stop), tt)
      | inr full ↦ (
        some (record pack {
          payload = record {
            elems = take (stop - offset) (drop offset s.elems);
            spare = drop stop (s.elems ++ s.spare);
          };
          payload_offset = offset;
        }),
        ground (arith, e, reslice-done s offset stop),
        let n : length (take (stop - offset) (drop offset s.elems)) ≡ stop - offset =
              length-take-drop s.elems (stop - offset) offset (omega arith) in
            record {
              behind_header = h;
              not_empty = ground (arith, n);
              fits = omega (arith, n);
              window = ap (λ m. take m (drop offset s.elems)) (sym n);
            },
      )
    ]

-- Twelve bytes are enough for the fixed header.
parse_header_total : (b : List ℕ) → 12 ≤ length b → (p : RtpPack) × (parse_header b ≡ done p)
unfolding parse_header
parse_header_total (b0 ∷ b1 ∷ b2 ∷ b3 ∷ b4 ∷ b5 ∷ b6 ∷ b7 ∷ b8 ∷ b9 ∷ b10 ∷ b11 ∷ rest) h = (
  record {
    version = b0 / 64;
    padding = b0 / 32 % 2 == 1;
    extension = b0 / 16 % 2 == 1;
    csrc_cnt = b0 % 16;
    marker = b1 / 128;
    payload_type = b1 % 128;
    sequence_number = b2 * 256 + b3;
    timestamp = b4 * 16777216 + b5 * 65536 + b6 * 256 + b7;
    ssrc = b8 * 16777216 + b9 * 65536 + b10 * 256 + b11;
    payload = record { elems = []; spare = [] };
    payload_offset = 0;
  },
  ground arith,
)
parse_header_total _ h = absurd (omega arith)

-- `Parse` does not panic, whatever it is given, and a packet that it returns carries a part of what
-- it was given.
pub parse_total :
    (s : Slice) → (r : Option RtpPack) × (parse s ≡ done r) × WhenSome (Carries s.elems) r
unfolding parse
parse_total s = elim (Bool-cases (ltb (length s.elems) 12)) [
  | inl short ↦ (none, ground arith, tt)
  | inr long ↦
      let (p, e) = parse_header_total s.elems (ground arith) in
      let c = skip_csrc_bounds 12 (length s.elems) p.csrc_cnt (ground arith) in
      let (o, f, lo, hi) =
        skip_extension_bounds s.elems p.extension (skip_csrc 12 (length s.elems) p.csrc_cnt) c.1 in
      let (r, g, w) = parse_payload_total s p o (omega arith) hi in (r, rw (long, e, f) g, w)
]
