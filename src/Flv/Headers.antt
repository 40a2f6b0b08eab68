-- ===== src/Flv/Headers.antt =====
-- What the parser of media headers reads, and when it fails.
use rtp_http_flv.Prelude.{
  ℕ, ◌+◌, ◌*◌, ◌/◌, ◌%◌, ◌^◌, ◌<◌, ◌≡◌, refl, ◌↔◌, ◌⊎◌, Bool, true, false, List, [], ◌∷◌, Option,
  none, some, ◌&&◌, ◌||◌, arith, ltb, ◌==◌, if◌then◌else◌, length, done, panics,
}
use rtp_http_flv.Flv.Tag.{
  Tag, zero_tag, parse_audio_header, parse_video_header, parse_media_tag_header, is_key_frame,
  is_seq, codec_id, composition_time,
}

-- Both branches return.
if_done : {A : Type 0} (c : Bool) (x y : A) → (r : A) × ((if c then done x else done y) ≡ done r)
if_done true x y = (x, refl)
if_done false x y = (y, refl)

-- `parseVideoHeader` does not panic, whatever the bytes.
pub parse_video_header_total :
    (tag : Tag) (b : List ℕ) → (r : Option (ℕ × Tag)) × (parse_video_header tag b ≡ done r)
unfolding parse_video_header
parse_video_header_total tag (b0 ∷ b1 ∷ b2 ∷ b3 ∷ b4 ∷ b) =
    let long : ltb (length (b0 ∷ b1 ∷ b2 ∷ b3 ∷ b4 ∷ b)) 5 ≡ false = ground arith in
    rw long (if_done (b0 / 16 == 2 || b0 / 16 == 1) _ _)
parse_video_header_total tag _ = (none, refl)

-- `parseAudioHeader` panics on exactly one kind of body: a single byte that announces AAC, whose
-- packet type it reads without a look at the length.
pub parse_audio_header_panics :
    (tag : Tag) (b : List ℕ)
    → (parse_audio_header tag b ≡ panics) ↔ ((flags : ℕ) × (b ≡ flags ∷ []) × (flags / 16 ≡ 10))
unfolding parse_audio_header
parse_audio_header_panics tag [] = (λ e. ground arith, λ h. ground (arith, h.1))
parse_audio_header_panics tag (f ∷ []) =
    (λ e. (f, refl, ground arith), λ h. ground (arith, h.1, h.2))
parse_audio_header_panics tag (f ∷ g ∷ b) = (λ e. ground arith, λ h. ground (arith, h.1))

-- The first bytes of a video body: the frame type and the codec, the packet type, and the
-- composition time in three bytes.
abbrev pub video_body : ℕ → ℕ → ℕ → ℕ → List ℕ → List ℕ
video_body frame codec kind time rest =
    (frame * 16 + codec) ∷ kind ∷ (time / 65536) ∷ (time / 256 % 256) ∷ (time % 256) ∷ rest

-- What a video header says, read through the methods of the tag.
pub record ReadsVideo (frame codec kind time : ℕ) (r : ℕ × Tag) : Type 0 where
  pub size : r.0 ≡ 5
  pub codec_eq : codec_id r.1 ≡ codec
  pub time_eq : composition_time r.1 ≡ time
  pub key_eq : is_key_frame r.1 ≡ (frame == 1)
  pub seq_eq : is_seq r.1 ≡ (frame == 1 && kind == 0)

-- A key frame or an inter frame is read back: five bytes, the codec, the composition time of 24
-- bits, and whether it is a key frame and a sequence header.
pub parse_video_header_reads :
    (frame codec kind time : ℕ) (rest : List ℕ)
    → (frame ≡ 1) ⊎ (frame ≡ 2)
    → codec < 16
    → time < 2 ^ 24
    → (r : ℕ × Tag) × (parse_media_tag_header zero_tag (video_body frame codec kind time rest) true
        ≡ done (some r))
      × ReadsVideo frame codec kind time r
unfolding parse_media_tag_header codec_id composition_time is_key_frame is_seq
parse_video_header_reads frame codec kind time rest f c t =
    let t2 : (frame * 16 + codec) / 16 ≡ frame = omega arith in
    let t3 : (frame * 16 + codec) % 16 ≡ codec = omega arith in
    let time_eq : (((0 * 256 + time / 65536) % 2 ^ 32 * 256 + time / 256 % 256) % 2 ^ 32 * 256
            + time % 256)
          % 2 ^ 32
        ≡ time =
      omega arith in
    (
      (
        5,
        record zero_tag {
          mediat = record zero_tag.mediat {
            frame_type = frame;
            codec_id = codec;
            avc_packet_type = kind;
            composition_time = time;
          };
        },
      ),
      rw (t2, t3, time_eq) (ground arith),
      record { size = refl; codec_eq = refl; time_eq = refl; key_eq = refl; seq_eq = refl },
    )
