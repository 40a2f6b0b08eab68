-- ===== src/Flv/Tests.antt =====
-- Media headers on concrete bytes.
use rtp_http_flv.Prelude.{ℕ, ◌≡◌, ◌↔◌, refl, inl, true, [], ◌∷◌, some, done, panics, arith, ◌/◌}
use rtp_http_flv.Flv.Tag.{Tag, zero_tag, parse_audio_header, parse_media_tag_header}
use rtp_http_flv.Flv.Headers.{
  video_body, ReadsVideo, parse_video_header_reads, parse_audio_header_panics,
}

-- An H.264 sequence header with a composition time of 80.
parse_video_header_reads_example :
    (r : ℕ × Tag) × (parse_media_tag_header zero_tag (video_body 1 7 0 80 (1 ∷ [])) true
      ≡ done (some r))
    × ReadsVideo 1 7 0 80 r
parse_video_header_reads_example =
    parse_video_header_reads 1 7 0 80 (1 ∷ []) (inl refl) (omega arith) (omega arith)

parse_audio_header_panics_example :
    (parse_audio_header zero_tag (175 ∷ []) ≡ panics)
    ↔ ((flags : ℕ) × (175 ∷ [] ≡ flags ∷ []) × (flags / 16 ≡ 10))
parse_audio_header_panics_example = parse_audio_header_panics zero_tag (175 ∷ [])
