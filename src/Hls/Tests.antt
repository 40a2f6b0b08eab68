-- ===== src/Hls/Tests.antt =====
-- The parts of the HLS source on concrete inputs.
use rtp_http_flv.Hls.TsCache.{TsItem, new_ts_item, new_ts_cache_item, gen_m3u8_play_list}
use rtp_http_flv.Hls.TsCache.Recent.{Entries, Distinct, Shows, set_all, last_three, set_all-Shows}
use rtp_http_flv.Hls.TsCache.PlayLists.{row, gen_m3u8_play_list_lem}
use rtp_http_flv.Prelude.{
  Text, codes, text_beq_iff, ℕ, ◌+◌, ◌*◌, ◌≡◌, ◌≤◌, ◌<◌, map, All, refl, [], ◌∷◌, arith,
}
use rtp_http_flv.Hls.Align.{Align, align, align_all, tolerance, align_near, align_steady}
use rtp_http_flv.Hls.AudioCache.{new_audio_cache, cache_all, get_frame, get_frame-cache_all}

abbrev start : Align
start = record { frame_num = 2; frame_base = 1000 }

align_near_example :
    ((align start 5000 1920).1 ≤ 5000 + tolerance) × (5000 ≤ (align start 5000 1920).1 + tolerance)
align_near_example = align_near start 5000 1920

align_steady_example : align_all start 1920 (4900 ∷ 6700 ∷ []) ≡ 4840 ∷ 6760 ∷ []
align_steady_example =
    align_steady 1000 1920 2 (4900 ∷ 6700 ∷ [])
      (omega arith, omega arith, (omega arith, omega arith, tt)) (omega arith) (omega arith)

get_frame-cache_all_example :
    let (out, a') = get_frame (cache_all new_audio_cache ((1 ∷ 2 ∷ [], 90) ∷ (3 ∷ [], 180) ∷ [])) in
    (out ≡ (3, 90, 1 ∷ 2 ∷ 3 ∷ [])) × (a'.num ≡ 0)
unfolding new_audio_cache
get_frame-cache_all_example =
    get_frame-cache_all new_audio_cache (1 ∷ 2 ∷ []) 90 ((3 ∷ [], 180) ∷ []) refl (omega arith)

abbrev segment : Text → ℕ → TsItem
segment name n = new_ts_item name (3000 + n) n (n ∷ [])

abbrev segments : Entries
segments =
    ((codes "a"), segment (codes "a") 1)
    ∷ ((codes "b"), segment (codes "b") 2)
    ∷ ((codes "c"), segment (codes "c") 3)
    ∷ ((codes "d"), segment (codes "d") 4)
    ∷ []

segments-Distinct : Distinct segments
segments-Distinct = ground (
  arith,
  text_beq_iff (codes "b") (codes "a"),
  text_beq_iff (codes "c") (codes "a"),
  text_beq_iff (codes "d") (codes "a"),
  text_beq_iff (codes "c") (codes "b"),
  text_beq_iff (codes "d") (codes "b"),
  text_beq_iff (codes "d") (codes "c"),
)

set_all-Shows_example : Shows (set_all new_ts_cache_item segments) (
    ((codes "b"), segment (codes "b") 2)
    ∷ ((codes "c"), segment (codes "c") 3)
    ∷ ((codes "d"), segment (codes "d") 4)
    ∷ [])
set_all-Shows_example = set_all-Shows segments segments-Distinct

gen_m3u8_play_list_lem_example :
    let p = gen_m3u8_play_list (set_all new_ts_cache_item segments) in
    (p.entries ≡ map row (last_three segments))
    × (p.media_sequence ≡ 2)
    × All (λ t. (row t).0 < p.target_duration * 1000) (last_three segments)
unfolding new_ts_item
gen_m3u8_play_list_lem_example =
    gen_m3u8_play_list_lem (set_all new_ts_cache_item segments) (codes "b") (segment (codes "b") 2)
      (((codes "c"), segment (codes "c") 3) ∷ ((codes "d"), segment (codes "d") 4) ∷ [])
      set_all-Shows_example
