-- ===== src/Hls/AudioCache.antt =====
-- `audioCache` of protocol/hls/audio_cache.go: audio frames are collected until they are muxed.
use rtp_http_flv.Prelude.{
  ℕ, ◌+◌, ◌*◌, false, ◌%◌, ◌<◌, ◌≡◌, refl, ap, ◌∙◌, List, [], ◌∷◌, ◌++◌, ◌==◌, if◌then◌else◌, arith,
  length, replicate, length-append, append_assoc, append-nil,
}

-- `audioCache`, with the bytes of its buffer. No code reads or sets the sound format.
pub record AudioCache : Type 0 where
  pub num : ℕ
  pub offset : ℕ
  pub pts : ℕ
  pub buf : List ℕ

abbrev pub audio_cache_len : ℕ
audio_cache_len = 10 * 1024

unfoldable pub new_audio_cache : AudioCache
new_audio_cache = record { num = 0; offset = 0; pts = 0; buf = replicate audio_cache_len 0 }

abbrev pub restart : AudioCache → ℕ → AudioCache
restart a pts = if a.num == 0 then record a { offset = 0; pts = pts; buf = [] } else a

-- `Cache`; the number of frames is a byte.
unfoldable pub cache : AudioCache → List ℕ → ℕ → AudioCache
cache a src pts =
    let a' = restart a pts in
    record a' { buf = a'.buf ++ src; offset = a'.offset + length src; num = (a'.num + 1) % 256 }

unfoldable pub get_frame : AudioCache → (ℕ × ℕ × List ℕ) × AudioCache
get_frame a = ((a.offset, a.pts, a.buf), record a { num = 0 })

unfoldable pub cache_num : AudioCache → ℕ
cache_num a = a.num

unfoldable pub cache_all : AudioCache → List (List ℕ × ℕ) → AudioCache
cache_all a [] = a
cache_all a ((src, pts) ∷ rest) = cache_all (cache a src pts) rest

abbrev pub bytes : List (List ℕ × ℕ) → List ℕ
bytes [] = []
bytes ((src, pts) ∷ rest) = src ++ bytes rest

cache_more :
    (frames : List (List ℕ × ℕ)) (a : AudioCache)
    → 0 < a.num
    → a.num + length frames < 256
    → a.offset ≡ length a.buf
    → cache_all a frames ≡ record a {
      buf = a.buf ++ bytes frames;
      offset = length (a.buf ++ bytes frames);
      num = a.num + length frames;
    }
unfolding cache_all cache
cache_more [] a h k e = ground (arith, append-nil a.buf)
cache_more ((src, pts) ∷ rest) a h k e =
    let started : (a.num == 0) ≡ false = ground arith in
    let room : (a.num + 1) % 256 ≡ a.num + 1 = omega arith in
    let n = length-append a.buf src in
    rw (started, room)
      (cache_more rest
          (record a { buf = a.buf ++ src; offset = a.offset + length src; num = a.num + 1 })
          (omega arith) (omega arith) (omega (arith, n))
        ∙ ground (arith, append_assoc a.buf src (bytes rest)))

-- What `GetFrame` returns after a run of fewer than 256 frames into a cache that was empty or had been
-- emptied: the bytes of all the frames in order, how many bytes these are, and the time stamp of the
-- first frame. It empties the cache.
pub get_frame-cache_all :
    (a : AudioCache) (src : List ℕ) (pts : ℕ) (frames : List (List ℕ × ℕ))
    → a.num ≡ 0
    → 1 + length frames < 256
    → let (out, a') = get_frame (cache_all a ((src, pts) ∷ frames)) in
      (out ≡ (length (src ++ bytes frames), pts, src ++ bytes frames)) × (a'.num ≡ 0)
unfolding get_frame cache_all
get_frame-cache_all a src pts frames e h =
    let a1 : AudioCache = record { num = 1; offset = 0 + length src; pts = pts; buf = src } in
    let first : cache a src pts ≡ a1 = unfold cache in ground (arith, e) in
    let all = cache_more frames a1 (omega arith) h (omega arith) in
    (
      ap (λ (t : AudioCache). (t.offset, t.pts, t.buf)) (ap (λ t. cache_all t frames) first ∙ all),
      refl,
    )
