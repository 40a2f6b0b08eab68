-- ===== src/Publishers/Tests.antt =====
-- Two streams; whole numbers stand for floats.
use rtp_http_flv.Prelude.{ℕ, ◌≡◌, refl, [], ◌∷◌, codes, Dict, lookup, nat_eq, some, done, arith}
use rtp_http_flv.Publishers.{Floats, Publisher, update_publishers}
use rtp_http_flv.Publishers.Document.{IsPublisher, latest, document, update_publishers-document}

abbrev whole : Floats
whole = record {
  Float = ℕ;
  to_uint32 = λ x. x;
  to_int64 = λ x. x;
  to_uint64 = λ x. x;
  of_ℕ = λ n. n;
  to_uint32-of_ℕ = λ n h. refl;
  to_int64-of_ℕ = λ n h. refl;
  to_uint64-of_ℕ = λ n h. refl;
}

abbrev stream : ℕ → Publisher
stream ssrc = record {
  key = codes "live/movie";
  url = codes "rtmp";
  start_time = 1700000000000;
  ssrc = ssrc;
  id = 1;
  video_total_bytes = 0;
  video_speed = 0;
  audio_total_bytes = 0;
  audio_speed = 0;
}

stream-IsPublisher : IsPublisher (stream 7)
stream-IsPublisher = omega arith

stream-IsPublisher' : IsPublisher (stream 8)
stream-IsPublisher' = omega arith

update_publishers-document_example :
    (m : Dict ℕ Publisher) × (update_publishers whole
        (some (document whole (stream 7 ∷ stream 8 ∷ [])))
      ≡ done (some m))
    × ((s : ℕ) → lookup s m ≡ latest s (stream 7 ∷ stream 8 ∷ []))
update_publishers-document_example =
    update_publishers-document whole (stream 7 ∷ stream 8 ∷ [])
      (stream-IsPublisher, (stream-IsPublisher', tt))
