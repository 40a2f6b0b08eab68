-- ===== src/Client/Start.antt =====
-- The start of `httpFlv` of http-client.go: the list of streams, and the request. The client has its own
-- copies of `Get` and `UpdatePublishers`, which are those of utils/util.go line for line.
use rtp_http_flv.Prelude.{
  ℕ, ◌≡◌, refl, List, Option, none, some, Dict, nat_eq, Run, done, panics, ◌>>=◌, deref,
}
use rtp_http_flv.Publishers as Copied
use rtp_http_flv.Publishers.{Floats, Json, Fields, Publisher}
use rtp_http_flv.App.{publisher_of}
use rtp_http_flv.Client.{Body, TagHeader, http_flv}

unfoldable pub get : {F : Type 0} → Option (Json F) → Run (Option (Fields F))
get answer = Copied.get answer

-- The stream that is played in the test.
abbrev pub test_ssrc : ℕ
test_ssrc = 1020304

module _ (floats : Floats) (body : Body) where
  open body use {World}

  unfoldable pub update_publishers : Option (Json floats.Float) → Run (Option (Dict ℕ Publisher))
  update_publishers answer = Copied.update_publishers floats answer

  -- `publishers[1020304].StartTime`
  unfoldable pub start_time : Option (Dict ℕ Publisher) → Run ℕ
  start_time pubs = do p ← deref (publisher_of test_ssrc pubs); done p.start_time

  -- `httpFlv`, with the answer to the request for the streams, and the response to the one for the stream.
  unfoldable pub play :
      ℕ → Option (Json floats.Float) → Option World → Run (Option (List (TagHeader × List ℕ) × ℕ))
  play fuel answer response = do
    pubs ← update_publishers answer
    t ← start_time pubs
    elim response [ none ↦ done none | some w ↦ http_flv body fuel w ]

  -- The client panics where the request for the streams fails, and where the one stream that it asks for
  -- is not in the list, whatever stream it has been told to play.
  pub play_panics :
      (fuel : ℕ) (answer : Option (Json floats.Float)) (response : Option World)
      (pubs : Option (Dict ℕ Publisher))
      → update_publishers answer ≡ done pubs
      → publisher_of test_ssrc pubs ≡ none
      → play fuel answer response ≡ panics
  unfolding play start_time
  play_panics fuel answer response pubs e f = rw (e, f) refl
