-- ===== src/HttpFlv/Writer/Tests.antt =====
-- A client whose response takes every byte.
use rtp_http_flv.Prelude.{
  ℕ, ◌≡◌, refl, true, false, Chan, List, [], ◌∷◌, ◌++◌, some, done, blocks, Slice, exact, arith,
}
use rtp_http_flv.HttpFlv.Writer.{
  Sink, FlvWriter, fresh, write, wait, new_flv_writer, put_i32_be, flv_header,
}
use rtp_http_flv.HttpFlv.Writer.Drop.{drop_rounds, thins, drop_rounds_lem}
use rtp_http_flv.HttpFlv.Writer.Lifecycle.{start, next, writes, wait_never_returns}
use rtp_http_flv.HttpFlv.Writer.Stream.{frames, write_all, send_rounds, stream_is_flv}

abbrev response : Sink
response = record {
  World = List ℕ;
  write = λ b w. (true, w ++ b);
  contents = λ w. w;
  contents-write = λ b w h. refl;
}

abbrev tag : Slice
tag = exact (9 ∷ 0 ∷ 0 ∷ 1 ∷ 0 ∷ 0 ∷ 0 ∷ 0 ∷ 0 ∷ 0 ∷ 0 ∷ 23 ∷ [])

abbrev waiting : FlvWriter
waiting = record fresh { packet_queue = record fresh.packet_queue { pending = tag ∷ [] } }

tag_written : write fresh tag ≡ done (some waiting)
unfolding write
tag_written = refl

wait_never_returns_example : wait waiting ≡ blocks
wait_never_returns_example = wait_never_returns response (next start (writes tag tag_written))

stream_is_flv_example :
    let (w, ctx1) = new_flv_writer response [] in
    (w' : FlvWriter) × (ctx' : List ℕ) × (write_all w (tag ∷ tag ∷ []) ≡ done (some w'))
    × (send_rounds response 2 w' ctx1 ≡ done (true, w, ctx'))
    × (ctx' ≡ [] ++ (flv_header ++ (put_i32_be 0 ++ frames (tag ∷ tag ∷ []))))
stream_is_flv_example =
    stream_is_flv response (λ b w. refl) (tag ∷ tag ∷ []) [] (omega arith, (omega arith, tt))
      (omega arith)

-- A key frame, a tag that is lost with it, and an audio tag.
abbrev audio : Slice
audio = exact (8 ∷ 0 ∷ 0 ∷ 1 ∷ 0 ∷ 0 ∷ 0 ∷ 0 ∷ 0 ∷ 0 ∷ 0 ∷ 175 ∷ [])

abbrev crowded : Chan Slice
crowded = record { pending = tag ∷ tag ∷ audio ∷ tag ∷ []; capacity = 4; is_closed = false }

abbrev thinned : Chan Slice
thinned = record crowded { pending = tag ∷ audio ∷ [] }

drops : drop_rounds 2 crowded ≡ done thinned
unfolding drop_rounds rtp_http_flv.HttpFlv.Writer.Drop.drop_round
    rtp_http_flv.HttpFlv.Writer.Drop.drop_video rtp_http_flv.HttpFlv.Writer.Drop.is_kept
    rtp_http_flv.Flv.Packet.parse
drops = refl

drop_rounds_lem_example : thinned.pending ≡ thins 2 crowded.pending
drop_rounds_lem_example = drop_rounds_lem 2 crowded thinned drops
