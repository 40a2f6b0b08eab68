-- ===== src/Hls/Server/Tests.antt =====
-- A stream of three key frames, with a stand-in for the library livego that copies what it is given.
use rtp_http_flv.Prelude.{
  ℕ, ◌+◌, ◌≡◌, refl, sym, subst, Bool, true, false, [], ◌∷◌, ◌++◌, some, ltb, Text, codes, lookup,
  text_eq, All, arith, Run, done,
}
use rtp_http_flv.Hls.Livego.{Livego, AvPacket, demuxed, video_header}
use rtp_http_flv.Hls.Source.{Source, new_source, write}
use rtp_http_flv.Hls.Source.Send.{send_packet}
use rtp_http_flv.Hls.Source.Segments.{IsSource}
use rtp_http_flv.Hls.Source.Names.{segment_name}
use rtp_http_flv.Hls.Source.Reach
use rtp_http_flv.Hls.Source.Reach.{Reach-IsSource, writes, sends, here, next}
use rtp_http_flv.Hls.TsCache.{gen_m3u8_play_list}
use rtp_http_flv.Hls.Server.{
  Server, store_source, get_writer, check_stop, check_conn, handle, play_list, forbidden,
}
use rtp_http_flv.Hls.Server.Paths.{IsStreamKey, list_url}
use rtp_http_flv.Hls.Server.Follows.{Served}
use rtp_http_flv.Hls.Server.Reach as ServerReach
use rtp_http_flv.Hls.Server.Reach.{opens, runs, reach_follows}
use rtp_http_flv.Hls.Server.Dropped.{Goes, dropped_stays}
use rtp_http_flv.Hls.Server.Dropped as Drop

abbrev copying : Livego
copying = record {
  demux = λ p. done (demuxed p);
  Parser = ℕ;
  new_parser = 0;
  parse = λ p b t. done (true, b ++ p.payload, t);
  sample_rate = λ t. 44100;
  Muxer = ℕ;
  new_muxer = 0;
  pat = λ m. (71 ∷ [], m);
  pmt = λ audio video m. (72 ∷ [], m + 1);
  mux = λ p b m. done (true, b ++ p.payload, m);
  Base = ℕ;
  new_base = λ n. 0;
  set_pre_time = λ now b. now;
  alive = λ now b. ltb now (b + 10);
}

-- A key frame of H.264.
abbrev frame : ℕ → AvPacket
frame time = record {
  is_video = true;
  is_metadata = false;
  time_stamp = time;
  header =
      video_header
        (record { is_key_frame = true; is_seq = false; codec_id = 7; composition_time = 0 });
  payload = time ∷ [];
}

abbrev key : Text
key = codes "live/movie"

abbrev start : Source copying
start = new_source copying key

abbrev written : Run (Bool × Source copying) → Source copying
written (done (ok, s)) = s
written _ = start

abbrev sent : Run (Source copying) → Source copying
sent (done s) = s
sent _ = start

abbrev s1 : Source copying
s1 = written (write copying 100 (frame 0) start)

write_s1 : write copying 100 (frame 0) start ≡ done (true, s1)
unfolding write new_source send_packet rtp_http_flv.Hls.Source.Send.take_packet
    rtp_http_flv.Hls.Source.Send.parse rtp_http_flv.Hls.Source.Send.parse_frame
    rtp_http_flv.Hls.Source.Send.feed rtp_http_flv.Hls.Source.Cuts.cut
    rtp_http_flv.Hls.Source.Cuts.end_segment rtp_http_flv.Hls.Source.Cuts.mux_audio
    rtp_http_flv.Hls.Source.Cuts.write_tables rtp_http_flv.Hls.Source.Send.add_packet
    rtp_http_flv.Hls.Source.Send.calc_pts_dts rtp_http_flv.Hls.Source.Send.ts_mux
    rtp_http_flv.Hls.Status.update rtp_http_flv.Hls.Status.new_status
    rtp_http_flv.Hls.Status.reset_and_new rtp_http_flv.Hls.Status.duration_ms
    rtp_http_flv.Hls.TsCache.set_item rtp_http_flv.Hls.TsCache.new_ts_item
    rtp_http_flv.Hls.TsCache.new_ts_cache_item rtp_http_flv.Hls.TsCache.evict
    rtp_http_flv.Hls.AudioCache.cache_num rtp_http_flv.Hls.AudioCache.new_audio_cache
    rtp_http_flv.Hls.Source.Names.segment_name rtp_http_flv.Hls.Source.Names.digits
    rtp_http_flv.Hls.Source.Names.digits_within
write_s1 = refl

abbrev s2 : Source copying
s2 = sent (send_packet copying 100 s1)

send_s2 : send_packet copying 100 s1 ≡ done s2
unfolding write new_source send_packet rtp_http_flv.Hls.Source.Send.take_packet
    rtp_http_flv.Hls.Source.Send.parse rtp_http_flv.Hls.Source.Send.parse_frame
    rtp_http_flv.Hls.Source.Send.feed rtp_http_flv.Hls.Source.Cuts.cut
    rtp_http_flv.Hls.Source.Cuts.end_segment rtp_http_flv.Hls.Source.Cuts.mux_audio
    rtp_http_flv.Hls.Source.Cuts.write_tables rtp_http_flv.Hls.Source.Send.add_packet
    rtp_http_flv.Hls.Source.Send.calc_pts_dts rtp_http_flv.Hls.Source.Send.ts_mux
    rtp_http_flv.Hls.Status.update rtp_http_flv.Hls.Status.new_status
    rtp_http_flv.Hls.Status.reset_and_new rtp_http_flv.Hls.Status.duration_ms
    rtp_http_flv.Hls.TsCache.set_item rtp_http_flv.Hls.TsCache.new_ts_item
    rtp_http_flv.Hls.TsCache.new_ts_cache_item rtp_http_flv.Hls.TsCache.evict
    rtp_http_flv.Hls.AudioCache.cache_num rtp_http_flv.Hls.AudioCache.new_audio_cache
    rtp_http_flv.Hls.Source.Names.segment_name rtp_http_flv.Hls.Source.Names.digits
    rtp_http_flv.Hls.Source.Names.digits_within
send_s2 = refl

abbrev s3 : Source copying
s3 = written (write copying 103 (frame 3000) s2)

write_s3 : write copying 103 (frame 3000) s2 ≡ done (true, s3)
unfolding write new_source send_packet rtp_http_flv.Hls.Source.Send.take_packet
    rtp_http_flv.Hls.Source.Send.parse rtp_http_flv.Hls.Source.Send.parse_frame
    rtp_http_flv.Hls.Source.Send.feed rtp_http_flv.Hls.Source.Cuts.cut
    rtp_http_flv.Hls.Source.Cuts.end_segment rtp_http_flv.Hls.Source.Cuts.mux_audio
    rtp_http_flv.Hls.Source.Cuts.write_tables rtp_http_flv.Hls.Source.Send.add_packet
    rtp_http_flv.Hls.Source.Send.calc_pts_dts rtp_http_flv.Hls.Source.Send.ts_mux
    rtp_http_flv.Hls.Status.update rtp_http_flv.Hls.Status.new_status
    rtp_http_flv.Hls.Status.reset_and_new rtp_http_flv.Hls.Status.duration_ms
    rtp_http_flv.Hls.TsCache.set_item rtp_http_flv.Hls.TsCache.new_ts_item
    rtp_http_flv.Hls.TsCache.new_ts_cache_item rtp_http_flv.Hls.TsCache.evict
    rtp_http_flv.Hls.AudioCache.cache_num rtp_http_flv.Hls.AudioCache.new_audio_cache
    rtp_http_flv.Hls.Source.Names.segment_name rtp_http_flv.Hls.Source.Names.digits
    rtp_http_flv.Hls.Source.Names.digits_within
write_s3 = refl

abbrev s4 : Source copying
s4 = sent (send_packet copying 103 s3)

send_s4 : send_packet copying 103 s3 ≡ done s4
unfolding write new_source send_packet rtp_http_flv.Hls.Source.Send.take_packet
    rtp_http_flv.Hls.Source.Send.parse rtp_http_flv.Hls.Source.Send.parse_frame
    rtp_http_flv.Hls.Source.Send.feed rtp_http_flv.Hls.Source.Cuts.cut
    rtp_http_flv.Hls.Source.Cuts.end_segment rtp_http_flv.Hls.Source.Cuts.mux_audio
    rtp_http_flv.Hls.Source.Cuts.write_tables rtp_http_flv.Hls.Source.Send.add_packet
    rtp_http_flv.Hls.Source.Send.calc_pts_dts rtp_http_flv.Hls.Source.Send.ts_mux
    rtp_http_flv.Hls.Status.update rtp_http_flv.Hls.Status.new_status
    rtp_http_flv.Hls.Status.reset_and_new rtp_http_flv.Hls.Status.duration_ms
    rtp_http_flv.Hls.TsCache.set_item rtp_http_flv.Hls.TsCache.new_ts_item
    rtp_http_flv.Hls.TsCache.new_ts_cache_item rtp_http_flv.Hls.TsCache.evict
    rtp_http_flv.Hls.AudioCache.cache_num rtp_http_flv.Hls.AudioCache.new_audio_cache
    rtp_http_flv.Hls.Source.Names.segment_name rtp_http_flv.Hls.Source.Names.digits
    rtp_http_flv.Hls.Source.Names.digits_within
send_s4 = refl

abbrev s5 : Source copying
s5 = written (write copying 104 (frame 3100) s4)

write_s5 : write copying 104 (frame 3100) s4 ≡ done (true, s5)
unfolding write new_source send_packet rtp_http_flv.Hls.Source.Send.take_packet
    rtp_http_flv.Hls.Source.Send.parse rtp_http_flv.Hls.Source.Send.parse_frame
    rtp_http_flv.Hls.Source.Send.feed rtp_http_flv.Hls.Source.Cuts.cut
    rtp_http_flv.Hls.Source.Cuts.end_segment rtp_http_flv.Hls.Source.Cuts.mux_audio
    rtp_http_flv.Hls.Source.Cuts.write_tables rtp_http_flv.Hls.Source.Send.add_packet
    rtp_http_flv.Hls.Source.Send.calc_pts_dts rtp_http_flv.Hls.Source.Send.ts_mux
    rtp_http_flv.Hls.Status.update rtp_http_flv.Hls.Status.new_status
    rtp_http_flv.Hls.Status.reset_and_new rtp_http_flv.Hls.Status.duration_ms
    rtp_http_flv.Hls.TsCache.set_item rtp_http_flv.Hls.TsCache.new_ts_item
    rtp_http_flv.Hls.TsCache.new_ts_cache_item rtp_http_flv.Hls.TsCache.evict
    rtp_http_flv.Hls.AudioCache.cache_num rtp_http_flv.Hls.AudioCache.new_audio_cache
    rtp_http_flv.Hls.Source.Names.segment_name rtp_http_flv.Hls.Source.Names.digits
    rtp_http_flv.Hls.Source.Names.digits_within
write_s5 = refl

abbrev s6 : Source copying
s6 = sent (send_packet copying 104 s5)

send_s6 : send_packet copying 104 s5 ≡ done s6
unfolding write new_source send_packet rtp_http_flv.Hls.Source.Send.take_packet
    rtp_http_flv.Hls.Source.Send.parse rtp_http_flv.Hls.Source.Send.parse_frame
    rtp_http_flv.Hls.Source.Send.feed rtp_http_flv.Hls.Source.Cuts.cut
    rtp_http_flv.Hls.Source.Cuts.end_segment rtp_http_flv.Hls.Source.Cuts.mux_audio
    rtp_http_flv.Hls.Source.Cuts.write_tables rtp_http_flv.Hls.Source.Send.add_packet
    rtp_http_flv.Hls.Source.Send.calc_pts_dts rtp_http_flv.Hls.Source.Send.ts_mux
    rtp_http_flv.Hls.Status.update rtp_http_flv.Hls.Status.new_status
    rtp_http_flv.Hls.Status.reset_and_new rtp_http_flv.Hls.Status.duration_ms
    rtp_http_flv.Hls.TsCache.set_item rtp_http_flv.Hls.TsCache.new_ts_item
    rtp_http_flv.Hls.TsCache.new_ts_cache_item rtp_http_flv.Hls.TsCache.evict
    rtp_http_flv.Hls.AudioCache.cache_num rtp_http_flv.Hls.AudioCache.new_audio_cache
    rtp_http_flv.Hls.Source.Names.segment_name rtp_http_flv.Hls.Source.Names.digits
    rtp_http_flv.Hls.Source.Names.digits_within
send_s6 = refl

reached : Reach.Reach copying start s6
reached =
    next
      (next
        (next
          (next (next (next here (writes 100 (frame 0) true write_s1)) (sends 100 send_s2))
            (writes 103 (frame 3000) true write_s3))
          (sends 103 send_s4))
        (writes 104 (frame 3100) true write_s5))
      (sends 104 send_s6)

Reach-IsSource_example : IsSource copying key s6
Reach-IsSource_example = Reach-IsSource copying key s6 reached

-- The first segment is in the cache.
one_segment : s6.seq ≡ 1
unfolding write new_source send_packet rtp_http_flv.Hls.Source.Send.take_packet
    rtp_http_flv.Hls.Source.Send.parse rtp_http_flv.Hls.Source.Send.parse_frame
    rtp_http_flv.Hls.Source.Send.feed rtp_http_flv.Hls.Source.Cuts.cut
    rtp_http_flv.Hls.Source.Cuts.end_segment rtp_http_flv.Hls.Source.Cuts.mux_audio
    rtp_http_flv.Hls.Source.Cuts.write_tables rtp_http_flv.Hls.Source.Send.add_packet
    rtp_http_flv.Hls.Source.Send.calc_pts_dts rtp_http_flv.Hls.Source.Send.ts_mux
    rtp_http_flv.Hls.Status.update rtp_http_flv.Hls.Status.new_status
    rtp_http_flv.Hls.Status.reset_and_new rtp_http_flv.Hls.Status.duration_ms
    rtp_http_flv.Hls.TsCache.set_item rtp_http_flv.Hls.TsCache.new_ts_item
    rtp_http_flv.Hls.TsCache.new_ts_cache_item rtp_http_flv.Hls.TsCache.evict
    rtp_http_flv.Hls.AudioCache.cache_num rtp_http_flv.Hls.AudioCache.new_audio_cache
    rtp_http_flv.Hls.Source.Names.segment_name rtp_http_flv.Hls.Source.Names.digits
    rtp_http_flv.Hls.Source.Names.digits_within
one_segment = refl

-- The same stream on the server.
abbrev empty_server : Server copying
empty_server = record { conns = []; heap = λ a. start; next = 0 }

abbrev opened : Server copying
opened = record {
  conns = (key, 0) ∷ [];
  heap = store_source copying empty_server.heap 0 start;
  next = 1;
}

opens_key : opened ≡ (get_writer copying key empty_server).1
unfolding get_writer
opens_key = refl

abbrev holding : Server copying → Source copying → Server copying
holding srv s = record srv { heap = store_source copying srv.heap 0 s }

abbrev server1 : Server copying
server1 = holding opened s1

abbrev server2 : Server copying
server2 = holding server1 s2

abbrev server3 : Server copying
server3 = holding server2 s3

abbrev server4 : Server copying
server4 = holding server3 s4

abbrev server5 : Server copying
server5 = holding server4 s5

abbrev server6 : Server copying
server6 = holding server5 s6

server_reached : ServerReach.Reach copying empty_server server6
server_reached =
    ServerReach.next
      (ServerReach.next
        (ServerReach.next
          (ServerReach.next
            (ServerReach.next
              (ServerReach.next (ServerReach.next ServerReach.here (opens key opens_key))
                (runs 0 s1 (writes 100 (frame 0) true write_s1) refl))
              (runs 0 s2 (sends 100 send_s2) refl))
            (runs 0 s3 (writes 103 (frame 3000) true write_s3) refl))
          (runs 0 s4 (sends 103 send_s4) refl))
        (runs 0 s5 (writes 104 (frame 3100) true write_s5) refl))
      (runs 0 s6 (sends 104 send_s6) refl)

key-IsStreamKey : IsStreamKey key (codes "live") (codes "movie")
key-IsStreamKey = record {
  parts = refl;
  letter = λ e. cc;
  first = (λ e. omega arith, (λ e. omega arith, (λ e. omega arith, (λ e. omega arith, tt))));
  second = (
    λ e. omega arith,
    (λ e. omega arith, (λ e. omega arith, (λ e. omega arith, (λ e. omega arith, tt)))),
  );
  plain = (
    λ e. omega arith,
    (
      λ e. omega arith,
      (
        λ e. omega arith,
        (
          λ e. omega arith,
          (
            λ e. omega arith,
            (
              λ e. omega arith,
              (λ e. omega arith, (λ e. omega arith, (λ e. omega arith, (λ e. omega arith, tt)))),
            ),
          ),
        ),
      ),
    ),
  );
}

known : lookup key server6.conns ≡ some 0
known = refl

reach_follows_example :
    let p = gen_m3u8_play_list (server6.heap 0).ts_cache in
    (handle copying server6 (list_url key) ≡ play_list p)
    × All (Served copying server6 (server6.heap 0)) p.entries
reach_follows_example =
    reach_follows copying empty_server server6 key (codes "live") (codes "movie") 0 refl
      server_reached key-IsStreamKey known

-- The source is silent for a time, is dropped, and then gets a packet again.
abbrev dropped : Server copying
dropped = record opened { conns = [] }

drops_key : check_stop copying 100 (key ∷ []) opened ≡ dropped
unfolding check_stop check_conn new_source
drops_key = refl

abbrev resumed : Server copying
resumed = holding dropped s1

write_resumed : Goes copying key dropped resumed
write_resumed = Drop.next Drop.here (Drop.runs 0 s1 (writes 100 (frame 0) true write_s1) refl)

silent : copying.alive 100 (opened.heap 0).base ≡ false
unfolding new_source
silent = refl

resumes : Goes copying key (check_stop copying 100 (key ∷ []) opened) resumed
resumes = subst (λ (t : Server copying). Goes copying key t resumed) (sym drops_key) write_resumed

dropped_stays_example :
    (handle copying resumed (list_url key) ≡ forbidden)
    × ((time : ℕ) → handle copying resumed (segment_name key time) ≡ forbidden)
dropped_stays_example =
    dropped_stays copying 100 (key ∷ []) opened resumed key (codes "live") (codes "movie") 0
      key-IsStreamKey refl silent refl resumes
