-- ===== src/App/Tests.antt =====
-- A node with a cloud node that publishes the stream 7; whole numbers stand for floats.
use rtp_http_flv.Prelude.{
  ℕ, ◌+◌, ◌≡◌, ◌≢◌, ◌≤◌, refl, Bool, true, false, Bool-cases, inl, inr, List, [], ◌∷◌, ◌++◌, Option,
  none, some, if◌then◌else◌, ltb, ◌==◌, Text, codes, Dict, lookup, nat_eq, text_eq, length, exact,
  make_chan, arith, Run, done, panics, blocks, out_of_fuel, ◌&&◌, not,
}
use rtp_http_flv.Rtp.Wire.{Packet, encode, IsPacket}
use rtp_http_flv.Publishers.{Floats, Publisher}
use rtp_http_flv.Publishers.Document.{document}
use rtp_http_flv.Cache.ArrayList.{as_list}
use rtp_http_flv.Cache.Window.{Slot}
use rtp_http_flv.Cache.Queue.{Node, Deps, Q}
use rtp_http_flv.App.{Outside, Config, Stream, App}
use rtp_http_flv.App.Streams.{new_app, new_queue, new_stream}
use rtp_http_flv.App.Alive.{check_alive}
use rtp_http_flv.App.Handler.{joined, handle_conn, streams, Answer}
use rtp_http_flv.App.Receive.{Link, receive_rtp}
use rtp_http_flv.App.Serve.{serve}
use rtp_http_flv.App.Registry.{IsApp, put-IsRegistry}
use rtp_http_flv.App.Registry.Reach.{
  Shared, Reach, receives, checks, serves, answers, here, next, Reach-IsApp,
}
use rtp_http_flv.App.Requests.{IsKey, url_of, handle_conn_streams}
use rtp_http_flv.App.Delivery.{received, sent, receive_rtp-encode}
use rtp_http_flv.App.Ends.{is_published, occurs, check_alive_leaves}
use rtp_http_flv.App.Ends.Outage.{Closes, check_alive_outage}

abbrev whole : Floats
whole = record {
  Float = ℕ;
  to_uint32 = λ x. x;
  to_int64 = λ x. x;
  to_uint64 = λ x. x;
  of_ℕ = λ n. n;
  to_uint32-of_ℕ = λ n h. refl;
  to_int64-of_ℕ = λ n h. refl;
  to_uint64-of_ℕ = λ n h. refl;
}

abbrev movie : Text
movie = codes "live/movie"

abbrev published : Publisher
published = record {
  key = movie;
  url = codes "rtmp";
  start_time = 1700000000000;
  ssrc = 7;
  id = 1;
  video_total_bytes = 0;
  video_speed = 0;
  audio_total_bytes = 0;
  audio_speed = 0;
}

abbrev packet : Packet
packet = record {
  version = 2;
  marker = 1;
  payload_type = 96;
  sequence_number = 5;
  timestamp = 0;
  ssrc = 7;
  csrc_cnt = 0;
  csrcs = [];
  extension = none;
  payload = 9 ∷ 0 ∷ 0 ∷ 5 ∷ 0 ∷ 0 ∷ 0 ∷ 0 ∷ 0 ∷ 0 ∷ 0 ∷ 23 ∷ 0 ∷ 0 ∷ 0 ∷ 0 ∷ [];
  padding = 0;
}

packet-IsPacket : IsPacket packet
packet-IsPacket = record {
  version = omega arith;
  marker = omega arith;
  payload_type = omega arith;
  sequence_number = omega arith;
  timestamp = omega arith;
  ssrc = omega arith;
  csrc_cnt = omega arith;
  csrcs = refl;
  extension = tt;
  payload = omega arith;
  padding = omega arith;
}

-- The state behind the node counts what it does.
abbrev cloud : Node
cloud = record {
  Net = ℕ;
  get_by_quic = λ ssrc seq net. done (none, net + 1);
  set_read_buffer = λ n net. (true, net);
  now = λ net. (net, net);
  update_publishers = λ net. done net;
  hls_write = λ a tag net. done (true, net);
  write_tag_direct = λ f tag net. (true, net);
}

abbrev deps : Deps
deps = record { slots = as_list Slot; clients = as_list (Option ℕ); node = cloud; protect = true }

abbrev reachable : Outside ℕ
reachable = record {
  floats = whole;
  fetch = λ net. done (some (document whole (published ∷ [])), net + 1);
  create_flv_file = λ name net. (some net, net);
  close_file = λ f net. net;
  get_writer = λ key net. (net, net);
  close_quic = λ net. done net;
}

abbrev unreachable : Outside ℕ
unreachable = record reachable { fetch = λ net. done (none, net + 1) }

abbrev settings : Config
settings = record {
  enable_hls = true;
  enable_record = true;
  padding_window_size = 2;
  chan_size = 4;
}

abbrev idle : App deps
idle = new_app deps 0

abbrev host : Text
host = codes "10.0.0.1"

abbrev fresh_link : Link
fresh_link = record {
  first_pkt = true;
  cloud_host = [];
  init = true;
  quic_port = none;
  api_port = none;
}

abbrev app_of : Run (App deps) → App deps
app_of (done a) = a
app_of _ = idle

abbrev state_of : Run (Shared deps reachable settings) → Shared deps reachable settings
state_of (done s) = s
state_of _ = (fresh_link, idle)

-- The first packet of a stream, its queue, a player, and the check.
abbrev begun : Shared deps reachable settings
begun = state_of (receive_rtp deps reachable settings false host (encode packet) (fresh_link, idle))

begins :
    receive_rtp deps reachable settings false host (encode packet) (fresh_link, idle) ≡ done begun
unfolding receive_rtp new_app rtp_http_flv.App.Receive.first_packet
    rtp_http_flv.App.Receive.handle_datagram rtp_http_flv.App.Streams.handle_new_packet
    rtp_http_flv.App.Streams.handle_new_stream rtp_http_flv.Publishers.update_publishers
    rtp_http_flv.Publishers.add_publishers rtp_http_flv.Publishers.publisher
begins = refl

abbrev served : App deps
served = app_of (serve deps 4 7 begun.1)

serves_7 : serve deps 4 7 begun.1 ≡ done served
unfolding receive_rtp new_app rtp_http_flv.App.Receive.first_packet
    rtp_http_flv.App.Receive.handle_datagram rtp_http_flv.App.Streams.handle_new_packet
    rtp_http_flv.App.Streams.handle_new_stream rtp_http_flv.Publishers.update_publishers
    rtp_http_flv.Publishers.add_publishers rtp_http_flv.Publishers.publisher serve
    rtp_http_flv.Cache.Queue.Receive.recv_packet rtp_http_flv.Cache.Queue.Receive.take_while
    rtp_http_flv.Cache.Queue.Slots.enqueue rtp_http_flv.Cache.Queue.Slots.is_first_ok
    rtp_http_flv.App.Streams.new_queue rtp_http_flv.App.Streams.new_stream
serves_7 = refl

abbrev answer_of : Run (Answer × App deps) → Answer × App deps
answer_of (done a) = a
answer_of _ = (streams 0, idle)

abbrev answered : Answer × App deps
answered = answer_of (handle_conn deps served (url_of movie))

answers_movie : handle_conn deps served (url_of movie) ≡ done answered
unfolding receive_rtp new_app rtp_http_flv.App.Receive.first_packet
    rtp_http_flv.App.Receive.handle_datagram rtp_http_flv.App.Streams.handle_new_packet
    rtp_http_flv.App.Streams.handle_new_stream rtp_http_flv.Publishers.update_publishers
    rtp_http_flv.Publishers.add_publishers rtp_http_flv.Publishers.publisher serve
    rtp_http_flv.Cache.Queue.Receive.recv_packet rtp_http_flv.Cache.Queue.Receive.take_while
    rtp_http_flv.Cache.Queue.Slots.enqueue rtp_http_flv.Cache.Queue.Slots.is_first_ok
    rtp_http_flv.App.Streams.new_queue rtp_http_flv.App.Streams.new_stream handle_conn
    rtp_http_flv.App.Handler.open_stream rtp_http_flv.App.Handler.has_channel
    rtp_http_flv.App.Handler.handle_new_flv_writer_request rtp_http_flv.Prelude.trim_suffix
answers_movie = refl

abbrev checked : App deps
checked = app_of (check_alive deps reachable settings true (7 ∷ []) answered.1)

checks_7 : check_alive deps reachable settings begun.0.init (7 ∷ []) answered.1 ≡ done checked
unfolding receive_rtp new_app rtp_http_flv.App.Receive.first_packet
    rtp_http_flv.App.Receive.handle_datagram rtp_http_flv.App.Streams.handle_new_packet
    rtp_http_flv.App.Streams.handle_new_stream rtp_http_flv.Publishers.update_publishers
    rtp_http_flv.Publishers.add_publishers rtp_http_flv.Publishers.publisher serve
    rtp_http_flv.Cache.Queue.Receive.recv_packet rtp_http_flv.Cache.Queue.Receive.take_while
    rtp_http_flv.Cache.Queue.Slots.enqueue rtp_http_flv.Cache.Queue.Slots.is_first_ok
    rtp_http_flv.App.Streams.new_queue rtp_http_flv.App.Streams.new_stream handle_conn
    rtp_http_flv.App.Handler.open_stream rtp_http_flv.App.Handler.has_channel
    rtp_http_flv.App.Handler.handle_new_flv_writer_request rtp_http_flv.Prelude.trim_suffix
    check_alive rtp_http_flv.App.Alive.check_streams rtp_http_flv.App.Alive.check_stream
    rtp_http_flv.App.Alive.close_queue rtp_http_flv.App.Streams.refresh
checks_7 = refl

reached : Reach deps reachable settings (fresh_link, idle) (begun.0, checked)
reached =
    next
      (next
        (next (next here (receives false host (encode packet) (omega arith) begins))
          (serves 4 7 served serves_7 refl))
        (answers (url_of movie) answered.0 answered.1 answers_movie refl))
      (checks (7 ∷ []) checked checks_7 refl)

Reach-IsApp_example : IsApp deps checked × (begun.0.init ≡ true)
Reach-IsApp_example = Reach-IsApp deps reachable settings fresh_link 0 (begun.0, checked) reached

-- Two streams, of which the cloud node publishes one.
abbrev stream : ℕ → Text → Stream deps
stream ssrc key = new_stream deps reachable settings ssrc key none none

abbrev one : App deps
one = record idle { rtp_queue_map = (7, stream 7 movie) ∷ []; key_ssrc_map = (movie, 7) ∷ [] }

idle-IsApp : IsApp deps idle
unfolding new_app
idle-IsApp = record {
  numbered = λ ssrc st h. absurd (cc h);
  reachable = λ key ssrc h. absurd (cc h);
}

one-IsApp : IsApp deps one
unfolding new_app new_stream new_queue
one-IsApp = put-IsRegistry deps [] [] 7 movie (stream 7 movie) idle-IsApp refl refl refl

abbrev talk : Text
talk = codes "live/talk"

abbrev two : App deps
two = record one {
  rtp_queue_map = (8, stream 8 talk) ∷ (7, stream 7 movie) ∷ [];
  key_ssrc_map = (talk, 8) ∷ (movie, 7) ∷ [];
}

two-IsApp : IsApp deps two
unfolding new_app new_stream new_queue
two-IsApp =
    put-IsRegistry deps one.rtp_queue_map one.key_ssrc_map 8 talk (stream 8 talk) one-IsApp refl
      refl refl

two_listed : (ssrc : ℕ) → lookup ssrc two.rtp_queue_map ≢ none → occurs ssrc (7 ∷ 8 ∷ []) ≡ true
two_listed ssrc h = elim (Bool-cases (8 == ssrc)) [
  | inl a ↦ ground (arith, a)
  | inr a ↦ elim (Bool-cases (7 == ssrc)) [
    | inl b ↦ ground (arith, b)
    | inr b ↦ absurd (h (rw (a, b) refl))
  ]
]

abbrev left : App deps
left = app_of (check_alive deps reachable settings true (7 ∷ 8 ∷ []) two)

checks_two : check_alive deps reachable settings true (7 ∷ 8 ∷ []) two ≡ done left
unfolding check_alive new_app rtp_http_flv.App.Streams.refresh
    rtp_http_flv.Publishers.update_publishers rtp_http_flv.Publishers.add_publishers
    rtp_http_flv.Publishers.publisher rtp_http_flv.App.Alive.check_streams
    rtp_http_flv.App.Alive.check_stream
checks_two = refl

check_alive_leaves_example :
    ((ssrc : ℕ)
      → lookup ssrc left.rtp_queue_map ≡ (
          if true && not (is_published ssrc left.publishers)
          then none
          else lookup ssrc two.rtp_queue_map))
    × ((key : Text) (ssrc : ℕ)
        → lookup key left.key_ssrc_map ≡ some ssrc
        → is_published ssrc left.publishers ≡ true)
check_alive_leaves_example =
    check_alive_leaves deps reachable settings true (7 ∷ 8 ∷ []) two left two-IsApp two_listed
      checks_two

closes : Closes deps unreachable settings
closes net = (net, refl)

check_alive_outage_example :
    (app' : App deps) × (check_alive deps unreachable settings true (7 ∷ 8 ∷ []) two ≡ done app')
    × ((ssrc : ℕ) → lookup ssrc app'.rtp_queue_map ≡ none)
    × ((key : Text) → lookup key app'.key_ssrc_map ≡ none)
unfolding new_app
check_alive_outage_example =
    check_alive_outage deps unreachable settings true (7 ∷ 8 ∷ []) two 1 two-IsApp two_listed closes
      refl

movie-IsKey : IsKey movie (codes "live") (codes "movie")
movie-IsKey = record {
  parts = refl;
  first = (λ e. omega arith, (λ e. omega arith, (λ e. omega arith, (λ e. omega arith, tt))));
  letter = λ e. cc;
}

handle_conn_streams_example :
    (st : Stream deps) × (lookup 7 two.rtp_queue_map ≡ some st)
    × (st.channel_key ≡ movie)
    × (handle_conn deps two (url_of movie) ≡ done (streams 0, joined deps two 7 st))
    × (deps.clients.values (deps.clients.add st.q.flv_writers (some 0))
        ≡ deps.clients.values st.q.flv_writers ++ some 0 ∷ [])
unfolding new_app
handle_conn_streams_example =
    handle_conn_streams deps two movie (codes "live") (codes "movie") 7 two-IsApp movie-IsKey refl
      (λ e. omega arith)

receive_rtp-encode_example :
    receive_rtp deps reachable settings false host
      (encode packet)
      (record fresh_link { first_pkt = false }, one)
    ≡ done (
      record fresh_link { first_pkt = false },
      record one {
        rtp_queue_map =
            (7, record (stream 7 movie) { in_chan = sent (make_chan 4) (received packet) }) ∷ [];
      },
    )
unfolding new_stream
receive_rtp-encode_example =
    receive_rtp-encode deps reachable settings (record fresh_link { first_pkt = false }) one host
      packet (stream 7 movie) packet-IsPacket (omega arith) refl refl refl (omega arith)
