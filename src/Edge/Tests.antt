-- ===== src/Edge/Tests.antt =====
-- A whole node that gets two packets of a stream, with stand-ins for the libraries.
mod Libraries
mod Delivery
use rtp_http_flv.Prelude.{
  replicate, suc, length, if◌then◌else◌, ◌==◌, ◌-◌, ℕ, ◌+◌, ◌≡◌, refl, true, false, List, [], ◌∷◌,
  ◌++◌, Option, none, some, ltb, ◌<◌, All, Text, codes, lookup, nat_eq, text_eq, arith, Run, done,
  panics, exact, Slice,
}
use rtp_http_flv.Rtp.Wire.{Packet, encode}
use rtp_http_flv.Publishers.{Floats, Publisher}
use rtp_http_flv.Publishers.Document.{document}
use rtp_http_flv.Quic.{QuicLib}
use rtp_http_flv.Recording.{OsFile}
use rtp_http_flv.Hls.Livego.{Livego, AvPacket, demuxed, video_header}
use rtp_http_flv.Hls.Source.{Source, new_source}
use rtp_http_flv.HttpFlv.Writer.Stream.{frame}
use rtp_http_flv.Cache.ArrayList.{as_list}
use rtp_http_flv.Cache.Window.{Slot}
use rtp_http_flv.Cache.Queue.{Deps, S}
use rtp_http_flv.Cache.Queue.Extract.{record_tag}
use rtp_http_flv.App.{Config, Stream, App}
use rtp_http_flv.App.Streams.{new_app, new_stream}
use rtp_http_flv.App.Serve.{view, serve}
use rtp_http_flv.App.Receive.{Link, receive_rtp}
use rtp_http_flv.App.Registry.Reach.{receives, serves}
use rtp_http_flv.Edge.{System, Settings, World, outside}
use rtp_http_flv.Edge.Streams.{dep, IsStream}
use rtp_http_flv.Edge.Rounds.{Running, Reach, here, next, node, Reach-IsStream}
use rtp_http_flv.Utils.Seq.{add16}
use rtp_http_flv.Cache.Queue.Print.{Info, print_info}
use rtp_http_flv.Edge.Prints.{Reach-print_info}
use rtp_http_flv.Edge.Delivery.{record_tag_delivers}
use rtp_http_flv.Edge.Tests.Libraries.{
  movie, packet, copying, av_packet, system, settings, config, D, quiet_world,
}

abbrev Node : Type 0
Node = Running system settings (as_list Slot) (as_list _) config

abbrev host : Text
host = codes "10.0.0.1"

abbrev link : Link
link = record {
  first_pkt = false;
  cloud_host = host;
  init = true;
  quic_port = none;
  api_port = none;
}

abbrev start : Node
start = (link, new_app D quiet_world)

abbrev node_of : Run Node → Node
node_of (done s) = s
node_of _ = start

abbrev app_of : Run (App D) → App D
app_of (done a) = a
app_of _ = new_app D quiet_world

abbrev first : Node
first =
    node_of (receive_rtp D (outside system settings) config false host (encode (packet 5)) start)

receives_5 :
    receive_rtp D (outside system settings) config false host (encode (packet 5)) start ≡ done first
unfolding receive_rtp rtp_http_flv.App.Receive.handle_datagram
    rtp_http_flv.App.Streams.handle_new_packet new_app rtp_http_flv.App.Streams.handle_new_stream
    rtp_http_flv.Publishers.update_publishers rtp_http_flv.Publishers.add_publishers
    rtp_http_flv.Publishers.publisher
receives_5 = refl

abbrev second : Node
second =
    node_of (receive_rtp D (outside system settings) config false host (encode (packet 6)) first)

receives_6 :
    receive_rtp D (outside system settings) config false host (encode (packet 6)) first
    ≡ done second
unfolding receive_rtp rtp_http_flv.App.Receive.handle_datagram
    rtp_http_flv.App.Streams.handle_new_packet new_app rtp_http_flv.App.Streams.handle_new_stream
    rtp_http_flv.Publishers.update_publishers rtp_http_flv.Publishers.add_publishers
    rtp_http_flv.Publishers.publisher
receives_6 = refl

-- The queue takes both packets, and then records the tag of the first one.
abbrev third : App D
third = app_of (serve D 4 7 second.1)

serves_5 : serve D 4 7 second.1 ≡ done third
unfolding receive_rtp rtp_http_flv.App.Receive.handle_datagram
    rtp_http_flv.App.Streams.handle_new_packet new_app rtp_http_flv.App.Streams.handle_new_stream
    rtp_http_flv.Publishers.update_publishers rtp_http_flv.Publishers.add_publishers
    rtp_http_flv.Publishers.publisher serve rtp_http_flv.Cache.Queue.Receive.recv_packet
    rtp_http_flv.Cache.Queue.Receive.take_while rtp_http_flv.Cache.Queue.Slots.enqueue
    rtp_http_flv.Cache.Queue.Slots.is_first_ok
serves_5 = refl

abbrev fourth : App D
fourth = app_of (serve D 4 7 third)

serves_6 : serve D 4 7 third ≡ done fourth
unfolding receive_rtp rtp_http_flv.App.Receive.handle_datagram
    rtp_http_flv.App.Streams.handle_new_packet new_app rtp_http_flv.App.Streams.handle_new_stream
    rtp_http_flv.Publishers.update_publishers rtp_http_flv.Publishers.add_publishers
    rtp_http_flv.Publishers.publisher serve rtp_http_flv.Cache.Queue.Receive.recv_packet
    rtp_http_flv.Cache.Queue.Receive.take_while rtp_http_flv.Cache.Queue.Slots.enqueue
    rtp_http_flv.Cache.Queue.Slots.is_first_ok rtp_http_flv.App.Streams.new_stream
    rtp_http_flv.App.Streams.new_queue rtp_http_flv.App.Streams.open_hls
    rtp_http_flv.App.Streams.open_record rtp_http_flv.App.Streams.refresh
    rtp_http_flv.App.Streams.send_packet rtp_http_flv.App.Receive.first_packet
    rtp_http_flv.Edge.create_flv_file rtp_http_flv.Edge.keep_file rtp_http_flv.Edge.hls_write
    rtp_http_flv.Edge.write_file rtp_http_flv.Recording.create_file
    rtp_http_flv.Recording.write_tag_direct rtp_http_flv.Hls.Server.get_writer
    rtp_http_flv.Hls.Source.new_source rtp_http_flv.Hls.Source.write
    rtp_http_flv.HttpFlv.Writer.put_i32_be rtp_http_flv.Rtp.Parse.parse
    rtp_http_flv.Rtp.Parse.parse_header rtp_http_flv.Rtp.Parse.parse_payload
    rtp_http_flv.Rtp.Parse.skip_extension rtp_http_flv.Rtp.Parse.skip_csrc
    rtp_http_flv.Rtp.Parse.strip_padding rtp_http_flv.Utils.Seq.first_before_second
    rtp_http_flv.Utils.Seq.relative rtp_http_flv.Utils.TagHead.is_tag_head
    rtp_http_flv.Flv.Packet.parse rtp_http_flv.Flv.Packet.demux_header
    rtp_http_flv.Cache.FlvRecord.new_flv_record rtp_http_flv.Cache.FlvRecord.reset
    rtp_http_flv.Cache.FlvRecord.Assemble.copy_in
    rtp_http_flv.Cache.FlvRecord.Assemble.first_fragment
    rtp_http_flv.Cache.FlvRecord.Assemble.next_fragment
    rtp_http_flv.Cache.FlvRecord.Assemble.add_fragment
    rtp_http_flv.Cache.FlvRecord.Assemble.assemble rtp_http_flv.Cache.FlvRecord.Assemble.jump
    rtp_http_flv.Cache.Segments.new_cache rtp_http_flv.Cache.Segments.write
    rtp_http_flv.Cache.Segments.send_initial_segment rtp_http_flv.HttpFlv.Writer.write
    rtp_http_flv.Cache.Queue.Slots.get_head_nil rtp_http_flv.Cache.Queue.Slots.remove_head
    rtp_http_flv.Cache.Queue.Retransmit.reshape rtp_http_flv.Cache.Queue.Retransmit.grow_buffer
    rtp_http_flv.Cache.Queue.Retransmit.protect_head rtp_http_flv.Cache.Queue.Retransmit.run_quic
    rtp_http_flv.Cache.Queue.Retransmit.dequeue rtp_http_flv.Cache.Queue.Extract.tag_time
    rtp_http_flv.Cache.Queue.Extract.get_delay rtp_http_flv.Cache.Queue.Extract.fill_cache
    rtp_http_flv.Cache.Queue.Extract.initialise rtp_http_flv.Cache.Queue.Extract.serve_client
    rtp_http_flv.Cache.Queue.Extract.visit rtp_http_flv.Cache.Queue.Extract.serve_clients
    rtp_http_flv.Cache.Queue.Extract.record_tag rtp_http_flv.Cache.Queue.Extract.measure
    rtp_http_flv.Cache.Queue.Extract.publish rtp_http_flv.Cache.Queue.Extract.extract_flv
    rtp_http_flv.Cache.Queue.Receive.take_one
serves_6 = refl

reached : Reach system settings (as_list Slot) (as_list _) config start (second.0, fourth)
reached =
    next
      (next
        (next (next here (node (receives false host (encode (packet 5)) (omega arith) receives_5)))
          (node (receives false host (encode (packet 6)) (omega arith) receives_6)))
        (node (serves 4 7 third serves_5 refl)))
      (node (serves 4 7 fourth serves_6 refl))

abbrev stream_of : Option (Stream D) → Stream D
stream_of (some st) = st
stream_of none = new_stream D (outside system settings) config 0 [] none none

abbrev stream : Stream D
stream = stream_of (lookup 7 fourth.rtp_queue_map)

Reach-IsStream_example : IsStream system settings (as_list Slot) (as_list _) stream fourth.net
unfolding receive_rtp rtp_http_flv.App.Receive.handle_datagram
    rtp_http_flv.App.Streams.handle_new_packet new_app rtp_http_flv.App.Streams.handle_new_stream
    rtp_http_flv.Publishers.update_publishers rtp_http_flv.Publishers.add_publishers
    rtp_http_flv.Publishers.publisher serve rtp_http_flv.Cache.Queue.Receive.recv_packet
    rtp_http_flv.Cache.Queue.Receive.take_while rtp_http_flv.Cache.Queue.Slots.enqueue
    rtp_http_flv.Cache.Queue.Slots.is_first_ok rtp_http_flv.App.Streams.new_stream
    rtp_http_flv.App.Streams.new_queue rtp_http_flv.App.Streams.open_hls
    rtp_http_flv.App.Streams.open_record rtp_http_flv.App.Streams.refresh
    rtp_http_flv.App.Streams.send_packet rtp_http_flv.App.Receive.first_packet
    rtp_http_flv.Edge.create_flv_file rtp_http_flv.Edge.keep_file rtp_http_flv.Edge.hls_write
    rtp_http_flv.Edge.write_file rtp_http_flv.Recording.create_file
    rtp_http_flv.Recording.write_tag_direct rtp_http_flv.Hls.Server.get_writer
    rtp_http_flv.Hls.Source.new_source rtp_http_flv.Hls.Source.write
    rtp_http_flv.HttpFlv.Writer.put_i32_be rtp_http_flv.Rtp.Parse.parse
    rtp_http_flv.Rtp.Parse.parse_header rtp_http_flv.Rtp.Parse.parse_payload
    rtp_http_flv.Rtp.Parse.skip_extension rtp_http_flv.Rtp.Parse.skip_csrc
    rtp_http_flv.Rtp.Parse.strip_padding rtp_http_flv.Utils.Seq.first_before_second
    rtp_http_flv.Utils.Seq.relative rtp_http_flv.Utils.TagHead.is_tag_head
    rtp_http_flv.Flv.Packet.parse rtp_http_flv.Flv.Packet.demux_header
    rtp_http_flv.Cache.FlvRecord.new_flv_record rtp_http_flv.Cache.FlvRecord.reset
    rtp_http_flv.Cache.FlvRecord.Assemble.copy_in
    rtp_http_flv.Cache.FlvRecord.Assemble.first_fragment
    rtp_http_flv.Cache.FlvRecord.Assemble.next_fragment
    rtp_http_flv.Cache.FlvRecord.Assemble.add_fragment
    rtp_http_flv.Cache.FlvRecord.Assemble.assemble rtp_http_flv.Cache.FlvRecord.Assemble.jump
    rtp_http_flv.Cache.Segments.new_cache rtp_http_flv.Cache.Segments.write
    rtp_http_flv.Cache.Segments.send_initial_segment rtp_http_flv.HttpFlv.Writer.write
    rtp_http_flv.Cache.Queue.Slots.get_head_nil rtp_http_flv.Cache.Queue.Slots.remove_head
    rtp_http_flv.Cache.Queue.Retransmit.reshape rtp_http_flv.Cache.Queue.Retransmit.grow_buffer
    rtp_http_flv.Cache.Queue.Retransmit.protect_head rtp_http_flv.Cache.Queue.Retransmit.run_quic
    rtp_http_flv.Cache.Queue.Retransmit.dequeue rtp_http_flv.Cache.Queue.Extract.tag_time
    rtp_http_flv.Cache.Queue.Extract.get_delay rtp_http_flv.Cache.Queue.Extract.fill_cache
    rtp_http_flv.Cache.Queue.Extract.initialise rtp_http_flv.Cache.Queue.Extract.serve_client
    rtp_http_flv.Cache.Queue.Extract.visit rtp_http_flv.Cache.Queue.Extract.serve_clients
    rtp_http_flv.Cache.Queue.Extract.record_tag rtp_http_flv.Cache.Queue.Extract.measure
    rtp_http_flv.Cache.Queue.Extract.publish rtp_http_flv.Cache.Queue.Extract.extract_flv
    rtp_http_flv.Cache.Queue.Receive.take_one
Reach-IsStream_example =
    Reach-IsStream system settings (as_list Slot) (as_list _) config link quiet_world
      (second.0, fourth) 7 stream refl reached refl

Reach-print_info_example :
    (info : Info) × (print_info D stream.q ≡ done (some info))
    × (info.length ≡ length stream.q.queue)
    × (info.last_seq ≡ (if info.length == 0 then 0 else add16 info.first_seq (info.length - 1)))
    × ((l : List Slot) (n : ℕ)
        → l ≡ stream.q.queue ++ replicate (suc n) none
        → print_info D (record stream.q { queue = l }) ≡ panics)
unfolding receive_rtp rtp_http_flv.App.Receive.handle_datagram
    rtp_http_flv.App.Streams.handle_new_packet new_app rtp_http_flv.App.Streams.handle_new_stream
    rtp_http_flv.Publishers.update_publishers rtp_http_flv.Publishers.add_publishers
    rtp_http_flv.Publishers.publisher serve rtp_http_flv.Cache.Queue.Receive.recv_packet
    rtp_http_flv.Cache.Queue.Receive.take_while rtp_http_flv.Cache.Queue.Slots.enqueue
    rtp_http_flv.Cache.Queue.Slots.is_first_ok rtp_http_flv.App.Streams.new_stream
    rtp_http_flv.App.Streams.new_queue rtp_http_flv.App.Streams.open_hls
    rtp_http_flv.App.Streams.open_record rtp_http_flv.App.Streams.refresh
    rtp_http_flv.App.Streams.send_packet rtp_http_flv.App.Receive.first_packet
    rtp_http_flv.Edge.create_flv_file rtp_http_flv.Edge.keep_file rtp_http_flv.Edge.hls_write
    rtp_http_flv.Edge.write_file rtp_http_flv.Recording.create_file
    rtp_http_flv.Recording.write_tag_direct rtp_http_flv.Hls.Server.get_writer
    rtp_http_flv.Hls.Source.new_source rtp_http_flv.Hls.Source.write
    rtp_http_flv.HttpFlv.Writer.put_i32_be rtp_http_flv.Rtp.Parse.parse
    rtp_http_flv.Rtp.Parse.parse_header rtp_http_flv.Rtp.Parse.parse_payload
    rtp_http_flv.Rtp.Parse.skip_extension rtp_http_flv.Rtp.Parse.skip_csrc
    rtp_http_flv.Rtp.Parse.strip_padding rtp_http_flv.Utils.Seq.first_before_second
    rtp_http_flv.Utils.Seq.relative rtp_http_flv.Utils.TagHead.is_tag_head
    rtp_http_flv.Flv.Packet.parse rtp_http_flv.Flv.Packet.demux_header
    rtp_http_flv.Cache.FlvRecord.new_flv_record rtp_http_flv.Cache.FlvRecord.reset
    rtp_http_flv.Cache.FlvRecord.Assemble.copy_in
    rtp_http_flv.Cache.FlvRecord.Assemble.first_fragment
    rtp_http_flv.Cache.FlvRecord.Assemble.next_fragment
    rtp_http_flv.Cache.FlvRecord.Assemble.add_fragment
    rtp_http_flv.Cache.FlvRecord.Assemble.assemble rtp_http_flv.Cache.FlvRecord.Assemble.jump
    rtp_http_flv.Cache.Segments.new_cache rtp_http_flv.Cache.Segments.write
    rtp_http_flv.Cache.Segments.send_initial_segment rtp_http_flv.HttpFlv.Writer.write
    rtp_http_flv.Cache.Queue.Slots.get_head_nil rtp_http_flv.Cache.Queue.Slots.remove_head
    rtp_http_flv.Cache.Queue.Retransmit.reshape rtp_http_flv.Cache.Queue.Retransmit.grow_buffer
    rtp_http_flv.Cache.Queue.Retransmit.protect_head rtp_http_flv.Cache.Queue.Retransmit.run_quic
    rtp_http_flv.Cache.Queue.Retransmit.dequeue rtp_http_flv.Cache.Queue.Extract.tag_time
    rtp_http_flv.Cache.Queue.Extract.get_delay rtp_http_flv.Cache.Queue.Extract.fill_cache
    rtp_http_flv.Cache.Queue.Extract.initialise rtp_http_flv.Cache.Queue.Extract.serve_client
    rtp_http_flv.Cache.Queue.Extract.visit rtp_http_flv.Cache.Queue.Extract.serve_clients
    rtp_http_flv.Cache.Queue.Extract.record_tag rtp_http_flv.Cache.Queue.Extract.measure
    rtp_http_flv.Cache.Queue.Extract.publish rtp_http_flv.Cache.Queue.Extract.extract_flv
    rtp_http_flv.Cache.Queue.Receive.take_one
Reach-print_info_example =
    Reach-print_info system settings (as_list Slot) (as_list _) config link quiet_world
      (second.0, fourth) 7 stream refl reached refl (λ e. omega arith)
