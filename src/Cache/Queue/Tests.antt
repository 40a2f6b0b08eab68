-- ===== src/Cache/Queue/Tests.antt =====
-- A queue with a hole, on array lists that are lists, and a cloud node that answers every request.
use rtp_http_flv.Prelude.{
  ℕ, ◌+◌, ◌≡◌, ◌≤◌, ◌<◌, refl, ◌⊎◌, true, false, List, [], ◌∷◌, Option, none, some, Run, done,
  panics, blocks, out_of_fuel, ◌≢◌, WhenSome, exact, length, ltb, if◌then◌else◌, arith,
}
use rtp_http_flv.Rtp.{RtpPack}
use rtp_http_flv.Utils.Seq.{add16}
use rtp_http_flv.HttpFlv.Writer.{fresh}
use rtp_http_flv.Cache.ArrayList.{as_list}
use rtp_http_flv.Cache.Window.{Slot, insert}
use rtp_http_flv.Cache.FlvRecord.{new_flv_record}
use rtp_http_flv.Cache.Segments.{new_cache}
use rtp_http_flv.Cache.Queue.{Node, Deps, Queue, State, Q, S}
use rtp_http_flv.Cache.Queue.Slots.{enqueue, is_first_ok, get_head_nil, remove_head}
use rtp_http_flv.Cache.Queue.Slots.Refine.{window, enqueue_refines}
use rtp_http_flv.Cache.Queue.Slots.Head.{IsQueue}
use rtp_http_flv.Cache.Queue.Retransmit.{dequeue}
use rtp_http_flv.Cache.Queue.Retransmit.Order.{Numbered, dequeue_in_order}
use rtp_http_flv.Cache.Queue.Retransmit.Progress.{Answers, dequeue_shrinks}
use rtp_http_flv.Cache.Queue.Extract.{extract_flv}
use rtp_http_flv.Cache.Queue.Receive.{recv_packet}
use rtp_http_flv.Cache.Queue.Receive.Drain.{len, recv_packet_leaves}
use rtp_http_flv.Cache.Queue.Receive.Ends.{NodeEnds}
use rtp_http_flv.Cache.Queue.Receive.Terminates.{recv_packet_terminates}

-- A packet that carries a whole video tag, with an H.264 sequence header.
abbrev packet : ℕ → RtpPack
packet n = record {
  version = 2;
  padding = false;
  extension = false;
  csrc_cnt = 0;
  marker = 1;
  payload_type = 96;
  sequence_number = n;
  timestamp = 0;
  ssrc = 7;
  payload = exact (9 ∷ 0 ∷ 0 ∷ 5 ∷ 0 ∷ 0 ∷ 0 ∷ 0 ∷ 0 ∷ 0 ∷ 0 ∷ 23 ∷ 0 ∷ 0 ∷ 0 ∷ 0 ∷ []);
  payload_offset = 12;
}

abbrev cloud : Node
cloud = record {
  Net = ℕ;
  get_by_quic = λ ssrc seq net. done (if ltb seq 65536 then some (packet seq) else none, net + 1);
  set_read_buffer = λ n net. (true, net);
  now = λ net. (net, net);
  update_publishers = λ net. done net;
  hls_write = λ a tag net. done (true, net);
  write_tag_direct = λ f tag net. (true, net);
}

abbrev deps : Deps
deps = record { slots = as_list Slot; clients = as_list (Option ℕ); node = cloud; protect = true }

abbrev with_slots : ℕ → List Slot → S deps
with_slots first slots = record {
  q = record {
    ssrc = 7;
    first_seq = first;
    padding_window_size = 2;
    queue = slots;
    flv_record = new_flv_record;
    flv_writers = some 0 ∷ [];
    hls_writer = none;
    flv_file = none;
    cache = new_cache;
    acc_packets = 2;
    acc_loss = 0;
    acc_flv_tags = 0;
    previous_lost_seq = 0;
    start_time = 0;
    delay = 0;
  };
  udp_buffer_size = 1024;
  publishers = λ ssrc. none;
  heap = λ a. fresh;
  net = 0;
}

-- The packet 65535 has come, the packet 0 has not.
abbrev with_hole : S deps
with_hole = with_slots 65534 (none ∷ some (packet 65535) ∷ none ∷ some (packet 1) ∷ [])

with_hole-IsQueue : IsQueue deps with_hole.q
with_hole-IsQueue = record {
  first = omega arith;
  in_order = (refl, (refl, tt));
  ends = tt;
  bounded = omega arith;
}

cloud-Numbered : Numbered deps
cloud-Numbered ssrc seq net net' rp h = ground arith

cloud-Answers : Answers deps
cloud-Answers ssrc seq net net' rp h = ground arith

-- What is left of a run.
abbrev state_of : Run (S deps) → S deps
state_of (done s) = s
state_of _ = with_hole

abbrev after_next : S deps
after_next = state_of (recv_packet deps 4 with_hole (some (packet 2)))

received : recv_packet deps 4 with_hole (some (packet 2)) ≡ done after_next
unfolding rtp_http_flv.Utils.Seq.first_before_second rtp_http_flv.Utils.Seq.relative
    rtp_http_flv.Utils.TagHead.is_tag_head rtp_http_flv.Flv.Packet.parse
    rtp_http_flv.Flv.Packet.demux_header rtp_http_flv.Cache.FlvRecord.new_flv_record
    rtp_http_flv.Cache.FlvRecord.reset rtp_http_flv.Cache.FlvRecord.Assemble.copy_in
    rtp_http_flv.Cache.FlvRecord.Assemble.first_fragment
    rtp_http_flv.Cache.FlvRecord.Assemble.next_fragment
    rtp_http_flv.Cache.FlvRecord.Assemble.add_fragment
    rtp_http_flv.Cache.FlvRecord.Assemble.assemble rtp_http_flv.Cache.FlvRecord.Assemble.jump
    rtp_http_flv.Cache.Segments.new_cache rtp_http_flv.Cache.Segments.write
    rtp_http_flv.Cache.Segments.send_initial_segment rtp_http_flv.HttpFlv.Writer.write
    rtp_http_flv.Cache.Queue.Slots.enqueue rtp_http_flv.Cache.Queue.Slots.is_first_ok
    rtp_http_flv.Cache.Queue.Slots.get_head_nil rtp_http_flv.Cache.Queue.Slots.remove_head
    rtp_http_flv.Cache.Queue.Retransmit.reshape rtp_http_flv.Cache.Queue.Retransmit.grow_buffer
    rtp_http_flv.Cache.Queue.Retransmit.protect_head rtp_http_flv.Cache.Queue.Retransmit.run_quic
    rtp_http_flv.Cache.Queue.Retransmit.dequeue rtp_http_flv.Cache.Queue.Extract.tag_time
    rtp_http_flv.Cache.Queue.Extract.get_delay rtp_http_flv.Cache.Queue.Extract.fill_cache
    rtp_http_flv.Cache.Queue.Extract.initialise rtp_http_flv.Cache.Queue.Extract.serve_client
    rtp_http_flv.Cache.Queue.Extract.visit rtp_http_flv.Cache.Queue.Extract.serve_clients
    rtp_http_flv.Cache.Queue.Extract.record_tag rtp_http_flv.Cache.Queue.Extract.measure
    rtp_http_flv.Cache.Queue.Extract.publish rtp_http_flv.Cache.Queue.Extract.extract_flv
    rtp_http_flv.Cache.Queue.Receive.take_one rtp_http_flv.Cache.Queue.Receive.take_while
    rtp_http_flv.Cache.Queue.Receive.recv_packet
received = refl

cloud-NodeEnds : NodeEnds deps
cloud-NodeEnds = record {
  quic = λ ssrc seq net e. ground arith;
  publishers = λ net e. ground arith;
  hls = λ a tag net e. ground arith;
}

recv_packet_leaves_example :
    IsQueue deps after_next.q
    × (len deps after_next ≤ 2)
    × ((is_first_ok deps after_next.q ≡ false) ⊎ (len deps after_next ≤ 1))
unfolding rtp_http_flv.Utils.Seq.first_before_second rtp_http_flv.Utils.Seq.relative
    rtp_http_flv.Utils.TagHead.is_tag_head rtp_http_flv.Flv.Packet.parse
    rtp_http_flv.Flv.Packet.demux_header rtp_http_flv.Cache.FlvRecord.new_flv_record
    rtp_http_flv.Cache.FlvRecord.reset rtp_http_flv.Cache.FlvRecord.Assemble.copy_in
    rtp_http_flv.Cache.FlvRecord.Assemble.first_fragment
    rtp_http_flv.Cache.FlvRecord.Assemble.next_fragment
    rtp_http_flv.Cache.FlvRecord.Assemble.add_fragment
    rtp_http_flv.Cache.FlvRecord.Assemble.assemble rtp_http_flv.Cache.FlvRecord.Assemble.jump
    rtp_http_flv.Cache.Segments.new_cache rtp_http_flv.Cache.Segments.write
    rtp_http_flv.Cache.Segments.send_initial_segment rtp_http_flv.HttpFlv.Writer.write
    rtp_http_flv.Cache.Queue.Slots.enqueue rtp_http_flv.Cache.Queue.Slots.is_first_ok
    rtp_http_flv.Cache.Queue.Slots.get_head_nil rtp_http_flv.Cache.Queue.Slots.remove_head
    rtp_http_flv.Cache.Queue.Retransmit.reshape rtp_http_flv.Cache.Queue.Retransmit.grow_buffer
    rtp_http_flv.Cache.Queue.Retransmit.protect_head rtp_http_flv.Cache.Queue.Retransmit.run_quic
    rtp_http_flv.Cache.Queue.Retransmit.dequeue rtp_http_flv.Cache.Queue.Extract.tag_time
    rtp_http_flv.Cache.Queue.Extract.get_delay rtp_http_flv.Cache.Queue.Extract.fill_cache
    rtp_http_flv.Cache.Queue.Extract.initialise rtp_http_flv.Cache.Queue.Extract.serve_client
    rtp_http_flv.Cache.Queue.Extract.visit rtp_http_flv.Cache.Queue.Extract.serve_clients
    rtp_http_flv.Cache.Queue.Extract.record_tag rtp_http_flv.Cache.Queue.Extract.measure
    rtp_http_flv.Cache.Queue.Extract.publish rtp_http_flv.Cache.Queue.Extract.extract_flv
    rtp_http_flv.Cache.Queue.Receive.take_one rtp_http_flv.Cache.Queue.Receive.take_while
    rtp_http_flv.Cache.Queue.Receive.recv_packet
recv_packet_leaves_example =
    recv_packet_leaves deps 4 with_hole after_next (some (packet 2)) cloud-Numbered
      with_hole-IsQueue (omega arith) received

still_short : length (deps.slots.values (enqueue deps with_hole.q (some (packet 2))).queue) ≡ 5
unfolding enqueue rtp_http_flv.Utils.Seq.first_before_second rtp_http_flv.Utils.Seq.relative
still_short = refl

recv_packet_terminates_example :
    (recv_packet deps 5 with_hole (some (packet 2)) ≢ out_of_fuel)
    × (recv_packet deps 5 with_hole (some (packet 2))
        ≡ recv_packet deps 9 with_hole (some (packet 2)))
recv_packet_terminates_example =
    recv_packet_terminates deps 5 9 with_hole (some (packet 2)) cloud-Answers cloud-Numbered
      cloud-NodeEnds with_hole-IsQueue (omega arith) (omega (arith, still_short))
      (omega (arith, still_short)) (omega arith)

-- The packet 65534 comes from the cloud node.
abbrev after_dequeue : S deps
after_dequeue = elim (dequeue deps with_hole) [
  | done r ↦ r.1
  | panics ↦ with_hole
  | blocks ↦ with_hole
  | out_of_fuel ↦ with_hole
]

dequeued : dequeue deps with_hole ≡ done (some (packet 65534), after_dequeue)
unfolding rtp_http_flv.Utils.Seq.first_before_second rtp_http_flv.Utils.Seq.relative
    rtp_http_flv.Utils.TagHead.is_tag_head rtp_http_flv.Flv.Packet.parse
    rtp_http_flv.Flv.Packet.demux_header rtp_http_flv.Cache.FlvRecord.new_flv_record
    rtp_http_flv.Cache.FlvRecord.reset rtp_http_flv.Cache.FlvRecord.Assemble.copy_in
    rtp_http_flv.Cache.FlvRecord.Assemble.first_fragment
    rtp_http_flv.Cache.FlvRecord.Assemble.next_fragment
    rtp_http_flv.Cache.FlvRecord.Assemble.add_fragment
    rtp_http_flv.Cache.FlvRecord.Assemble.assemble rtp_http_flv.Cache.FlvRecord.Assemble.jump
    rtp_http_flv.Cache.Segments.new_cache rtp_http_flv.Cache.Segments.write
    rtp_http_flv.Cache.Segments.send_initial_segment rtp_http_flv.HttpFlv.Writer.write
    rtp_http_flv.Cache.Queue.Slots.enqueue rtp_http_flv.Cache.Queue.Slots.is_first_ok
    rtp_http_flv.Cache.Queue.Slots.get_head_nil rtp_http_flv.Cache.Queue.Slots.remove_head
    rtp_http_flv.Cache.Queue.Retransmit.reshape rtp_http_flv.Cache.Queue.Retransmit.grow_buffer
    rtp_http_flv.Cache.Queue.Retransmit.protect_head rtp_http_flv.Cache.Queue.Retransmit.run_quic
    rtp_http_flv.Cache.Queue.Retransmit.dequeue rtp_http_flv.Cache.Queue.Extract.tag_time
    rtp_http_flv.Cache.Queue.Extract.get_delay rtp_http_flv.Cache.Queue.Extract.fill_cache
    rtp_http_flv.Cache.Queue.Extract.initialise rtp_http_flv.Cache.Queue.Extract.serve_client
    rtp_http_flv.Cache.Queue.Extract.visit rtp_http_flv.Cache.Queue.Extract.serve_clients
    rtp_http_flv.Cache.Queue.Extract.record_tag rtp_http_flv.Cache.Queue.Extract.measure
    rtp_http_flv.Cache.Queue.Extract.publish rtp_http_flv.Cache.Queue.Extract.extract_flv
    rtp_http_flv.Cache.Queue.Receive.take_one rtp_http_flv.Cache.Queue.Receive.take_while
    rtp_http_flv.Cache.Queue.Receive.recv_packet
dequeued = refl

dequeue_in_order_example :
    IsQueue deps after_dequeue.q
    × WhenSome (λ rp. add16 rp.sequence_number 1 ≡ after_dequeue.q.first_seq) (some (packet 65534))
dequeue_in_order_example =
    dequeue_in_order deps with_hole after_dequeue (some (packet 65534)) cloud-Numbered
      with_hole-IsQueue (omega arith) dequeued

dequeue_shrinks_example : length after_dequeue.q.queue < length with_hole.q.queue
dequeue_shrinks_example =
    dequeue_shrinks deps with_hole after_dequeue (some (packet 65534)) cloud-Answers cloud-Numbered
      with_hole-IsQueue (omega arith) (omega arith) dequeued

enqueue_refines_example :
    window deps (enqueue deps with_hole.q (some (packet 0)))
    ≡ insert 65534 (packet 0) with_hole.q.queue
enqueue_refines_example = enqueue_refines deps with_hole.q (packet 0) (omega arith) (omega arith)
