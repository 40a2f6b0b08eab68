-- ===== src/Edge/Prints.antt =====
-- `PrintInfo` of cache/RtpQueue.go in the whole node.
use rtp_http_flv.Prelude.{
  ℕ, ◌-◌, ◌≡◌, ◌≢◌, [], ◌++◌, suc, replicate, panics, Option, none, some, if◌then◌else◌, ◌==◌,
  lookup, nat_eq, length, done,
}
use rtp_http_flv.Utils.Seq.{add16}
use rtp_http_flv.Cache.ArrayList.{ArrayList}
use rtp_http_flv.Cache.Window.{Slot}
use rtp_http_flv.Cache.Queue.Print.{Info, print_info, print_info_prints, print_info_padded}
use rtp_http_flv.App.{Config, Stream}
use rtp_http_flv.App.Streams.{new_app}
use rtp_http_flv.App.Receive.{Link}
use rtp_http_flv.Edge.{System, Settings, World}
use rtp_http_flv.Edge.Streams.{dep}
use rtp_http_flv.Edge.Rounds.{Running, Reach, Reach-IsStream}

module _ (sys : System) (set : Settings) (slots : ArrayList Slot) (clients : ArrayList (Option ℕ))
    (conf : Config) where
  -- In every state that the whole node reaches from the start, between two rounds, `PrintInfo` does not
  -- panic on a stream of the table that has a number other than 0: it prints the number of slots of
  -- the queue, and a last number that is as many behind the first as there are slots between them; for
  -- an empty queue that is 0. But it takes no lock: on the same queue with one empty slot or more behind
  -- its slots, as `Enqueue` has them while it fills the gap before a packet, it panics.
  pub Reach-print_info :
      (link : Link) (w : World sys set) (s : Running sys set slots clients conf) (ssrc : ℕ)
      (st : Stream (dep sys set slots clients))
      → w.server.conns ≡ []
      → Reach sys set slots clients conf (link, new_app (dep sys set slots clients) w) s
      → lookup ssrc s.1.rtp_queue_map ≡ some st
      → st.q.ssrc ≢ 0
      → (info : Info) × (print_info (dep sys set slots clients) st.q ≡ done (some info))
        × (info.length ≡ length (slots.values st.q.queue))
        × (info.last_seq ≡ (if info.length == 0 then 0 else add16 info.first_seq (info.length - 1)))
        × ((l : slots.Carrier) (n : ℕ)
            → slots.values l ≡ slots.values st.q.queue ++ replicate (suc n) none
            → print_info (dep sys set slots clients) (record st.q { queue = l }) ≡ panics)
  Reach-print_info link w s ssrc st e r f o =
      let (info, prints, count, last) =
        print_info_prints (dep sys set slots clients) st.q o
          (Reach-IsStream sys set slots clients conf link w s ssrc st e r f).ordered in
      (info, prints, count, last, λ l n. print_info_padded (dep sys set slots clients) st.q l n o)
