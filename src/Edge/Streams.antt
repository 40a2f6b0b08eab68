-- ===== src/Edge/Streams.antt =====
-- A stream of the whole node: its queue, its channel, its source and its recording.
use rtp_http_flv.Prelude.{
  ℕ, ◌<◌, ◌≤◌, ◌≡◌, sym, ap, ◌∙◌, subst, List, [], ◌∷◌, ◌++◌, Option, none, some, Text, nat_eq,
  text_eq, arith, length, done, >>=-eq-done, done-inj, send, recv, recv_from, Chan, WhenSome, All,
  All-append,
}
use rtp_http_flv.Rtp.{RtpPack}
use rtp_http_flv.Cache.ArrayList.{ArrayList}
use rtp_http_flv.Cache.Window.{Slot}
use rtp_http_flv.Cache.Queue.{Deps, S}
use rtp_http_flv.Cache.Queue.Slots.Head.{IsQueue}
use rtp_http_flv.Cache.Queue.Retransmit.Order.{Numbered}
use rtp_http_flv.Cache.Queue.Receive.Drain.{recv_packet_leaves}
use rtp_http_flv.Cache.Queue.Receive.Keeps.{recv_packet-Goes}
use rtp_http_flv.Quic
use rtp_http_flv.Quic.Answer.{get_by_quic-Numbered}
use rtp_http_flv.App.{Stream, App}
use rtp_http_flv.App.Serve.{view, serve_packet}
use rtp_http_flv.Edge.{System, Settings, World, ask, deps}
use rtp_http_flv.Edge.Grows.{IsSourceOf, IsFileOf, Grows, edge-IsKept}

module _ (sys : System) (set : Settings) (slots : ArrayList Slot)
    (clients : ArrayList (Option ℕ)) where
  open sys use {live, os}

  abbrev pub dep : Deps
  dep = deps sys set slots clients

  abbrev W : Type 0
  W = World sys set

  -- A stream of the node: its queue is in order and within the padding window, its channel holds
  -- packets with numbers of 16 bits, its source is one for its key, and its file is a whole recording.
  pub record IsStream (st : Stream dep) (w : W) : Type 0 where
    pub ordered : IsQueue dep st.q
    pub short : length (slots.values st.q.queue) ≤ st.q.padding_window_size
    pub numbers : All (λ p. p.sequence_number < 65536) st.in_chan.pending
    pub source : WhenSome (IsSourceOf sys set st.channel_key w) st.q.hls_writer
    pub file : WhenSome (IsFileOf sys set w) st.q.flv_file

  -- The answers of the cloud node have numbers of 16 bits.
  pub edge-Numbered : Numbered dep
  edge-Numbered ssrc seq w w' rp h =
      unfold ask in
      let (x, b, f) = >>=-eq-done (Quic.get_by_quic sys.lib set.disable_quic ssrc seq w.quic) _ h in
      let same : x.0 ≡ some rp = ap (λ (y : Option RtpPack × W). y.0) (done-inj _ _ f) in
      get_by_quic-Numbered sys.lib set.disable_quic ssrc seq w.quic x.1 rp
        (b ∙ ap (λ o. done (o, x.1)) same)

  pub sources_grow :
      (key : Text) (w w' : W) (o : Option ℕ)
      → Grows sys set w w'
      → WhenSome (IsSourceOf sys set key w) o
      → WhenSome (IsSourceOf sys set key w') o
  sources_grow key w w' none g v = tt
  sources_grow key w w' (some a) g v = (omega (arith, g.sources, v.0), g.same_key a key v.0 v.1)

  pub files_grow :
      (w w' : W) (o : Option ℕ)
      → Grows sys set w w'
      → WhenSome (IsFileOf sys set w) o
      → WhenSome (IsFileOf sys set w') o
  files_grow w w' none g v = tt
  files_grow w w' (some f) g v = (omega (arith, g.files, v.0), g.whole f v.0 v.1)

  pub stable-IsStream :
      (st : Stream dep) (w w' : W) → Grows sys set w w' → IsStream st w → IsStream st w'
  stable-IsStream st w w' g v = record {
    ordered = v.ordered;
    short = v.short;
    numbers = v.numbers;
    source = sources_grow st.channel_key w w' st.q.hls_writer g v.source;
    file = files_grow w w' st.q.flv_file g v.file;
  }

  -- A packet that is put into the channel.
  pub sent_numbers :
      (c c' : Chan RtpPack) (rp : RtpPack)
      → rp.sequence_number < 65536
      → send c rp ≡ done c'
      → All (λ p. p.sequence_number < 65536) c.pending
      → All (λ p. p.sequence_number < 65536) c'.pending
  sent_numbers c c' rp n h v =
      let same : c.pending ++ rp ∷ [] ≡ c'.pending = ground arith in
      subst (All (λ (p : RtpPack). p.sequence_number < 65536)) same
        (All-append (λ p. p.sequence_number < 65536) c.pending (rp ∷ []) v (n, tt))

  -- A packet that is taken from it.
  taken_numbers :
      (ps : List RtpPack) (c c' : Chan RtpPack) (rp : Option RtpPack)
      → recv_from ps c ≡ done (rp, c')
      → All (λ p. p.sequence_number < 65536) ps
      → All (λ p. p.sequence_number < 65536) c.pending
      → WhenSome (λ p. p.sequence_number < 65536) rp
        × All (λ p. p.sequence_number < 65536) c'.pending
  taken_numbers [] c c' rp h v w =
      let none' : none ≡ rp = ground arith in
      let same : c ≡ c' = ground arith in
      (
        subst (WhenSome (λ (p : RtpPack). p.sequence_number < 65536)) none' tt,
        subst (λ (x : Chan RtpPack). All (λ p. p.sequence_number < 65536) x.pending) same w,
      )
  taken_numbers (p ∷ ps) c c' rp h v w =
      let some' : some p ≡ rp = ground arith in
      let same : ps ≡ c'.pending = ground arith in
      (
        subst (WhenSome (λ (x : RtpPack). x.sequence_number < 65536)) some' v.0,
        subst (All (λ (x : RtpPack). x.sequence_number < 65536)) same v.1,
      )

  -- A round of the goroutine of a queue.
  pub served-IsStream :
      (fuel : ℕ) (st : Stream dep) (app : App dep) (rp : Option RtpPack) (chan : Chan RtpPack)
      (s : S dep)
      → recv st.in_chan ≡ done (rp, chan)
      → serve_packet dep fuel rp (view dep st app) ≡ done s
      → IsStream st app.net
      → IsStream (record st { in_chan = chan; q = s.q }) s.net
  served-IsStream fuel st app rp chan s h e v =
      let (n, m) = taken_numbers st.in_chan.pending st.in_chan chan rp h v.numbers v.numbers in
      go rp n e m
    where
      go :
          (o : Option RtpPack)
          → WhenSome (λ p. p.sequence_number < 65536) o
          → serve_packet dep fuel o (view dep st app) ≡ done s
          → All (λ p. p.sequence_number < 65536) chan.pending
          → IsStream (record st { in_chan = chan; q = s.q }) s.net
      go none n f m =
          subst (λ (x : S dep). IsStream (record st { in_chan = chan; q = x.q }) x.net)
            (done-inj _ _ f)
            (record {
              ordered = v.ordered;
              short = v.short;
              numbers = m;
              source = v.source;
              file = v.file;
            })
      go (some p) n f m =
          let t : S dep = view dep st app in
          let g =
            recv_packet-Goes dep (Grows sys set) (edge-IsKept sys set slots clients) fuel t s
              (some p) f in
          let (w, l, r) = recv_packet_leaves dep fuel t s (some p) edge-Numbered v.ordered n f in
          record {
            ordered = w;
            short = l;
            numbers = m;
            source =
                subst (WhenSome (IsSourceOf sys set st.channel_key s.net)) (sym g.ends.hls_writer)
                  (sources_grow st.channel_key app.net s.net st.q.hls_writer g.net v.source);
            file =
                subst (WhenSome (IsFileOf sys set s.net)) (sym g.ends.flv_file)
                  (files_grow app.net s.net st.q.flv_file g.net v.file);
          }
