-- ===== src/Edge/Rounds.antt =====
-- The whole node, round after round of its goroutines.
use rtp_http_flv.Prelude.{
  ℕ, ◌≡◌, refl, ◌∙◌, subst, Bool-cases, inl, inr, List, [], Option, some, Text, lookup, nat_eq,
  text_eq, arith, length, done, >>=-eq-done, done-inj, WhenSome,
}
use rtp_http_flv.Publishers.{Json}
use rtp_http_flv.Cache.ArrayList.{ArrayList}
use rtp_http_flv.Cache.Window.{Slot, IsWindow}
use rtp_http_flv.Cache.Queue.{Deps}
use rtp_http_flv.Cache.Queue.Extract.{store_at}
use rtp_http_flv.Hls.Source.{Source}
use rtp_http_flv.Hls.Source.Send.{send_packet}
use rtp_http_flv.Hls.Source.Reach as HlsReach
use rtp_http_flv.Hls.Source.Reach.{Step-IsSource}
use rtp_http_flv.Hls.Server.{store_source, check_stop}
use rtp_http_flv.Hls.Server.Reach.{IsServer}
use rtp_http_flv.Quic
use rtp_http_flv.App.{Config, Stream, App}
use rtp_http_flv.App.Streams.{new_app, open_record, open_hls, new_stream, new_queue}
use rtp_http_flv.App.Receive.{Link}
use rtp_http_flv.App.Invariant.{Invariant, AllHold, Moves-AllHold, opened}
use rtp_http_flv.App.Invariant.Rounds.{
  receive_rtp-AllHold, check_alive-AllHold, serve-AllHold, handle_conn-AllHold,
}
use rtp_http_flv.App.Registry.Reach as Registry
use rtp_http_flv.App.Registry.Reach.{Shared, receives, checks, serves, answers, sends}
use rtp_http_flv.Edge.{System, Settings, World, outside}
use rtp_http_flv.Edge.Grows.{
  IsSourceOf, IsFileOf, Grows, Grows-refl, quiet, store_source-Grows, store_file-Grows, edge-IsKept,
  send_packet_stays_closed,
}
use rtp_http_flv.Edge.Opens.{
  get_writer-Grows, get_writer-IsSourceOf, check_stop-Grows, create_flv_file-Grows,
  create_flv_file-IsFileOf,
}
use rtp_http_flv.Edge.Streams.{
  dep, IsStream, files_grow, stable-IsStream, sent_numbers, served-IsStream,
}

module _ (sys : System) (set : Settings) (slots : ArrayList Slot) (clients : ArrayList (Option ℕ))
    (conf : Config) where
  open sys use {live, os}

  abbrev D : Deps
  D = dep sys set slots clients

  abbrev W : Type 0
  W = World sys set

  pub closed_quic : (w w' : W) → (outside sys set).close_quic w ≡ done w' → Grows sys set w w'
  closed_quic w w' e =
      let (x, b, f) = >>=-eq-done (Quic.close_quic sys.lib w.quic) _ e in
      let w1 : W = record w { quic = x } in
      subst (Grows sys set w) (done-inj _ _ f) (quiet sys set w w1 refl refl refl)

  pub fetched :
      (w : W) (r : Option (Json sys.floats.Float) × W)
      → (outside sys set).fetch w ≡ done r
      → Grows sys set w r.1
  fetched w r e =
      let (x, b, f) = >>=-eq-done (sys.fetch w.env) _ e in
      let w1 : W = record w { env = x.1 } in
      subst (λ (y : Option (Json sys.floats.Float) × W). Grows sys set w y.1) (done-inj _ _ f)
        (quiet sys set w w1 refl refl refl)

  pub closed_file : (f : ℕ) (w : W) → Grows sys set w ((outside sys set).close_file f w)
  closed_file f w =
      store_file-Grows sys set w f (sys.close (w.files f))
        λ v. record { tags = v.tags; whole = sys.close-contents (w.files f) ∙ v.whole }

  -- The file and the source of a new stream.
  recorded :
      (channel : Text) (app : App D)
      → WhenSome
          (IsFileOf sys set (open_record D (outside sys set) conf channel app).1.net)
          (open_record D (outside sys set) conf channel app).0
        × Grows sys set app.net (open_record D (outside sys set) conf channel app).1.net
  recorded channel app =
      unfold open_record in
      elim (Bool-cases conf.enable_record) [
        | inl on ↦ rw on (
          create_flv_file-IsFileOf sys set channel app.net,
          create_flv_file-Grows sys set channel app.net,
        )
        | inr off ↦ rw off (tt, Grows-refl sys set app.net)
      ]

  hls_opened :
      (key : Text) (app : App D)
      → IsServer live app.net.server
      → WhenSome
          (IsSourceOf sys set key (open_hls D (outside sys set) conf key app).1.net)
          (open_hls D (outside sys set) conf key app).0
        × Grows sys set app.net (open_hls D (outside sys set) conf key app).1.net
  hls_opened key app v =
      unfold open_hls in
      elim (Bool-cases conf.enable_hls) [
        | inl on ↦ rw on (
          get_writer-IsSourceOf sys set key app.net.server v,
          get_writer-Grows sys set key app.net,
        )
        | inr off ↦ rw off (tt, Grows-refl sys set app.net)
      ]

  empty_queue : (q : List Slot) → q ≡ [] → IsWindow 0 q × (length q ≡ 0)
  empty_queue q e =
      rw e (record { first = omega arith; in_order = tt; ends = tt; bounded = omega arith }, refl)

  pub opened-IsStream :
      (channel key : Text) (ssrc : ℕ) (app : App D)
      → IsServer live app.net.server
      → IsStream sys set slots clients
          (opened D (outside sys set) conf channel key ssrc app).0
          (opened D (outside sys set) conf channel key ssrc app).1.net
  opened-IsStream channel key ssrc app v =
      let r = open_record D (outside sys set) conf channel app in
      let (f, g) = recorded channel app in
      let (a, h) = hls_opened key r.1 (g.server v) in
      let (w, l) = empty_queue (slots.values slots.new) slots.values-new in
      unfold new_stream in
      unfold new_queue in
      record {
        ordered = w;
        short = omega (arith, l);
        numbers = tt;
        source = a;
        file = files_grow sys set slots clients r.1.net _ r.0 h f;
      }

  -- What holds of the streams of the node, and of its HLS server.
  abbrev pub node_invariant : Invariant D (outside sys set) conf
  node_invariant = record {
    Kept = Grows sys set;
    Sound = λ w. IsServer live w.server;
    Holds = IsStream sys set slots clients;
    calls = edge-IsKept sys set slots clients;
    fetch = fetched;
    close_file = closed_file;
    close_quic = closed_quic;
    create_flv_file = create_flv_file-Grows sys set;
    get_writer = get_writer-Grows sys set;
    sound = λ w w' g. g.server;
    stable = stable-IsStream sys set slots clients;
    opens = opened-IsStream;
    receives = λ st w rp chan n e v. record {
      ordered = v.ordered;
      short = v.short;
      numbers = sent_numbers sys set slots clients st.in_chan chan rp n e v.numbers;
      source = v.source;
      file = v.file;
    };
    serves = served-IsStream sys set slots clients;
    joins = λ st w a v. record {
      ordered = v.ordered;
      short = v.short;
      numbers = v.numbers;
      source = v.source;
      file = v.file;
    };
  }

  abbrev pub Running : Type 0
  Running = Shared D (outside sys set) conf

  -- A round: of a goroutine of main.go, of a queue and of a client's writer, or a request for a stream; of
  -- the goroutine of a source, or of `checkStop` of the HLS server. (A request to the HLS server changes nothing.)
  pub data Step (s s' : Running) : Type 1 where
    node : Registry.Step D (outside sys set) conf s s' → Step s s'
    sends_packet :
        (now a : ℕ) (src : Source live)
        → send_packet live now (s.1.net.server.heap a) ≡ done src
        → s' ≡ (
          s.0,
          record s.1 {
            net = record s.1.net {
              server = record s.1.net.server { heap = store_source live s.1.net.server.heap a src };
            };
          },
        )
        → Step s s'
    checks_stop :
        (now : ℕ) (keys : List Text)
        → s' ≡ (
          s.0,
          record s.1 { net = record s.1.net { server = check_stop live now keys s.1.net.server } },
        )
        → Step s s'

  pub data Reach (s : Running) : Running → Type 1 where
    here : Reach s s
    next : {t u : Running} → Reach s t → Step t u → Reach s u

  -- An invariant of the node in which no source or file is forgotten is kept by every round.
  module _ (inv : Invariant D (outside sys set) conf)
      (grows : (w w' : W) → Grows sys set w w' → inv.Kept w w') where
    abbrev pub Held : App D → Type 0
    Held = AllHold D (outside sys set) conf inv

    node-Held :
        (s s' : Running) → Registry.Step D (outside sys set) conf s s' → Held s.1 → Held s'.1
    node-Held s s' (receives lost sender datagram bytes h) v =
        receive_rtp-AllHold D (outside sys set) conf inv lost sender datagram s s' bytes v h
    node-Held s s' (checks order app' h e) v =
        rw e (check_alive-AllHold D (outside sys set) conf inv s.0.init order s.1 app' v h)
    node-Held s s' (serves fuel ssrc app' h e) v =
        rw e (serve-AllHold D (outside sys set) conf inv fuel ssrc s.1 app' v h)
    node-Held s s' (answers url answer app' h e) v =
        rw e (handle_conn-AllHold D (outside sys set) conf inv s.1 url (answer, app') v h)
    node-Held s s' (sends sink a ctx ctx' more w l h e) v = rw e (
        Moves-AllHold D (outside sys set) conf inv s.1 (record s.1 { heap = store_at s.1.heap a w })
          (record { queues = refl; net = grows s.1.net s.1.net (Grows-refl sys set s.1.net) }) v)

    behind-Held :
        (app : App D) (w : W) → Grows sys set app.net w → Held app → Held (record app { net = w })
    behind-Held app w g v =
        Moves-AllHold D (outside sys set) conf inv app (record app { net = w })
          (record { queues = refl; net = grows app.net w g }) v

    Step-Held : (s s' : Running) → Step s s' → Held s.1 → Held s'.1
    Step-Held s s' (node st) v = node-Held s s' st v
    Step-Held s s' (sends_packet now a src h e) v = rw e (
        behind-Held s.1 _
          (store_source-Grows sys set s.1.net a src
            (λ key w. Step-IsSource live key (s.1.net.server.heap a) src (HlsReach.sends now h) w)
            (λ c. send_packet_stays_closed live now (s.1.net.server.heap a) src c h))
          v)
    Step-Held s s' (checks_stop now keys e) v =
        rw e (behind-Held s.1 _ (check_stop-Grows sys set now keys s.1.net) v)

    pub Reach-Held : (s s' : Running) → Reach s s' → Held s.1 → Held s'.1
    Reach-Held s s' here v = v
    Reach-Held s s' (next {t} r st) v = Step-Held t s' st (Reach-Held s t r v)

  abbrev Good : App D → Type 0
  Good = AllHold D (outside sys set) conf node_invariant

  start-Good : (w : W) → w.server.conns ≡ [] → Good (new_app D w)
  unfolding new_app
  start-Good w e = record {
    behind = record { sources = λ key a h. absurd (cc (rw e at h)) };
    each = λ ssrc st h. absurd (cc h);
  }

  -- Whatever rounds the goroutines of the whole node run, each to its end, in any order, those of
  -- the sources and of the clients' writers included, from the tables that `main` makes and an HLS
  -- server without sources, where the datagrams consist of bytes: the queue of every stream is in
  -- order and has at most as many slots as its padding window; the packets that wait in its channel
  -- have numbers of 16 bits; the source that it writes to, if any, was made for the key of the
  -- stream; and what has been written to its file, if any, is the header and whole tags, each
  -- followed by its size.
  pub Reach-IsStream :
      (link : Link) (w : W) (s : Running) (ssrc : ℕ) (st : Stream D)
      → w.server.conns ≡ []
      → Reach (link, new_app D w) s
      → lookup ssrc s.1.rtp_queue_map ≡ some st
      → IsStream sys set slots clients st s.1.net
  Reach-IsStream link w s ssrc st e r f =
      (Reach-Held node_invariant (λ a b g. g) (link, new_app D w) s r (start-Good w e)).each ssrc st
        f
