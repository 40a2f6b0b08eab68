-- ===== src/Edge/Opens.antt =====
-- What opening sources and files, and dropping sources, keeps.
use rtp_http_flv.Prelude.{
  ℕ, ◌<◌, ◌≡◌, refl, sym, ap, ◌∙◌, subst, true, false, Option-cases, inl, inr, List, [], ◌∷◌, ◌++◌,
  append-nil, Option, none, some, ◌==◌, nat_beq_iff, Text, codes, slash, lookup, nat_eq, text_eq,
  arith, WhenSome,
}
use rtp_http_flv.Hls.Source.{Source}
use rtp_http_flv.Hls.Source.Segments.{IsSource}
use rtp_http_flv.Hls.Source.Reach.{new_source-IsSource}
use rtp_http_flv.Hls.Server.Reach.{IsServer, get_writer-IsServer, check_stop-IsServer}
use rtp_http_flv.Hls.Server.{Server, get_writer, check_conn, check_stop}
use rtp_http_flv.Recording.{header_bytes, create_file}
use rtp_http_flv.Recording.Contents.{create_file-contents}
use rtp_http_flv.Edge.{System, Settings, World, keep_file, create_flv_file}
use rtp_http_flv.Edge.Grows.{IsRecording, IsFileOf, Grows, Grows-refl, Grows-trans, quiet}

-- The calls of the tables.
module _ (sys : System) (set : Settings) where
  open sys use {live, os}

  abbrev W : Type 0
  W = World sys set

  pub get_writer-Grows :
      (key : Text) (w : W)
      → Grows sys set w (record w { server = (get_writer live key w.server).1 })
  unfolding get_writer
  get_writer-Grows key w = record {
    sources = elim (Option-cases (lookup key w.server.conns)) [
      | inr (a, e) ↦ rw (get_writer, e) (omega arith)
      | inl e ↦ rw (get_writer, e) (omega arith)
    ];
    files = omega arith;
    server = get_writer-IsServer live key w.server;
    same_key = λ a k l v. elim (Option-cases (lookup key w.server.conns)) [
      | inr (b, e) ↦ rw (get_writer, e) v
      | inl e ↦
          let apart : (w.server.next == a) ≡ false = ground (arith, l) in
          rw (get_writer, e, apart) v
    ];
    closed = λ a l c. elim (Option-cases (lookup key w.server.conns)) [
      | inr (b, e) ↦ rw (get_writer, e) c
      | inl e ↦
          let apart : (w.server.next == a) ≡ false = ground (arith, l) in
          rw (get_writer, e, apart) c
    ];
    whole = λ f l v. v;
  }

  -- The source that it returns is one for the key.
  pub get_writer-IsSourceOf :
      (key : Text) (srv : Server live)
      → IsServer live srv
      → ((get_writer live key srv).0 < (get_writer live key srv).1.next)
        × IsSource live key ((get_writer live key srv).1.heap (get_writer live key srv).0)
  unfolding get_writer
  get_writer-IsSourceOf key srv v = elim (Option-cases (lookup key srv.conns)) [
    | inr (a, e) ↦ rw (get_writer, e) (v.sources key a e)
    | inl e ↦
        let here : (srv.next == srv.next) ≡ true = (nat_beq_iff srv.next srv.next).1 refl in
        rw (get_writer, e, here) (omega arith, new_source-IsSource live key)
  ]

  check_conn_still :
      (now : ℕ) (key : Text) (srv : Server live)
      → ((check_conn live now key srv).heap ≡ srv.heap)
        × ((check_conn live now key srv).next ≡ srv.next)
  unfolding check_conn
  check_conn_still now key srv = ground arith

  check_stop_still :
      (now : ℕ) (keys : List Text) (srv : Server live)
      → ((check_stop live now keys srv).heap ≡ srv.heap)
        × ((check_stop live now keys srv).next ≡ srv.next)
  unfolding check_stop
  check_stop_still now [] srv = (refl, refl)
  check_stop_still now (key ∷ keys) srv =
      let (h, n) = check_stop_still now keys (check_conn live now key srv) in
      let (h', n') = check_conn_still now key srv in (h ∙ h', n ∙ n')

  pub check_stop-Grows :
      (now : ℕ) (keys : List Text) (w : W)
      → Grows sys set w (record w { server = check_stop live now keys w.server })
  check_stop-Grows now keys w =
      let (h, n) = check_stop_still now keys w.server in
      record {
        sources = omega (arith, n);
        files = omega arith;
        server = check_stop-IsServer live now keys w.server;
        same_key = λ a key l v. subst (λ (t : ℕ → Source live). IsSource live key (t a)) (sym h) v;
        closed = λ a l c. ap (λ (t : ℕ → Source live). (t a).closed) h ∙ c;
        whole = λ f l v. v;
      }

  -- A file that could be created holds the header.
  keep_file-Grows : (o : Option os.World) (w : W) → Grows sys set w (keep_file sys set o w).1
  unfolding keep_file
  keep_file-Grows none w = Grows-refl sys set w
  keep_file-Grows (some file) w = record {
    sources = omega arith;
    files = omega arith;
    server = λ v. v;
    same_key = λ a k l v. v;
    closed = λ a l c. c;
    whole = λ f l v. let apart : (w.next_file == f) ≡ false = ground (arith, l) in rw apart v;
  }

  abbrev made : Option os.World → W → Option ℕ × W
  made o w1 = elim o [ none ↦ (none, w1) | some f ↦ keep_file sys set (create_file os f) w1 ]

  pub create_flv_file-Grows :
      (name : Text) (w : W) → Grows sys set w (create_flv_file sys set name w).1
  unfolding create_flv_file
  create_flv_file-Grows name w =
      let r = sys.create (set.record_dir ++ (slash ∷ (name ++ codes ".flv"))) w.env in
      created r.0 (record w { env = r.1 }) (quiet sys set w _ refl refl refl)
    where
      created : (o : Option os.World) (w1 : W) → Grows sys set w w1 → Grows sys set w (made o w1).1
      created none w1 g = g
      created (some f) w1 g = Grows-trans sys set w w1 _ g (keep_file-Grows (create_file os f) w1)

  pub create_flv_file-IsFileOf :
      (name : Text) (w : W)
      → WhenSome
          (IsFileOf sys set (create_flv_file sys set name w).1)
          (create_flv_file sys set name w).0
  unfolding create_flv_file
  create_flv_file-IsFileOf name w =
      let path = set.record_dir ++ (slash ∷ (name ++ codes ".flv")) in
      let r = sys.create path w.env in
      created r.0 (record w { env = r.1 }) λ file e. sys.create-contents path w.env file e
    where
      kept :
          (w1 : W) (o : Option os.World)
          → WhenSome (IsRecording sys set) o
          → WhenSome (IsFileOf sys set (keep_file sys set o w1).1) (keep_file sys set o w1).0
      kept w1 none v = tt
      kept w1 (some file) v =
          let here : (w1.next_file == w1.next_file) ≡ true =
            (nat_beq_iff w1.next_file w1.next_file).1 refl in
          unfold keep_file in (omega arith, rw here v)

      header :
          (file : os.World) (o : Option os.World)
          → create_file os file ≡ o
          → os.contents file ≡ []
          → WhenSome (IsRecording sys set) o
      header file none e c = tt
      header file (some file') e c = record {
        tags = [];
        whole =
            create_file-contents os file file' e
            ∙ ap (λ x. x ++ header_bytes) c
            ∙ sym (append-nil header_bytes);
      }

      created :
          (o : Option os.World) (w1 : W)
          → ((file : os.World) → o ≡ some file → os.contents file ≡ [])
          → WhenSome (IsFileOf sys set (made o w1).1) (made o w1).0
      created none w1 c = tt
      created (some f) w1 c =
          kept w1 (create_file os f) (header f (create_file os f) refl (c f refl))
