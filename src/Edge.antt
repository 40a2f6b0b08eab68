-- ===== src/Edge.antt =====
-- The whole node: what the queues and the tables of cache/App.go and main.go call is put together from
-- the models of the other components.
pub mod Grows
pub mod Opens
pub mod Streams
pub mod Rounds
pub mod Delivery
pub mod Prints
pub mod Ended
mod Tests
use rtp_http_flv.Prelude.{
  ℕ, ◌+◌, ◌≡◌, Bool, List, [], ◌∷◌, ◌++◌, Option, none, some, ◌==◌, if◌then◌else◌, Text, codes,
  slash, Run, done, ◌>>=◌, Slice,
}
use rtp_http_flv.Rtp.{RtpPack}
use rtp_http_flv.Publishers
use rtp_http_flv.Publishers.{Floats, Json}
use rtp_http_flv.Cache.ArrayList.{ArrayList}
use rtp_http_flv.Cache.Window.{Slot}
use rtp_http_flv.Cache.Queue.{Node, Deps}
use rtp_http_flv.App.{Outside}
use rtp_http_flv.Hls.Livego.{AvPacket, Livego}
use rtp_http_flv.Hls.Source as HlsSource
use rtp_http_flv.Hls.Server as HlsServer
use rtp_http_flv.Hls.Server.{Server, store_source}
use rtp_http_flv.Recording
use rtp_http_flv.Recording.{OsFile, create_file}
use rtp_http_flv.Quic
use rtp_http_flv.Quic.{QuicLib, QuicState}

-- The libraries, and the system around the node, whose state is `Env`.
pub record System : Type 1 where
  pub live : Livego
  -- `Parse` of the package av of livego, on a tag
  pub parse_tag : Slice → Run AvPacket
  pub os : OsFile
  pub lib : QuicLib
  pub floats : Floats
  pub Env : Type 0
  -- `time.Now()`
  pub now : Env → ℕ × Env
  -- `UDPConn.SetReadBuffer`; false for an error
  pub set_read_buffer : ℕ → Env → Bool × Env
  -- the request for the cloud node's statistics; `none` if it fails
  pub fetch : Env → Run (Option (Json floats.Float) × Env)
  -- `os.Create`, which opens a file through which nothing has been written, and `Close`, which writes
  -- nothing
  pub create : Text → Env → Option os.World × Env
  pub create-contents :
      (name : Text) (e : Env) (file : os.World)
      → (create name e).0 ≡ some file
      → os.contents file ≡ []
  pub close : os.World → os.World
  pub close-contents : (file : os.World) → os.contents (close file) ≡ os.contents file

-- The settings `RECORD_DIR`, `DISABLE_QUIC` and `PROTECT`.
pub record Settings : Type 0 where
  pub record_dir : Text
  pub disable_quic : Bool
  pub protect : Bool

module _ (sys : System) (set : Settings) where
  open sys use {live, os, lib, floats, Env}

  -- What the goroutines share behind the tables: the HLS server with its sources, the files by their
  -- pointers, of which `next_file` is the first free one, the QUIC connection, and the system.
  pub record World : Type 0 where
    pub server : Server live
    pub files : ℕ → os.World
    pub next_file : ℕ
    pub quic : QuicState lib
    pub env : Env

  -- A pointer is written through.
  abbrev pub store_file : (ℕ → os.World) → ℕ → os.World → ℕ → os.World
  store_file files f file g = if f == g then file else files g

  -- `p.Parse(record.flvTag, true)` and `q.hlsWriter.Write(p)` of cache/RtpQueue.go
  unfoldable pub hls_write : ℕ → Slice → World → Run (Bool × World)
  hls_write a tag w = do
    p ← sys.parse_tag tag
    let (t, env') = sys.now w.env
    (went, s) ← HlsSource.write live t p (w.server.heap a)
    let server' = record w.server { heap = store_source live w.server.heap a s }
    done (went, record w { server = server'; env = env' })

  unfoldable pub write_file : ℕ → Slice → World → Bool × World
  write_file f tag w =
      let (went, file) = Recording.write_tag_direct os tag (w.files f) in
      (went, record w { files = store_file w.files f file })

  unfoldable pub ask : ℕ → ℕ → World → Run (Option RtpPack × World)
  ask ssrc seq w = do
    (rp, quic') ← Quic.get_by_quic lib set.disable_quic ssrc seq w.quic
    done (rp, record w { quic = quic' })

  -- `UpdatePublishers`, for a caller that does not use the result.
  unfoldable pub refresh_only : World → Run World
  refresh_only w = do
    (answer, env') ← sys.fetch w.env
    pubs ← Publishers.update_publishers floats answer
    done (record w { env = env' })

  -- The file that `os.Create` has made is closed again if its header cannot be written.
  unfoldable pub keep_file : Option os.World → World → Option ℕ × World
  keep_file none w = (none, w)
  keep_file (some file) w = (
    some w.next_file,
    record w { files = store_file w.files w.next_file file; next_file = w.next_file + 1 },
  )

  -- `CreateFlvFile` of utils/util.go; `none` for nil
  unfoldable pub create_flv_file : Text → World → Option ℕ × World
  unfolding keep_file
  create_flv_file name w =
      let path = set.record_dir ++ (slash ∷ (name ++ codes ".flv")) in
      let (file, env') = sys.create path w.env in
      let w1 : World = record w { env = env' } in
      elim file [ none ↦ (none, w1) | some f ↦ keep_file (create_file os f) w1 ]

  abbrev pub edge : Node
  edge = record {
    Net = World;
    get_by_quic = ask;
    set_read_buffer = λ size w.
        let (fine, env') = sys.set_read_buffer size w.env in (fine, record w { env = env' });
    now = λ w. let (t, env') = sys.now w.env in (t, record w { env = env' });
    update_publishers = refresh_only;
    hls_write = hls_write;
    write_tag_direct = write_file;
  }

  abbrev pub outside : Outside World
  outside = record {
    floats = floats;
    fetch = λ w. (do (answer, env') ← sys.fetch w.env; done (answer, record w { env = env' }));
    create_flv_file = create_flv_file;
    close_file = λ f w. record w { files = store_file w.files f (sys.close (w.files f)) };
    get_writer = λ key w.
        let (a, server') = HlsServer.get_writer live key w.server in
        (a, record w { server = server' });
    close_quic = λ w. (do quic' ← Quic.close_quic lib w.quic; done (record w { quic = quic' }));
  }

  abbrev pub deps : ArrayList Slot → ArrayList (Option ℕ) → Deps
  deps slots clients = record {
    slots = slots;
    clients = clients;
    node = edge;
    protect = set.protect;
  }
