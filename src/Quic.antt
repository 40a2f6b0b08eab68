-- ===== src/Quic.antt =====
-- protocol/quic: a packet that is missing is asked for by its stream and its number, and the answer
-- is read from a second stream, its length first.
pub mod Answer
pub mod Request
mod Tests
use rtp_http_flv.Prelude.{
  ℕ, ◌+◌, ◌/◌, ◌%◌, ◌≤◌, ◌<◌, ◌≡◌, Bool, true, false, List, [], ◌∷◌, ◌++◌, Option, none, some, not,
  ◌==◌, if◌then◌else◌, length, take, replicate, All, Run, done, panics, ◌>>=◌, deref, uint16, exact,
}
use rtp_http_flv.Rtp.{RtpPack}
use rtp_http_flv.Rtp.Parse.{parse}
use rtp_http_flv.HttpFlv.Writer.{put_i32_be}

-- The library quic-go, whose state is `Net`: `none` and false stand for errors, and waiting is in
-- `Run`. What is read are bytes.
pub record QuicLib : Type 1 where
  pub Net : Type 0
  pub Connection : Type 0
  pub Stream : Type 0
  pub dial_addr : Net → Option Connection × Net
  pub open_stream : Connection → Net → Option Stream × Net
  pub accept_stream : Connection → Net → Run (Option Stream × Net)
  -- the bytes that were read, for a buffer of the given length
  pub read : Stream → ℕ → Net → Run (Option (List ℕ) × Net)
  pub write : Stream → List ℕ → Net → Bool × Net
  pub close : Stream → Net → Bool × Net
  pub read_bytes :
      (s : Stream) (n : ℕ) (net net' : Net) (b : List ℕ)
      → read s n net ≡ done (some b, net')
      → All (λ x. x < 256) b

-- A fresh buffer of length `n` after a read.
abbrev pub filled : ℕ → List ℕ → List ℕ
filled n b = take n (b ++ replicate n 0)

module _ (lib : QuicLib) where
  open lib use {Net, Connection, Stream, dial_addr, open_stream, accept_stream, read, write, close}

  pub record Conn : Type 0 where
    pub connection : Connection
    pub info_stream : Option Stream
    pub data_stream : Option Stream

  -- `QuicConn`, and the state of the library.
  pub record QuicState : Type 0 where
    pub quic_conn : Option Conn
    pub net : Net

  -- `newConn`; `none` for nil, with an error that `initQuic` ignores.
  unfoldable pub new_conn : Connection → Net → Option Conn × Net
  new_conn sess net =
      let (stream, net') = open_stream sess net in
      (
        elim stream [
          | none ↦ none
          | some s ↦ some (record { connection = sess; info_stream = some s; data_stream = none })
        ],
        net',
      )

  unfoldable pub init_quic : Net → Run (Option Conn × Net)
  unfolding new_conn
  init_quic net =
      let (c, net') = dial_addr net in
      elim c [ none ↦ panics | some sess ↦ done (new_conn sess net') ]

  -- `WriteSeq` and `WriteSsrc` write big-endian bytes; a nil connection is a panic.
  unfoldable pub write_seq : Option Conn → ℕ → Net → Run (Bool × Net)
  write_seq c seq net = do
    conn ← deref c
    s ← deref conn.info_stream
    done (write s ((seq / 256) ∷ (seq % 256) ∷ []) net)

  unfoldable pub write_ssrc : Option Conn → ℕ → Net → Run (Bool × Net)
  unfolding put_i32_be
  write_ssrc c ssrc net = do
    conn ← deref c
    s ← deref conn.info_stream
    done (write s (put_i32_be ssrc) net)

  -- `c.dataStream, err = c.Connection.AcceptStream(...)`; false for the error.
  unfoldable pub accept_data : Conn → Net → Run (Bool × Conn × Net)
  accept_data c net = do
    (s, net') ← accept_stream c.connection net
    done (elim s [ none ↦ false | some t ↦ true ], record c { data_stream = s }, net')

  -- `ReadLen`: `none` for the error.
  unfoldable pub read_len : Conn → Net → Run (Option ℕ × Conn × Net)
  read_len c net = do
    (ok, c1, net1) ← elim c.info_stream [ none ↦ accept_data c net | some s ↦ done (true, c, net) ]
    if not ok then done (none, c1, net1) else (do
      info ← deref c1.info_stream
      (r, net2) ← read info 2 net1
      elim r [
        | none ↦ done (none, c1, net2)
        | some b ↦ (do n ← uint16 (filled 2 b); done (some n, c1, net2))
      ])

  -- The packet behind its length; a read that fails here is a panic.
  unfoldable pub read_body : Conn → ℕ → Net → Run (Option RtpPack × Net)
  unfolding parse
  read_body c n net = do
    s ← deref c.data_stream
    (r, net') ← read s n net
    elim r [ none ↦ panics | some b ↦ (do pkt ← parse (exact (filled n b)); done (pkt, net')) ]

  -- `if c.dataStream == nil` of `ReadRtp`.
  unfoldable pub open_data : Conn → Net → Run (Bool × Conn × Net)
  open_data c net = elim c.data_stream [ none ↦ accept_data c net | some s ↦ done (true, c, net) ]

  -- `ReadRtp`: `none` for an error as for a packet that could not be parsed, which its caller treats
  -- alike.
  unfoldable pub read_rtp : Conn → Net → Run (Option RtpPack × Conn × Net)
  read_rtp c net = do
    (ok, c1, net1) ← open_data c net
    if not ok then done (none, c1, net1) else (do
      (n, c2, net2) ← read_len c1 net1
      elim n [
        | none ↦ done (none, c2, net2)
        | some len ↦
            (if len == 0
              then done (none, c2, net2)
              else (do (pkt, net3) ← read_body c2 len net2; done (pkt, c2, net3)))
      ])

  -- The connection over which the stream has been named: a new one if that fails on the old one.
  unfoldable pub name_stream : ℕ → QuicState → Run (Option Conn × Net)
  name_stream ssrc s = do
    (c, net0) ← elim s.quic_conn [ none ↦ init_quic s.net | some conn ↦ done (some conn, s.net) ]
    (ok, net1) ← write_ssrc c ssrc net0
    if ok then done (c, net1) else (do
      (c', net2) ← init_quic net1
      (again, net3) ← write_ssrc c' ssrc net2
      done (c', net3))

  -- `GetByQuic`, where the first argument is `DISABLE_QUIC`.
  unfoldable pub get_by_quic : Bool → ℕ → ℕ → QuicState → Run (Option RtpPack × QuicState)
  get_by_quic disabled ssrc seq s = if disabled then done (none, s) else (do
    (c, net1) ← name_stream ssrc s
    (written, net2) ← write_seq c seq net1
    conn ← deref c
    (pkt, conn', net3) ← read_rtp conn net2
    done (pkt, record { quic_conn = some conn'; net = net3 }))

  -- A stream that is there is closed; an error is a panic.
  unfoldable pub close_stream : Option Stream → Net → Run Net
  close_stream none net = done net
  close_stream (some s) net = let (ok, net') = close s net in if ok then done net' else panics

  unfoldable pub close_quic : QuicState → Run QuicState
  unfolding close_stream
  close_quic s = elim s.quic_conn [
    | none ↦ done s
    | some c ↦ (do
      net1 ← close_stream c.data_stream s.net
      net2 ← close_stream c.info_stream net1
      done (record { quic_conn = none; net = net2 }))
  ]
