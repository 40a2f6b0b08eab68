-- ===== src/App/Receive.antt =====
-- The loop of `receiveRtp` of main.go.
use rtp_http_flv.Prelude.{
  Text, ℕ, ◌+◌, ◌-◌, ◌*◌, Bool, true, false, ◌&&◌, List, [], ◌∷◌, ◌++◌, Option, none, some, ◌==◌,
  if◌then◌else◌, length, replicate, Run, done, ◌>>=◌, index, Slice, take,
}
use rtp_http_flv.Rtp.Parse.{parse}
use rtp_http_flv.Cache.Queue.{Deps}
use rtp_http_flv.App.{Outside, Config, App}
use rtp_http_flv.App.Streams.{handle_new_packet}

-- The loop's variable, and the settings that it changes; ports stand for the addresses ":port".
pub record Link : Type 0 where
  pub first_pkt : Bool
  pub cloud_host : Text
  pub init : Bool
  pub quic_port : Option ℕ
  pub api_port : Option ℕ

abbrev pub buffer_len : ℕ
buffer_len = 1300

-- `buff` after a datagram has been read into it: what is longer is cut off.
abbrev pub buffer : List ℕ → Slice
buffer datagram = record {
  elems = take buffer_len datagram;
  spare = replicate (buffer_len - length datagram) 0;
}

-- The first packet has come: where from, unless that is configured.
abbrev pub met : Text → Link → Link
met sender link = record link {
  first_pkt = false;
  cloud_host = if length link.cloud_host == 0 then sender else link.cloud_host;
}

-- The first packet: does it carry the ports of the cloud node?
unfoldable pub first_packet : Link → List ℕ → Run (Bool × Link)
first_packet link buff = do
  b0 ← index buff 0
  b1 ← index buff 1
  b2 ← index buff 2
  b3 ← index buff 3
  if b0 == b'0' && b1 == b'0' && b2 == b'0' && b3 == b'1' && length buff == 8
      then (do
        b4 ← index buff 4
        b5 ← index buff 5
        b6 ← index buff 6
        b7 ← index buff 7
        done (
          true,
          record link {
            init = true;
            quic_port = some (b4 * 256 + b5);
            api_port = some (b6 * 256 + b7);
          },
        ))
      else done (false, link)

module _ (d : Deps) (out : Outside d.node.Net) (conf : Config) where
  -- A packet behind the test for the first one, where `lost` is the answer of `IsPacketLoss`.
  unfoldable pub handle_datagram : Bool → Slice → App d → Run (App d)
  unfolding parse
  handle_datagram lost buff app = if lost then done app else (do
    rp ← parse buff
    elim rp [ none ↦ done app | some p ↦ handle_new_packet d out conf app p ])

  -- A round of the loop: a datagram from `sender` has been read, and `lost` is the answer of
  -- `IsPacketLoss`.
  unfoldable pub receive_rtp : Bool → Text → List ℕ → Link × App d → Run (Link × App d)
  receive_rtp lost sender datagram (link, app) =
      let buff = buffer datagram in
      if link.first_pkt
      then (do
        (again, link') ← first_packet (met sender link) (buff.elems ++ buff.spare)
        if again
            then done (link', app)
            else (do app' ← handle_datagram lost buff app; done (link', app')))
      else (do app' ← handle_datagram lost buff app; done (link, app'))

  unfoldable pub receive_all : List (Bool × Text × List ℕ) → Link × App d → Run (Link × App d)
  receive_all [] s = done s
  receive_all ((lost, sender, datagram) ∷ rest) s =
      receive_rtp lost sender datagram s >>= receive_all rest
