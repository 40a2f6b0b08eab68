-- ===== src/App/Registry/Init.antt =====
-- The message with the ports of the cloud node is compared with the whole buffer of 1300 bytes.
use rtp_http_flv.Prelude.{
  ℕ, ◌-◌, ◌≡◌, sym, ap, ◌∙◌, Bool, false, ◌&&◌, if-cases, inl, inr, List, ◌++◌, Text, ◌==◌, length,
  length-append, length-take, length-replicate, take, replicate, arith, done, >>=-eq-done, done-inj,
  index,
}
use rtp_http_flv.Cache.Queue.{Deps}
use rtp_http_flv.App.{Outside, Config, App}
use rtp_http_flv.App.Receive.{
  Link, buffer_len, buffer, met, first_packet, handle_datagram, receive_rtp,
}

length-buffer :
    (datagram : List ℕ) → length ((buffer datagram).elems ++ (buffer datagram).spare) ≡ buffer_len
length-buffer datagram = omega (
  arith,
  length-append (take buffer_len datagram) (replicate (buffer_len - length datagram) 0),
  length-take buffer_len datagram,
  length-replicate {A = ℕ} (buffer_len - length datagram) 0,
)

not_eight : (a b c e : Bool) (n : ℕ) → n ≡ buffer_len → (a && b && c && e && n == 8) ≡ false
not_eight a b c e n h = ground (arith, h)

first_packet-init :
    (link link' : Link) (buff : List ℕ) (again : Bool)
    → length buff ≡ buffer_len
    → first_packet link buff ≡ done (again, link')
    → link'.init ≡ link.init
unfolding first_packet
first_packet-init link link' buff again n h =
    let (b0, a0, h0) = >>=-eq-done (index buff 0) _ h in
    let (b1, a1, h1) = >>=-eq-done (index buff 1) _ h0 in
    let (b2, a2, h2) = >>=-eq-done (index buff 2) _ h1 in
    let (b3, a3, h3) = >>=-eq-done (index buff 3) _ h2 in
    elim (if-cases (b0 == b'0' && b1 == b'0' && b2 == b'0' && b3 == b'1' && length buff == 8) h3) [
      | inl (yes', k) ↦
          let no' = not_eight (b0 == b'0') (b1 == b'0') (b2 == b'0') (b3 == b'1') (length buff) n in
          absurd (cc (yes', no'))
      | inr (no', k) ↦ sym (ap (λ (x : Bool × Link). x.1.init) (done-inj _ _ k))
    ]

module _ (d : Deps) (out : Outside d.node.Net) (conf : Config) where
  pub receive_rtp-init :
      (lost : Bool) (sender : Text) (datagram : List ℕ) (s s' : Link × App d)
      → receive_rtp d out conf lost sender datagram s ≡ done s'
      → s'.0.init ≡ s.0.init
  unfolding receive_rtp
  receive_rtp-init lost sender datagram s s' h = elim (if-cases s.0.first_pkt h) [
    | inr (later, k) ↦
        let (app', a, f) =
          >>=-eq-done (handle_datagram d out conf lost (buffer datagram) s.1) _ k in
        sym (ap (λ (x : Link × App d). x.0.init) (done-inj _ _ f))
    | inl (first, k) ↦
        let buff = buffer datagram in
        let ((again, link'), a, f) =
          >>=-eq-done (first_packet (met sender s.0) (buff.elems ++ buff.spare)) _ k in
        let same : link'.init ≡ s.0.init =
          first_packet-init (met sender s.0) link' (buff.elems ++ buff.spare) again
            (length-buffer datagram) a in
        elim (if-cases again f) [
          | inl (stop, g) ↦ sym (ap (λ (x : Link × App d). x.0.init) (done-inj _ _ g)) ∙ same
          | inr (go, g) ↦
              let (app', b, e) = >>=-eq-done (handle_datagram d out conf lost buff s.1) _ g in
              sym (ap (λ (x : Link × App d). x.0.init) (done-inj _ _ e)) ∙ same
        ]
  ]
