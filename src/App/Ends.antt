-- ===== src/App/Ends.antt =====
-- `CheckAlive` of cache/App.go: which streams are left after a round.
pub mod Outage
use rtp_http_flv.Prelude.{
  ℕ, ◌≡◌, ◌≢◌, refl, sym, ap, ◌∙◌, subst, Bool, true, false, not, ◌&&◌, Bool-cases, ◌⊎◌, inl, inr,
  List, [], ◌∷◌, Option, none, some, ◌==◌, if◌then◌else◌, Text, Dict, lookup, delete, lookup-delete,
  nat_eq, text_eq, nat_beq_iff, arith, Run, done, ◌>>=◌, >>=-eq-done, done-inj,
}
use rtp_http_flv.Publishers.{Publisher, update_publishers}
use rtp_http_flv.Cache.Queue.{Deps}
use rtp_http_flv.App.{Outside, Config, Stream, App, publisher_of}
use rtp_http_flv.App.Streams.{refresh}
use rtp_http_flv.App.Alive.{close_queue, check_stream, check_streams, check_alive}
use rtp_http_flv.App.Registry.{IsRegistry, IsApp}
use rtp_http_flv.App.Registry.Packets.{SameTables, SameTables-IsApp, refresh-SameTables}
use rtp_http_flv.App.Registry.Closes.{check_stream-IsApp, check_streams-IsApp}

-- Does the cloud node publish the stream?
abbrev pub is_published : ℕ → Option (Dict ℕ Publisher) → Bool
is_published ssrc m = elim (publisher_of ssrc m) [ none ↦ false | some info ↦ true ]

abbrev pub occurs : ℕ → List ℕ → Bool
occurs n [] = false
occurs n (m ∷ rest) = if m == n then true else occurs n rest

module _ (d : Deps) (out : Outside d.node.Net) (conf : Config) where
  -- The streams that are left when those of a list have been looked at.
  pub record Kept (order : List ℕ) (app app' : App d) : Type 0 where
    pub publishers : app'.publishers ≡ app.publishers
    pub left :
        (n : ℕ)
        → lookup n app'.rtp_queue_map ≡ (
            if occurs n order && not (is_published n app.publishers)
            then none
            else lookup n app.rtp_queue_map)

  check_stream-Kept :
      (ssrc : ℕ) (app app' : App d)
      → IsApp d app
      → check_stream d out conf ssrc app ≡ done app'
      → Kept (ssrc ∷ []) app app'
  unfolding check_stream
  check_stream-Kept ssrc app app' v h =
      go (publisher_of ssrc app.publishers) (lookup ssrc app.rtp_queue_map) refl refl h
    where
      same :
          (o : Option (Stream d))
          → lookup ssrc app.rtp_queue_map ≡ o
          → (is_published ssrc app.publishers ≡ true) ⊎ (o ≡ none)
          → Kept (ssrc ∷ []) app app
      same o e k = record {
        publishers = refl;
        left = λ n. ground (arith, k, e, nat_beq_iff ssrc n);
      }

      ended :
          (n k : ℕ)
          → k ≡ ssrc
          → is_published ssrc app.publishers ≡ false
          → lookup n (delete k app.rtp_queue_map) ≡ (
              if occurs n (ssrc ∷ []) && not (is_published n app.publishers)
              then none
              else lookup n app.rtp_queue_map)
      ended n k e gone =
          ground (arith, lookup-delete k n app.rtp_queue_map, e, gone, nat_beq_iff ssrc n)

      go :
          (p : Option Publisher) (o : Option (Stream d))
          → publisher_of ssrc app.publishers ≡ p
          → lookup ssrc app.rtp_queue_map ≡ o
          → (elim p [
            | some info ↦ done app
            | none ↦ elim o [
              | none ↦ done app
              | some stream ↦ (do
                let app1 : App d = record app {
                  key_ssrc_map = delete stream.channel_key app.key_ssrc_map;
                  rtp_queue_map = delete stream.q.ssrc app.rtp_queue_map;
                }
                let app2 = close_queue d out conf stream app1
                net' ← out.close_quic app2.net
                done (record app2 { net = net' }))
            ]
          ])
            ≡ done app'
          → Kept (ssrc ∷ []) app app'
      go (some info) o f e k =
          subst (Kept (ssrc ∷ []) app) (done-inj app app' k)
            (same o e (inl (rw (is_published, f) refl)))
      go none none f e k =
          subst (Kept (ssrc ∷ []) app) (done-inj app app' k) (same none e (inr refl))
      go none (some st) f e k =
          let app1 : App d = record app {
            key_ssrc_map = delete st.channel_key app.key_ssrc_map;
            rtp_queue_map = delete st.q.ssrc app.rtp_queue_map;
          } in
          let app2 : App d = close_queue d out conf st app1 in
          let (net', a, g) = >>=-eq-done (out.close_quic app2.net) _ k in
          let t : SameTables d out conf app1 app2 =
            unfold close_queue in record { queues = ground arith; keys = ground arith } in
          let pubs : app2.publishers ≡ app.publishers = unfold close_queue in ground arith in
          let same' : record app2 { net = net' } ≡ app' = done-inj _ _ g in
          let gone : is_published ssrc app.publishers ≡ false = rw (is_published, f) refl in
          subst (Kept (ssrc ∷ []) app) same' (record {
            publishers = pubs;
            left = λ n. ap (lookup n) t.queues ∙ ended n (st.q.ssrc) (v.numbered ssrc st e) gone;
          })

  pub check_streams-Kept :
      (order : List ℕ) (app app' : App d)
      → IsApp d app
      → check_streams d out conf order app ≡ done app'
      → Kept order app app'
  unfolding check_streams
  check_streams-Kept [] app app' v h =
      subst (Kept [] app) (done-inj app app' h) (record { publishers = refl; left = λ n. refl })
  check_streams-Kept (ssrc ∷ order) app app' v h =
      let (app1, a, f) = >>=-eq-done (check_stream d out conf ssrc app) _ h in
      let k1 = check_stream-Kept ssrc app app1 v a in
      let k2 =
        check_streams-Kept order app1 app' (check_stream-IsApp d out conf ssrc app app1 v a) f in
      record {
        publishers = k2.publishers ∙ k1.publishers;
        left = λ n.
            let same : is_published n app1.publishers ≡ is_published n app.publishers =
              ap (is_published n) k1.publishers in
            ground (arith, k1.left n, k2.left n, same);
      }

  published_left :
      (order : List ℕ) (app app' : App d)
      → IsApp d app
      → ((ssrc : ℕ) → lookup ssrc app.rtp_queue_map ≢ none → occurs ssrc order ≡ true)
      → check_alive d out conf true order app ≡ done app'
      → ((ssrc : ℕ)
          → lookup ssrc app'.rtp_queue_map
            ≡ (if is_published ssrc app'.publishers then lookup ssrc app.rtp_queue_map else none))
        × ((key : Text) (ssrc : ℕ)
            → lookup key app'.key_ssrc_map ≡ some ssrc
            → is_published ssrc app'.publishers ≡ true)
  unfolding check_alive
  published_left order app app' v all h =
      let (app1, a, f) = >>=-eq-done (refresh d out conf app) _ h in
      let t = refresh-SameTables d out conf app app1 a in
      let v1 = SameTables-IsApp d out conf app app1 t v in
      let k = check_streams-Kept order app1 app' v1 f in
      let left = streams app1 t k in
      let v' = check_streams-IsApp d out conf order app1 app' v1 f in
      (
        left,
        λ key ssrc e.
            let (st, found, own) = v'.reachable key ssrc e in
            elim (Bool-cases (is_published ssrc app'.publishers)) [
              | inl yes' ↦ yes'
              | inr no' ↦ absurd (ground (arith, found, left ssrc, no'))
            ],
      )
    where
      listed :
          (ssrc : ℕ) (p q : Bool) (o r : Option (Stream d))
          → p ≡ q
          → o ≡ lookup ssrc app.rtp_queue_map
          → r ≡ (if occurs ssrc order && not q then none else o)
          → r ≡ (if p then lookup ssrc app.rtp_queue_map else none)
      listed ssrc true q o r e f g = ground arith
      listed ssrc false q o r e f g = elim (Bool-cases (occurs ssrc order)) [
        | inl yes' ↦ ground arith
        | inr no' ↦ ground (arith, all ssrc)
      ]

      streams :
          (app1 : App d)
          → SameTables d out conf app app1
          → Kept order app1 app'
          → (ssrc : ℕ)
          → lookup ssrc app'.rtp_queue_map
            ≡ (if is_published ssrc app'.publishers then lookup ssrc app.rtp_queue_map else none)
      streams app1 t k ssrc =
          let same : is_published ssrc app'.publishers ≡ is_published ssrc app1.publishers =
            ap (is_published ssrc) k.publishers in
          let before : lookup ssrc app1.rtp_queue_map ≡ lookup ssrc app.rtp_queue_map =
            ap (lookup ssrc) t.queues in
          listed ssrc (is_published ssrc app'.publishers) (is_published ssrc app1.publishers)
            (lookup ssrc app1.rtp_queue_map) (lookup ssrc app'.rtp_queue_map) same before
            (k.left ssrc)

  -- A round of `CheckAlive` that returns, over an order in which every stream of the map occurs.
  -- Where `INIT` is set, it leaves exactly the streams that the cloud node now publishes, as they
  -- were, and a key that still leads to a stream leads to a published one. Where `INIT` is not set,
  -- it leaves every stream as it was, and a key that leads to a stream led to it before.
  pub check_alive_leaves :
      (init : Bool) (order : List ℕ) (app app' : App d)
      → IsApp d app
      → ((ssrc : ℕ) → lookup ssrc app.rtp_queue_map ≢ none → occurs ssrc order ≡ true)
      → check_alive d out conf init order app ≡ done app'
      → ((ssrc : ℕ)
          → lookup ssrc app'.rtp_queue_map ≡ (
              if init && not (is_published ssrc app'.publishers)
              then none
              else lookup ssrc app.rtp_queue_map))
        × ((key : Text) (ssrc : ℕ)
            → lookup key app'.key_ssrc_map ≡ some ssrc
            → (if init
                then is_published ssrc app'.publishers ≡ true
                else lookup key app.key_ssrc_map ≡ some ssrc))
  check_alive_leaves true order app app' v all h =
      let (left, keys) = published_left order app app' v all h in
      (λ ssrc. ground (arith, left ssrc), keys)
  check_alive_leaves false order app app' v all h =
      let same : app ≡ app' = unfold check_alive in done-inj app app' h in
      (
        λ ssrc. ap (λ (x : App d). lookup ssrc x.rtp_queue_map) (sym same),
        λ key ssrc e. ap (λ (x : App d). lookup key x.key_ssrc_map) same ∙ e,
      )
