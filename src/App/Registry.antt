-- ===== src/App/Registry.antt =====
-- The tables of the node agree, whatever packets arrive, streams end, and players come.
pub mod Packets
pub mod Closes
pub mod Answers
pub mod Init
pub mod Reach
use rtp_http_flv.Prelude.{
  ℕ, ◌≡◌, ◌≢◌, refl, sym, ap, ◌∙◌, subst, Bool, true, false, Bool-cases, inl, inr, Option, none,
  some, if◌then◌else◌, Text, Dict, lookup, delete, put, lookup-delete, lookup-put, nat_eq, text_eq,
  text_beq, text_beq_iff, nat_beq_iff, ◌==◌, arith,
}
use rtp_http_flv.Cache.Queue.{Deps}
use rtp_http_flv.App.{Stream, App}

module _ (d : Deps) where
  -- A queue is listed under its own number, and every key leads to a queue with that key.
  pub record IsRegistry (queues : Dict ℕ (Stream d)) (keys : Dict Text ℕ) : Type 0 where
    pub numbered : (ssrc : ℕ) (st : Stream d) → lookup ssrc queues ≡ some st → st.q.ssrc ≡ ssrc
    pub reachable :
        (key : Text) (ssrc : ℕ)
        → lookup key keys ≡ some ssrc
        → (st : Stream d) × (lookup ssrc queues ≡ some st) × (st.channel_key ≡ key)

  abbrev pub IsApp : App d → Type 0
  IsApp app = IsRegistry app.rtp_queue_map app.key_ssrc_map

  -- A new stream.
  pub put-IsRegistry :
      (queues : Dict ℕ (Stream d)) (keys : Dict Text ℕ) (ssrc : ℕ) (key : Text) (st : Stream d)
      → IsRegistry queues keys
      → lookup ssrc queues ≡ none
      → st.q.ssrc ≡ ssrc
      → st.channel_key ≡ key
      → IsRegistry (put ssrc st queues) (put key ssrc keys)
  put-IsRegistry queues keys ssrc key st v free n c = record {
    numbered = λ s t e. elim (Bool-cases (ssrc == s)) [
      | inl same ↦
          let t_eq : st ≡ t = cc (rw (lookup-put ssrc s st queues, same) at e) in
          let s_eq : ssrc ≡ s = (nat_beq_iff ssrc s).0 same in
          subst (λ (x : Stream d). x.q.ssrc ≡ s) t_eq (n ∙ s_eq)
      | inr other ↦ v.numbered s t (rw (lookup-put ssrc s st queues, other) at e)
    ];
    reachable = λ k s e. elim (Bool-cases (text_beq key k)) [
      | inl same ↦
          let s_eq : ssrc ≡ s = cc (rw (lookup-put key k ssrc keys, same) at e) in
          let here : (ssrc == s) ≡ true = (nat_beq_iff ssrc s).1 s_eq in
          (st, rw (lookup-put ssrc s st queues, here) refl, c ∙ (text_beq_iff key k).0 same)
      | inr other ↦
          let (t, f, g) = v.reachable k s (rw (lookup-put key k ssrc keys, other) at e) in
          elim (Bool-cases (ssrc == s)) [
            | inl same ↦
                let s_eq : ssrc ≡ s = (nat_beq_iff ssrc s).0 same in absurd (cc (f, free, s_eq))
            | inr apart ↦ (t, rw (lookup-put ssrc s st queues, apart) f, g)
          ]
    ];
  }

  -- A stream that changes, but for its number and its key.
  pub update-IsRegistry :
      (queues : Dict ℕ (Stream d)) (keys : Dict Text ℕ) (ssrc : ℕ) (st st' : Stream d)
      → IsRegistry queues keys
      → lookup ssrc queues ≡ some st
      → st'.q.ssrc ≡ st.q.ssrc
      → st'.channel_key ≡ st.channel_key
      → IsRegistry (put ssrc st' queues) keys
  update-IsRegistry queues keys ssrc st st' v found n c = record {
    numbered = λ s t e. elim (Bool-cases (ssrc == s)) [
      | inl same ↦
          let t_eq : st' ≡ t = cc (rw (lookup-put ssrc s st' queues, same) at e) in
          let s_eq : ssrc ≡ s = (nat_beq_iff ssrc s).0 same in
          subst (λ (x : Stream d). x.q.ssrc ≡ s) t_eq (n ∙ v.numbered ssrc st found ∙ s_eq)
      | inr other ↦ v.numbered s t (rw (lookup-put ssrc s st' queues, other) at e)
    ];
    reachable = λ k s e.
        let (t, f, g) = v.reachable k s e in
        elim (Bool-cases (ssrc == s)) [
          | inl same ↦
              let s_eq : ssrc ≡ s = (nat_beq_iff ssrc s).0 same in
              let t_eq : st ≡ t = cc (f, found, s_eq) in
              (
                st',
                rw (lookup-put ssrc s st' queues, same) refl,
                c ∙ ap (λ (x : Stream d). x.channel_key) t_eq ∙ g,
              )
          | inr apart ↦ (t, rw (lookup-put ssrc s st' queues, apart) f, g)
        ];
  }

  -- A stream that ends.
  pub delete-IsRegistry :
      (queues : Dict ℕ (Stream d)) (keys : Dict Text ℕ) (ssrc : ℕ) (st : Stream d)
      → IsRegistry queues keys
      → lookup ssrc queues ≡ some st
      → IsRegistry (delete st.q.ssrc queues) (delete st.channel_key keys)
  delete-IsRegistry queues keys ssrc st v found = record {
    numbered = λ s t e. elim (Bool-cases (st.q.ssrc == s)) [
      | inl same ↦ absurd (cc (rw (lookup-delete st.q.ssrc s queues, same) at e))
      | inr other ↦ v.numbered s t (rw (lookup-delete st.q.ssrc s queues, other) at e)
    ];
    reachable = λ k s e. elim (Bool-cases (text_beq st.channel_key k)) [
      | inl same ↦ absurd (cc (rw (lookup-delete st.channel_key k keys, same) at e))
      | inr other ↦
          let (t, f, g) = v.reachable k s (rw (lookup-delete st.channel_key k keys, other) at e) in
          elim (Bool-cases (st.q.ssrc == s)) [
            | inl same ↦
                let s_eq : ssrc ≡ s =
                  sym (v.numbered ssrc st found) ∙ (nat_beq_iff st.q.ssrc s).0 same in
                let t_eq : st ≡ t = cc (f, found, s_eq) in
                let k_eq : st.channel_key ≡ k = ap (λ (x : Stream d). x.channel_key) t_eq ∙ g in
                let yes' : text_beq st.channel_key k ≡ true =
                  (text_beq_iff st.channel_key k).1 k_eq in
                absurd (cc (yes', other))
            | inr apart ↦ (t, rw (lookup-delete st.q.ssrc s queues, apart) f, g)
          ]
    ];
  }
