-- ===== src/Daemon/Transmit/Delivery.antt =====
-- What the streamer accepts of each channel, over all calls of `send`.
use usrp_playground.Prelude.{
  ℕ, zero, suc, ◌+◌, ◌-◌, ◌≡◌, ◌≤◌, sym, ap, ◌∙◌, Bool, true, false, List, [], ◌∷◌, ◌++◌, some,
  length, take, drop, drop-drop, drop-all, take-take, take-append_drop, min, get_elem?, ltb, arith,
  Bool-cases, inl, inr,
}
use usrp_playground.Daemon.Signal.{Samples}
use usrp_playground.Daemon.Store.{max_channel}
use usrp_playground.Daemon.Transmit.{
  Outcome, sent, Send, row_or_empty, tx_buffer, n_columns, send_chunk, send_chunks,
  transmit_with_delay,
}

-- A chunk of a row, and what follows it.
chunk-append-rest {ℓ} :
    {A : Type ℓ} (accepted offered done : ℕ) (row : List A)
    → accepted ≤ offered
    → take accepted (take offered (drop done row)) ++ drop (done + accepted) row ≡ drop done row
chunk-append-rest accepted offered done row h =
    let e : min offered accepted ≡ accepted = omega arith in
    rw (take-take accepted offered (drop done row))
      (rw e (rw (← drop-drop done accepted row) (take-append_drop accepted (drop done row))))

module _ (sp : Samples) where
  -- What is accepted for the j-th channel of the streamer.
  abbrev pub delivered : ℕ → List (Send sp) → List sp.Sample
  delivered j [] = []
  delivered j (s ∷ ss) = take s.accepted (row_or_empty sp (get_elem? s.buffer j)) ++ delivered j ss

  get_elem?-tx_buffer :
      (tx : List (List sp.Sample)) (channels : List ℕ) (first last j c : ℕ)
      → get_elem? channels j ≡ some c
      → get_elem? (tx_buffer sp tx channels first last) j
        ≡ some (take (last - first) (drop first (row_or_empty sp (get_elem? tx c))))
  unfolding tx_buffer
  get_elem?-tx_buffer tx [] first last j c h = cc
  get_elem?-tx_buffer tx (d ∷ channels) first last zero c h = ground (arith, h)
  get_elem?-tx_buffer tx (d ∷ channels) first last (suc j) c h =
      get_elem?-tx_buffer tx channels first last j c h

module _ (sp : Samples) (accept : ℕ → ℕ → ℕ) (bounded : (r k : ℕ) → accept r k ≤ k) (chunk_size : ℕ)
    (tx : List (List sp.Sample)) (channels : List ℕ) (n_requested start : ℕ) where
  abbrev loop : ℕ → ℕ → Bool → ℕ → List (Send sp) × Outcome
  loop = send_chunks sp accept chunk_size tx channels n_requested start

  delivered-send_chunks :
      (fuel round : ℕ) (first_chunk : Bool) (done j c : ℕ) (row : List sp.Sample) (m : ℕ)
      → get_elem? channels j ≡ some c
      → get_elem? tx c ≡ some row
      → length row ≡ n_requested
      → done ≤ n_requested
      → (loop fuel round first_chunk done).1 ≡ sent m
      → delivered sp j (loop fuel round first_chunk done).0 ≡ drop done row
  unfolding send_chunks
  delivered-send_chunks zero round first_chunk done j c row m g t l le h =
      ground (arith, h, drop-all done row)
  delivered-send_chunks (suc fuel) round first_chunk done j c row m g t l le h =
      let offered : ℕ = min (done + chunk_size) n_requested - done in
      let accepted : ℕ = accept round offered in
      unfold send_chunk in
      ground (
        arith,
        h,
        g,
        t,
        drop-all done row,
        bounded round offered,
        get_elem?-tx_buffer sp tx channels done (min (done + chunk_size) n_requested) j c g,
        chunk-append-rest accepted offered done row (bounded round offered),
        delivered-send_chunks fuel (round + 1) false (done + accepted) j c row m g t l,
      )

  sent-send_chunks :
      (fuel round : ℕ) (first_chunk : Bool) (done m : ℕ)
      → done ≤ n_requested
      → (loop fuel round first_chunk done).1 ≡ sent m
      → m ≡ n_requested
  unfolding send_chunks
  sent-send_chunks zero round first_chunk done m le h = ground (arith, h)
  sent-send_chunks (suc fuel) round first_chunk done m le h =
      let offered : ℕ = min (done + chunk_size) n_requested - done in
      unfold send_chunk in
      ground (
        arith,
        h,
        bounded round offered,
        sent-send_chunks fuel (round + 1) false (done + accept round offered) m,
      )

module _ (sp : Samples) (accept : ℕ → ℕ → ℕ) (chunk_size : ℕ) (tx : List (List sp.Sample)) where
  -- A burst that returns has run the loop.
  pub transmitted :
      (channels : List ℕ) (now delay m : ℕ)
      → (transmit_with_delay sp accept (some chunk_size) (some tx) channels now delay).1 ≡ sent m
      → transmit_with_delay sp accept (some chunk_size) (some tx) channels now delay
        ≡ send_chunks sp accept chunk_size tx channels
            (n_columns sp tx)
            (now + delay)
            (n_columns sp tx)
            0
            true
            0
  unfolding transmit_with_delay
  transmitted channels now delay m h =
      elim (Bool-cases (ltb (max_channel sp channels) (length tx))) [
        | inl t ↦ rw t
        | inr f ↦ absurd (ground (arith, h, f))
      ]

-- Where `send` returns no more than it is offered, a burst that returns has sent as many samples as
-- `tx_signal` has, and what was accepted for each channel of the streamer, over all calls of `send`, is
-- the whole row of that channel in `tx_signal`, in order.
pub delivered-transmit_with_delay :
    (sp : Samples) (accept : ℕ → ℕ → ℕ) (chunk_size : ℕ) (tx : List (List sp.Sample))
    (channels : List ℕ) (now delay m : ℕ)
    → ((r k : ℕ) → accept r k ≤ k)
    → (transmit_with_delay sp accept (some chunk_size) (some tx) channels now delay).1 ≡ sent m
    → (m ≡ n_columns sp tx)
      × ((j c : ℕ) (row : List sp.Sample)
          → get_elem? channels j ≡ some c
          → get_elem? tx c ≡ some row
          → length row ≡ n_columns sp tx
          → delivered sp j
              (transmit_with_delay sp accept (some chunk_size) (some tx) channels now delay).0
            ≡ row)
delivered-transmit_with_delay sp accept chunk_size tx channels now delay m bounded h =
    let run = transmitted sp accept chunk_size tx channels now delay m h in
    let n : ℕ = n_columns sp tx in
    let returned = sym (ap (λ p. p.1) run) ∙ h in
    (
      sent-send_chunks sp accept bounded chunk_size tx channels n (now + delay) n 0 true 0 m
          (omega arith) returned,
      λ j c row g t l.
          ap (λ p. delivered sp j p.0) run
          ∙ delivered-send_chunks sp accept bounded chunk_size tx channels n (now + delay) n 0 true
              0 j c row m g t l (omega arith) returned,
    )
