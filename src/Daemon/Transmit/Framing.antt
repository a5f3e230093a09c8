-- ===== src/Daemon/Transmit/Framing.antt =====
-- The metadata of the calls of `send`.
use usrp_playground.Prelude.{
  ℕ, zero, suc, ◌+◌, ◌-◌, ◌≡◌, ◌≤◌, ◌<◌, refl, sym, ap, ◌∙◌, Bool, true, false, List, [], ◌∷◌, none,
  some, min, ltb, ◌==◌, if-both, arith, All, Bool-cases, inl, inr,
}
use usrp_playground.Daemon.Signal.{Samples}
use usrp_playground.Daemon.Transmit.{
  Outcome, sent, Send, n_columns, send_chunk, send_chunks, transmit_with_delay,
}
use usrp_playground.Daemon.Transmit.Delivery.{transmitted}

module _ (sp : Samples) where
  -- A call in the middle of a burst.
  abbrev pub IsMiddle : Send sp → Type 0
  IsMiddle s = (s.start_of_burst ≡ false) × (s.time_spec ≡ none)

  -- The burst starts at the given time, with its first call and no other.
  abbrev pub StartsOnce : ℕ → List (Send sp) → Type 0
  StartsOnce start [] = Unit
  StartsOnce start (s ∷ ss) =
      (s.start_of_burst ≡ true) × (s.time_spec ≡ some start) × All IsMiddle ss

  -- The last call ends the burst.
  abbrev pub EndsBurst : List (Send sp) → Type 0
  EndsBurst [] = Unit
  EndsBurst (s ∷ []) = s.end_of_burst ≡ true
  EndsBurst (s ∷ t ∷ ss) = EndsBurst (t ∷ ss)

  -- A call that times out is the last one.
  abbrev pub AllAccepted : List (Send sp) → Type 0
  AllAccepted ss = All (λ (s : Send sp). 0 < s.accepted) ss

  EndsBurst-cons :
      (s : Send sp) (ss : List (Send sp))
      → (ss ≡ [] → s.end_of_burst ≡ true)
      → EndsBurst ss
      → EndsBurst (s ∷ ss)
  EndsBurst-cons s [] h e = h refl
  EndsBurst-cons s (t ∷ ss) h e = e

module _ (sp : Samples) (accept : ℕ → ℕ → ℕ) (bounded : (r k : ℕ) → accept r k ≤ k) (chunk_size : ℕ)
    (tx : List (List sp.Sample)) (channels : List ℕ) (n_requested start : ℕ) where
  abbrev loop : ℕ → ℕ → Bool → ℕ → List (Send sp) × Outcome
  loop = send_chunks sp accept chunk_size tx channels n_requested start

  abbrev chunk : ℕ → Bool → ℕ → Send sp
  chunk = send_chunk sp accept chunk_size tx channels n_requested start

  abbrev offered : ℕ → ℕ
  offered done = min (done + chunk_size) n_requested - done

  abbrev accepted : ℕ → ℕ → ℕ
  accepted round done = accept round (offered done)

  -- A returned run from the given position: it stops at the end only.
  abbrev IsEnded : ℕ → List (Send sp) × Outcome → Type 0
  IsEnded done r =
      (m : ℕ)
      → r.1 ≡ sent m
      → (r.0 ≡ [] → done ≡ n_requested) × EndsBurst sp r.0 × AllAccepted sp r.0

  abbrev AllMiddle : List (Send sp) × Outcome → Type 0
  AllMiddle r = All (IsMiddle sp) r.0

  abbrev Starts : List (Send sp) × Outcome → Type 0
  Starts r = StartsOnce sp start r.0

  send_chunks-AllMiddle : (fuel round done : ℕ) → AllMiddle (loop fuel round false done)
  unfolding send_chunks
  send_chunks-AllMiddle zero round done = if-both AllMiddle (ltb done n_requested) tt tt
  send_chunks-AllMiddle (suc fuel) round done =
      unfold send_chunk in
      if-both AllMiddle (ltb done n_requested)
        (
          (refl, refl),
          if-both AllMiddle (accepted round done == 0) tt
              (send_chunks-AllMiddle fuel (round + 1) (done + accepted round done)),
        )
        tt

  pub send_chunks-Starts : (fuel round done : ℕ) → Starts (loop fuel round true done)
  unfolding send_chunks
  send_chunks-Starts zero round done = if-both Starts (ltb done n_requested) tt tt
  send_chunks-Starts (suc fuel) round done =
      unfold send_chunk in
      if-both Starts (ltb done n_requested)
        (
          refl,
          refl,
          if-both AllMiddle (accepted round done == 0) tt
              (send_chunks-AllMiddle fuel (round + 1) (done + accepted round done)),
        )
        tt

  end_of_burst-send_chunk :
      (round : ℕ) (first_chunk : Bool) (done : ℕ)
      → done + accepted round done ≡ n_requested
      → (chunk round first_chunk done).end_of_burst ≡ true
  unfolding send_chunk
  end_of_burst-send_chunk round first_chunk done h = ground (arith, h, bounded round (offered done))

  pub send_chunks-IsEnded :
      (fuel round : ℕ) (first_chunk : Bool) (done : ℕ)
      → done ≤ n_requested
      → IsEnded done (loop fuel round first_chunk done)
  unfolding send_chunks send_chunk
  send_chunks-IsEnded zero round first_chunk done le = elim (Bool-cases (ltb done n_requested)) [
    | inl more ↦ rw more (λ m h. absurd (ground (arith, h)))
    | inr stop ↦ rw stop (λ m h. (λ e. ground (arith, stop), tt, tt))
  ]
  send_chunks-IsEnded (suc fuel) round first_chunk done le =
      elim (Bool-cases (ltb done n_requested)) [
        | inl more ↦ rw more (elim (Bool-cases (accepted round done == 0)) [
          | inl timeout ↦ rw timeout (λ m h. absurd (ground (arith, h)))
          | inr taken ↦ rw taken (λ m h.
              let (stops, ends, all) =
                send_chunks-IsEnded fuel (round + 1) false (done + accepted round done)
                  (omega (arith, bounded round (offered done))) m h in
              (
                λ e. absurd (ground (arith, e)),
                EndsBurst-cons sp (chunk round first_chunk done)
                    (loop fuel (round + 1) false (done + accepted round done)).0
                    (λ e. end_of_burst-send_chunk round first_chunk done (stops e)) ends,
                (ground (arith, taken), all),
              ))
        ])
        | inr stop ↦ rw stop (λ m h. (λ e. ground (arith, stop), tt, tt))
      ]

-- Where `send` returns no more than it is offered, the calls of a burst that returns have all sent
-- something. The first call, and no other, starts the burst, at the time `delay` after the time at which
-- the daemon read the clock. The last call ends the burst.
pub transmit_with_delay-framed :
    (sp : Samples) (accept : ℕ → ℕ → ℕ) (chunk_size : ℕ) (tx : List (List sp.Sample))
    (channels : List ℕ) (now delay m : ℕ)
    → ((r k : ℕ) → accept r k ≤ k)
    → (transmit_with_delay sp accept (some chunk_size) (some tx) channels now delay).1 ≡ sent m
    → AllAccepted sp
        (transmit_with_delay sp accept (some chunk_size) (some tx) channels now delay).0
      × StartsOnce sp
          (now + delay)
          (transmit_with_delay sp accept (some chunk_size) (some tx) channels now delay).0
      × EndsBurst sp
          (transmit_with_delay sp accept (some chunk_size) (some tx) channels now delay).0
transmit_with_delay-framed sp accept chunk_size tx channels now delay m bounded h =
    let run = transmitted sp accept chunk_size tx channels now delay m h in
    let n : ℕ = n_columns sp tx in
    let (stops, ends, all) =
      send_chunks-IsEnded sp accept bounded chunk_size tx channels n (now + delay) n 0 true 0
        (omega arith) m (sym (ap (λ p. p.1) run) ∙ h) in
    rw run
      (all, send_chunks-Starts sp accept bounded chunk_size tx channels n (now + delay) n 0 0, ends)
