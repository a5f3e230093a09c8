-- ===== src/Daemon/Receive/Heard.antt =====
-- What a capture that returns holds.
use usrp_playground.Prelude.{
  ℕ, zero, suc, ◌+◌, ◌-◌, ◌/◌, ◌≡◌, ◌≢◌, ◌≤◌, ◌<◌, refl, sym, ap, subst, ◌∙◌, Bool, true, false,
  ◌||◌, List, [], ◌∷◌, ◌++◌, some, length, length-append, length-take, take, take-nil, take-append,
  take-take, min, max, get_elem?, ltb, if◌then◌else◌, arith, Result, ok, Bool-cases, inl, inr,
}
use mathlib.Core.List.{append_assoc, append-nil}
use usrp_playground.Daemon.Signal.{Samples}
use usrp_playground.Daemon.Transmit.{row_or_empty}
use usrp_playground.Daemon.Receive.{
  RxProblem, StreamCommand, start_cont, stop_cont, num_done, RxCall, append_rows, empty_rows,
  warm_up, capture_loop, rx_start, receive_with_delay,
}

module _ (sp : Samples) where
  -- The samples for the j-th channel in so many calls of `recv`, from call `i` on.
  abbrev pub heard : (ℕ → RxCall sp) → ℕ → ℕ → ℕ → List sp.Sample
  heard recv j i zero = []
  heard recv j i (suc m) =
      take (recv i).n_rx (row_or_empty sp (get_elem? (recv i).rx_buffer j))
      ++ heard recv j (i + 1) m

  -- The buffer of a call has a row for each channel, with all the new samples.
  abbrev pub IsFilled : ℕ → RxCall sp → Type 0
  IsFilled n_ch r = (j : ℕ) → j < n_ch → r.n_rx ≤ length (row_or_empty sp (get_elem? r.rx_buffer j))

  get_elem?-append_rows :
      (rows cs : List (List sp.Sample)) (n j : ℕ) (r : List sp.Sample)
      → get_elem? rows j ≡ some r
      → get_elem? (append_rows sp rows cs n) j
        ≡ some (r ++ take n (row_or_empty sp (get_elem? cs j)))
  unfolding append_rows
  get_elem?-append_rows [] cs n j r h = cc
  get_elem?-append_rows (q ∷ rows) [] n zero r h =
      ground (arith, h, take-nil {A = sp.Sample} n, append-nil q)
  get_elem?-append_rows (q ∷ rows) [] n (suc j) r h = get_elem?-append_rows rows [] n j r h
  get_elem?-append_rows (q ∷ rows) (c ∷ cs) n zero r h = ground (arith, h)
  get_elem?-append_rows (q ∷ rows) (c ∷ cs) n (suc j) r h = get_elem?-append_rows rows cs n j r h

  -- A row after a call, and what is still to come.
  step_row :
      (n received count : ℕ) (r c rest : List sp.Sample)
      → count ≤ length c
      → received ≤ n
      → (r ++ take (min count (n - received)) c)
          ++ take (n - (received + min count (n - received))) rest
        ≡ r ++ take (n - received) (take count c ++ rest)
  step_row n received count r c rest h le =
      let taken : ℕ = min count (n - received) in
      let e : n - received - length (take count c) ≡ n - (received + taken) =
        omega (arith, length-take count c) in
      append_assoc r (take taken c) (take (n - (received + taken)) rest)
      ∙ ap (λ t. r ++ t)
          (sym (
            take-append (n - received) (take count c) rest
            ∙ ap (λ t. t ++ take (n - received - length (take count c)) rest)
                (take-take (n - received) count c)
            ∙ ap (λ k. take taken c ++ take k rest) e))

  module _ (recv : ℕ → RxCall sp) (n_ch : ℕ) (filled : (i : ℕ) → IsFilled n_ch (recv i)) where
    -- What each row holds after so many calls, of which the first is call `i`.
    abbrev Holds : ℕ → ℕ → ℕ → List (List sp.Sample) → List (List sp.Sample) → ℕ → Type 0
    Holds n i received rows out m =
        (j : ℕ) (r : List sp.Sample)
        → j < n_ch
        → get_elem? rows j ≡ some r
        → (get_elem? out j ≡ some (r ++ take (n - received) (heard recv j i m)))
          × (n ≤ received + length (heard recv j i m))

    Holds-stop :
        (n i received : ℕ) (rows : List (List sp.Sample))
        → received ≡ n
        → Holds n i received rows rows 0
    Holds-stop n i received rows e j r lt g = (
      g ∙ ap some (sym (ap (λ t. r ++ t) (take-nil (n - received)) ∙ append-nil r)),
      omega (arith, e),
    )

    capture_loop_stop :
        (n rounds i received : ℕ) (rows out : List (List sp.Sample))
        → ltb received n ≡ false
        → capture_loop sp recv n rounds i received rows ≡ ok out
        → rows ≡ out
    unfolding capture_loop
    capture_loop_stop n zero i received rows out stop h = ground (arith, stop, h)
    capture_loop_stop n (suc rounds) i received rows out stop h = ground (arith, stop, h)

    capture_loop_step :
        (n rounds i received : ℕ) (rows out : List (List sp.Sample))
        → ltb received n ≡ true
        → capture_loop sp recv n (suc rounds) i received rows ≡ ok out
        → capture_loop sp recv n rounds
            (i + 1)
            (received + min (recv i).n_rx (n - received))
            (append_rows sp rows (recv i).rx_buffer (min (recv i).n_rx (n - received)))
          ≡ ok out
    unfolding capture_loop
    capture_loop_step n rounds i received rows out more h = ground (arith, more, h)

    Holds-step :
        (n i received m : ℕ) (rows out : List (List sp.Sample))
        → received ≤ n
        → Holds n
            (i + 1)
            (received + min (recv i).n_rx (n - received))
            (append_rows sp rows (recv i).rx_buffer (min (recv i).n_rx (n - received)))
            out
            m
        → Holds n i received rows out (suc m)
    Holds-step n i received m rows out le ih j r lt g =
        let taken : ℕ = min (recv i).n_rx (n - received) in
        let c = row_or_empty sp (get_elem? (recv i).rx_buffer j) in
        let (row, enough) =
          ih j (r ++ take taken c) lt (get_elem?-append_rows rows (recv i).rx_buffer taken j r g) in
        (
          row
              ∙ ap some (
                  step_row n received (recv i).n_rx r c (heard recv j (i + 1) m) (filled i j lt)
                    le),
          omega (
            arith,
            enough,
            filled i j lt,
            length-append (take (recv i).n_rx c) (heard recv j (i + 1) m),
            length-take (recv i).n_rx c,
          ),
        )

    capture_loop_stalled :
        (n i received : ℕ) (rows out : List (List sp.Sample))
        → ltb received n ≡ true
        → capture_loop sp recv n 0 i received rows ≢ ok out
    unfolding capture_loop
    capture_loop_stalled n i received rows out more h = ground (arith, more, h)

    capture_loop-Holds_stop :
        (n rounds i received : ℕ) (rows out : List (List sp.Sample))
        → received ≤ n
        → ltb received n ≡ false
        → capture_loop sp recv n rounds i received rows ≡ ok out
        → (m : ℕ) × (m ≤ rounds) × Holds n i received rows out m
    capture_loop-Holds_stop n rounds i received rows out le stop h = (
      0,
      omega arith,
      subst (λ o. Holds n i received rows o 0)
          (capture_loop_stop n rounds i received rows out stop h)
          (Holds-stop n i received rows (ground (arith, stop))),
    )

    capture_loop-Holds :
        (n rounds i received : ℕ) (rows out : List (List sp.Sample))
        → received ≤ n
        → capture_loop sp recv n rounds i received rows ≡ ok out
        → (m : ℕ) × (m ≤ rounds) × Holds n i received rows out m
    capture_loop-Holds n zero i received rows out le h = elim (Bool-cases (ltb received n)) [
      | inl more ↦ absurd (capture_loop_stalled n i received rows out more h)
      | inr stop ↦ capture_loop-Holds_stop n 0 i received rows out le stop h
    ]
    capture_loop-Holds n (suc rounds) i received rows out le h =
        elim (Bool-cases (ltb received n)) [
          | inl more ↦
              let taken : ℕ = min (recv i).n_rx (n - received) in
              let (m, m_le, held) =
                capture_loop-Holds n rounds (i + 1) (received + taken)
                  (append_rows sp rows (recv i).rx_buffer taken) out (omega arith)
                  (capture_loop_step n rounds i received rows out more h) in
              (suc m, omega arith, Holds-step n i received m rows out le held)
          | inr stop ↦ capture_loop-Holds_stop n (suc rounds) i received rows out le stop h
        ]

  get_elem?-empty_rows : (n j : ℕ) → j < n → get_elem? (empty_rows sp n) j ≡ some []
  unfolding empty_rows
  get_elem?-empty_rows zero j h = absurd (omega arith)
  get_elem?-empty_rows (suc n) zero h = refl
  get_elem?-empty_rows (suc n) (suc j) h = get_elem?-empty_rows n j (omega arith)

module _ (sp : Samples) (recv : ℕ → RxCall sp) (clock : ℕ → ℕ) (soon chunk_size n_ch : ℕ)
    (needs_warmup : Bool) (delay n : ℕ) where
  abbrev pub received_now : List StreamCommand × Result RxProblem (List (List sp.Sample))
  received_now = receive_with_delay sp recv clock soon (some chunk_size) n_ch needs_warmup delay n

  -- The first call after the warm-up.
  abbrev pub first_call : ℕ
  first_call = if ltb 1 n_ch || needs_warmup then warm_up sp recv else 0

  abbrev pub warming : List StreamCommand
  warming = if ltb 1 n_ch || needs_warmup then start_cont (clock 1 + soon) ∷ stop_cont ∷ [] else []

  -- Every row is the first n samples of its channel in m calls, and those hold as many.
  abbrev pub IsHeard : ℕ → List (List sp.Sample) → Type 0
  IsHeard m out =
      (j : ℕ)
      → j < n_ch
      → (get_elem? out j ≡ some (take n (heard sp recv j first_call m)))
        × (n ≤ length (heard sp recv j first_call m))

  rx_start-max : rx_start sp recv clock soon delay ≡ max (clock 0 + delay) (clock 2 + soon)
  unfolding rx_start
  rx_start-max = ground arith

  -- Where each call of `recv` fills a row for each channel, a capture that returns was asked for after
  -- the warm-up, if there is one, at the later of the requested time after the request and the earliest
  -- time that is far enough ahead of the clock. For each channel it is exactly the first samples that the
  -- streamer gave after the warm-up, in order and as many as were requested, from no more calls than the
  -- loop allows.
  pub receive_with_delay-IsHeard :
      (out : List (List sp.Sample))
      → ((i : ℕ) → IsFilled sp n_ch (recv i))
      → received_now.1 ≡ ok out
      → (received_now.0 ≡ warming ++ num_done n (max (clock 0 + delay) (clock 2 + soon)) ∷ [])
        × ((m : ℕ) × (m ≤ n / chunk_size + 100) × IsHeard m out)
  unfolding receive_with_delay
  receive_with_delay-IsHeard out filled h =
      let (m, m_le, held) =
        capture_loop-Holds sp recv n_ch filled n (n / chunk_size + 100) first_call 0
          (empty_rows sp n_ch) out (omega arith) h in
      (
        ap (λ t. warming ++ num_done n t ∷ []) rx_start-max,
        (
          m,
          m_le,
          λ j lt.
              let (row, enough) = held j [] lt (get_elem?-empty_rows sp n_ch j lt) in
              let e : n - 0 ≡ n = omega arith in
              (
                row ∙ ap (λ k. some (take k (heard sp recv j first_call m))) e,
                omega (arith, enough),
              ),
        ),
      )
