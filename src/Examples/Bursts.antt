-- ===== src/Examples/Bursts.antt =====
-- Bursts between the two sockets.
use usrp_playground.Prelude.{◌<◌, ◌≡◌, ◌≢◌, refl, true, false, List, [], ◌∷◌, ok}
use usrp_playground.Channel.Burst.{
  receive_only, Answer, reply, Reading, measured, burst, clean_up, listen_before_talk,
  send_and_receive, sense, send, recv, wait_clear,
}
use usrp_playground.Channel.Burst.Sockets.{session, four_commands, burst_unrecorded}
use usrp_playground.Channel.Burst.Listening.{Passive, is_heard, receive_only_lem}

-- A busy channel, then a clear one.
abbrev two_senses : List Answer
two_senses = reply true ∷ reply true ∷ reply true ∷ reply true ∷ []

abbrev readings : List Reading
readings = measured 170 ∷ measured 90 ∷ []

abbrev lost_capture : List Answer
lost_capture = reply true ∷ reply true ∷ reply true ∷ reply false ∷ []

burst_unrecorded_example :
    let (s, r) = clean_up (burst 5 40 true (session lost_capture [] [] [])) in
    (s.commands ≡ four_commands []) × (s.history ≡ []) × (r ≢ ok tt)
burst_unrecorded_example = burst_unrecorded 5 40 [] [] [] true lost_capture refl refl

abbrev all_answers : List Answer
all_answers =
    reply true
    ∷ reply true
    ∷ reply true
    ∷ reply true
    ∷ reply true
    ∷ reply true
    ∷ reply true
    ∷ reply true
    ∷ []

succeeds :
    (send_and_receive
      (record { lbt_enabled = true; max_retries = 3; threshold = 150 })
      5
      40
      true
      (session all_answers readings [] [])).1
    ≡ ok tt
unfolding send_and_receive wait_clear listen_before_talk sense burst clean_up send recv
succeeds = refl

receive_only_lem_example :
    let (s, r) = receive_only 64 true (session two_senses [] [] []) in
    Passive ((0 < 64) × (is_heard two_senses ≡ true) × (true ≡ true)) [] [] s r
receive_only_lem_example = receive_only_lem [] [] [] 64 true two_senses
