-- ===== src/Examples/Uploads.antt =====
-- Uploads, from the connection to the worker.
use usrp_playground.Prelude.{ℕ, ◌≡◌, inr, refl, true, List, [], ◌∷◌, none, some, ok, err, arith}
use usrp_playground.Prelude.Int.{pos}
use usrp_playground.Prelude.Text.{Text, codes, text_eq}
use usrp_playground.Prelude.Dict.{lookup, insert}
use usrp_playground.Json.{Json}
use usrp_playground.Mimo.{unpack_u32, bad_buffer}
use usrp_playground.Gateway.Slots.{
  Limits, Slots, Gate, Reach, start, next, admit, finish, no_slots, held, reserve, release,
}
use usrp_playground.Gateway.Slots.Accounting.{
  IsExact, IsBounded, AtMost, Reach-IsExact, Reach-IsBounded,
}
use usrp_playground.Gateway.Request.{
  Radio, Handshake, text_frame, bytes_frame, Submission, mode_of, select_channel, announce_channels,
  plan_for, read_handshake, second_frame, after_ack, receive, settle_mode, measure, limit_samples,
  submission, check_payload, accept,
}
use usrp_playground.Gateway.Request.Announced.{IsAnnounced}
use usrp_playground.Gateway.Request.Checks.{IsSound, accept-IsSound}
use usrp_playground.Worker.Process.{Job, meta_of, plan_job, undecodable}
use usrp_playground.Worker.Process.Accepted.{JobFor, accept-plan_job, accept_ragged}
use usrp_playground.Examples.Signals.{words, two_blob}

abbrev one_slot : Limits
one_slot = record { max_queue = 1; max_queue_per_ip = 1 }

abbrev host : Text
host = codes "10.0.0.7"

abbrev one_held : Slots
one_held = record { ws_count = 1; ws_per_ip = (host, 1) ∷ [] }

abbrev one_open : Gate
one_open = record { slots = one_held; active = host ∷ [] }

reserve_first : reserve one_slot no_slots host ≡ ok one_held
unfolding reserve held lookup insert
reserve_first = refl

one_open-Reach : Reach (AtMost 1 1) one_open
one_open-Reach =
    next one_slot (omega arith) start
      (admit (record { slots = no_slots; active = [] }) host one_held reserve_first)

abbrev closed : Gate
closed = record { slots = release one_held host; active = [] }

closed-Reach : Reach (AtMost 1 1) closed
closed-Reach = next one_slot (omega arith) one_open-Reach (finish one_open [] [] host refl)

Reach-IsExact_example : IsExact one_open
Reach-IsExact_example = Reach-IsExact (AtMost 1 1) one_open-Reach

Reach-IsBounded_example : IsBounded 1 1 one_open
Reach-IsBounded_example = Reach-IsBounded 1 1 one_open-Reach

abbrev radio : Radio
radio = record {
  mimo_enabled = true;
  mimo_max_channels = 2;
  n_inv_channels = 2;
  max_samples = 1000;
  max_upload = 100000;
}

abbrev two_channels : Handshake
two_channels = record {
  mode = some (Json.text (codes "MIMO"));
  channel = none;
  channels = some (Json.int (pos 2));
  n_samples = none;
}

abbrev two_submission : Submission
two_submission = record { blob = two_blob; channel = 0; listen_to = none; n_samples = 1 }

-- What `accept` computes with.
gateway : Unit {0}
unfolding accept receive read_handshake mode_of select_channel announce_channels plan_for after_ack
    second_frame check_payload settle_mode measure limit_samples submission unpack_u32 text_eq
gateway = tt

accept_two :
    accept radio (some (text_frame 30 (some two_channels))) (some (bytes_frame two_blob))
    ≡ ok two_submission
unfolding gateway
accept_two = refl

accept-IsSound_example :
    IsSound radio two_submission
    × IsAnnounced (some (text_frame 30 (some two_channels))) two_submission
accept-IsSound_example = accept-IsSound radio _ _ two_submission accept_two

accept-plan_job_example :
    (j : Job words) × (plan_job words 1000 (meta_of two_submission) two_blob ≡ ok j)
    × JobFor words two_submission none j
accept-plan_job_example =
    accept-plan_job words radio (some (text_frame 30 (some two_channels)))
      (some (bytes_frame two_blob)) two_submission 1000 accept_two (λ e. omega arith) (omega arith)
      (8, refl)

abbrev nine : List ℕ
nine = 1 ∷ 2 ∷ 3 ∷ 4 ∷ 5 ∷ 6 ∷ 7 ∷ 8 ∷ 9 ∷ []

accept_ragged_example :
    (s : Submission) × (accept radio (some (bytes_frame nine)) none ≡ ok s)
    × (plan_job words 1000 (meta_of s) s.blob ≡ err (undecodable bad_buffer))
unfolding text_eq
accept_ragged_example =
    accept_ragged words radio none nine 1000 2 0 refl refl (omega arith) (omega arith) (omega arith)
      (inr (omega arith))
