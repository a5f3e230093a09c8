-- ===== src/Examples/Radio.antt =====
-- The radio's side.
use usrp_playground.Prelude.{◌≡◌, ◌≤◌, refl, true, [], ◌∷◌, ok, arith}
use usrp_playground.Channel.Duty.{
  Duty, recent, airtime, check_duty_cycle, wait_turn, Log, Run, fresh, transmitted,
}
use usrp_playground.Channel.Duty.Budget.{airtime_in, Run-legal}
use usrp_playground.Channel.Duty.Waiting.{Ends, wait_turn_total}

abbrev ten_percent : Duty
ten_percent = record { enabled = true; max_percent = 10; window = 60; second = 1 }

allow_first :
    check_duty_cycle ten_percent [] 5 6
    ≡ ok (record { allowed = true; wait_time = 0; history = [] })
unfolding check_duty_cycle recent airtime
allow_first = refl

abbrev first_burst : Log
first_burst = record { history = (12, 6) ∷ []; recorded = (12, 6) ∷ []; clock = 12 }

first_burst-Run : Run ten_percent first_burst
first_burst-Run = transmitted 5 6 12 _ fresh (omega arith) allow_first refl (omega arith)

Run-legal_example : airtime_in 60 40 ((12, 6) ∷ []) ≤ 6
Run-legal_example = Run-legal ten_percent 40 refl first_burst-Run

wait_turn_total_example :
    Ends ten_percent refl 13 4 (wait_turn 61 ten_percent (λ t. 0) ((12, 6) ∷ []) 13 4)
wait_turn_total_example =
    wait_turn_total ten_percent refl 60 (λ t. 0) ((12, 6) ∷ []) 12 13 4 (omega arith) (omega arith)
      (omega arith)
