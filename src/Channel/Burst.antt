-- ===== src/Channel/Burst.antt =====
-- worker/channel.py: `_listen_before_talk`, the commands and answers of `send_and_receive` and
-- `receive_only` after the configuration, and `_reset_sockets`. A ZMQ REQ socket must receive between two sends.
-- Powers are counted in small units from -200 dBFS, the least that a sense gives.
pub mod Sockets
pub mod Sensing
pub mod Listening
use usrp_playground.Prelude.{
  ℕ, zero, suc, Bool, true, false, not, List, [], ◌∷◌, ◌++◌, ltb, if◌then◌else◌, Result, ok, err,
}
use usrp_playground.Channel.Duty.{History}

pub data Side : Type 0 where
  tx_req rx_req : Side

pub data Command : Type 0 where
  load_signal flush_rx receive_to_file transmit_burst : Command

-- What a `recv_json` brings: an answer, whose status is "OK" or not, or a timeout.
pub data Answer : Type 0 where
  reply : (is_ok : Bool) → Answer
  timeout : Answer

-- What is found in the file of a sense.
pub data Reading : Type 0 where
  unreadable : Reading
  measured : ℕ → Reading

pub data Fault : Type 0 where
  illegal_state timed_out channel_busy load_failed transmit_failed receive_failed : Fault
  bad_capture no_samples : Fault

-- The sockets, by whether an answer is due; the daemons' answers and the readings to come; what has
-- been sent, newest first; and `_tx_history`.
pub record Session : Type 0 where
  pub tx_due : Bool
  pub rx_due : Bool
  pub tx_cmd_sent : Bool
  pub rx_cmd_sent : Bool
  pub answers : List Answer
  pub readings : List Reading
  pub commands : List Command
  pub history : History

-- An action may raise, and keeps what it has done until then.
abbrev pub Act : Type 0 → Type 0
Act A = Session → Session × Result Fault A

abbrev pub and_then :
    {A B : Type 0} → (A → Act B) → Session × Result Fault A → Session × Result Fault B
and_then f (s, ok a) = f a s
and_then f (s, err e) = (s, err e)

infixl 5 ◌>>=◌ ◌>>◌
abbrev pub ◌>>=◌ : {A B : Type 0} → Act A → (A → Act B) → Act B
m >>= f = λ s. and_then f (m s)

abbrev pub ◌>>◌ : {B : Type 0} → Act (Unit {0}) → Act B → Act B
m >> k = m >>= λ _. k

abbrev pub pure : {A : Type 0} → A → Act A
pure a = λ s. (s, ok a)

abbrev pub raise : {A : Type 0} → Fault → Act A
raise e = λ s. (s, err e)

abbrev raise_unless : Bool → Fault → Act (Unit {0})
raise_unless true e = pure tt
raise_unless false e = raise e

abbrev pub is_due : Side → Session → Bool
is_due tx_req s = s.tx_due
is_due rx_req s = s.rx_due

abbrev set_due : Side → Bool → Session → Session
set_due tx_req b s = record s { tx_due = b }
set_due rx_req b s = record s { rx_due = b }

abbrev set_cmd_sent : Side → Bool → Act (Unit {0})
set_cmd_sent tx_req b s = (record s { tx_cmd_sent = b }, ok tt)
set_cmd_sent rx_req b s = (record s { rx_cmd_sent = b }, ok tt)

-- `send_json`.
unfoldable pub send : Side → Command → Act (Unit {0})
send side c s =
    if is_due side s
    then (s, err illegal_state)
    else (record (set_due side true s) { commands = c ∷ s.commands }, ok tt)

answered : Side → List Answer → Session → Session × Result Fault Bool
answered side [] s = (s, err timed_out)
answered side (timeout ∷ rest) s = (record s { answers = rest }, err timed_out)
answered side (reply b ∷ rest) s = (record (set_due side false s) { answers = rest }, ok b)

-- `recv_json`: a socket without an answer is still due to receive it. No more answers are timeouts.
unfoldable pub recv : Side → Act Bool
unfolding answered
recv side s = if is_due side s then answered side s.answers s else (s, err illegal_state)

-- The new sockets of the next test have nothing to receive.
unfoldable pub reset_sockets : Session → Session
reset_sockets s = record s { tx_due = false; rx_due = false }

drain : Side → Bool → Session → Session
unfolding recv
drain side true s = (recv side s).0
drain side false s = s

-- `except Exception` of the burst.
unfoldable pub clean_up : Session × Result Fault (Unit {0}) → Session × Result Fault (Unit {0})
unfolding drain reset_sockets
clean_up (s, ok a) = (s, ok a)
clean_up (s, err e) =
    (reset_sockets (drain rx_req s.rx_cmd_sent (drain tx_req s.tx_cmd_sent s)), err e)

read_power : ℕ → List Reading → Session → Session × Result Fault Bool
read_power threshold [] s = (s, ok false)
read_power threshold (unreadable ∷ rest) s = (record s { readings = rest }, ok false)
read_power threshold (measured p ∷ rest) s = (record s { readings = rest }, ok (ltb p threshold))

-- One attempt: whether the channel is clear.
unfoldable pub sense : ℕ → Act Bool
unfolding send recv read_power
sense threshold = do
  send rx_req flush_rx
  _ ← recv rx_req
  send rx_req receive_to_file
  is_ok ← recv rx_req
  if is_ok then (λ s. read_power threshold s.readings s) else pure false

-- `for attempt in range(max_retries)`.
unfoldable pub listen_before_talk : ℕ → ℕ → Act (Unit {0})
unfolding sense
listen_before_talk zero threshold = raise channel_busy
listen_before_talk (suc retries) threshold = do
  is_clear ← sense threshold
  let again = listen_before_talk retries threshold
  if is_clear then pure tt else again

-- The `try` block: the burst ends at `now`, and `readable` tells whether its capture has the
-- channels that are wanted.
unfoldable pub burst : ℕ → ℕ → Bool → Act (Unit {0})
unfolding send recv
burst duration now readable = do
  send tx_req load_signal
  loaded ← recv tx_req
  raise_unless loaded load_failed
  send rx_req flush_rx
  _ ← recv rx_req
  send rx_req receive_to_file
  set_cmd_sent rx_req true
  send tx_req transmit_burst
  set_cmd_sent tx_req true
  sent ← recv tx_req
  set_cmd_sent tx_req false
  raise_unless sent transmit_failed
  received ← recv rx_req
  set_cmd_sent rx_req false
  raise_unless received receive_failed
  λ s. (record s { history = s.history ++ ((now, duration) ∷ []) }, ok tt)
  raise_unless readable bad_capture

pub record Settings : Type 0 where
  pub lbt_enabled : Bool
  pub max_retries : ℕ
  pub threshold : ℕ

give_up : Session × Result Fault (Unit {0}) → Session × Result Fault (Unit {0})
unfolding reset_sockets
give_up (s, ok a) = (s, ok a)
give_up (s, err e) = (reset_sockets s, err e)

-- `_listen_before_talk` with the `except` around it.
unfoldable pub wait_clear : Settings → Act (Unit {0})
unfolding listen_before_talk give_up
wait_clear c s =
    if c.lbt_enabled then give_up (listen_before_talk c.max_retries c.threshold s) else (s, ok tt)

-- `send_and_receive` from the duty cycle's permission on.
unfoldable pub send_and_receive : Settings → ℕ → ℕ → Bool → Act (Unit {0})
unfolding wait_clear burst clean_up
send_and_receive c duration now readable = do
  wait_clear c
  λ s.
      clean_up (burst duration now readable (record s { tx_cmd_sent = false; rx_cmd_sent = false }))

-- The `try` block of `receive_only`.
unfoldable pub capture : Bool → Act (Unit {0})
unfolding send recv
capture readable = do
  send rx_req flush_rx
  _ ← recv rx_req
  send rx_req receive_to_file
  set_cmd_sent rx_req true
  received ← recv rx_req
  set_cmd_sent rx_req false
  raise_unless received receive_failed
  raise_unless readable bad_capture

-- `receive_only` without its configuration.
unfoldable pub receive_only : ℕ → Bool → Act (Unit {0})
unfolding capture clean_up
receive_only n_samples readable = do
  raise_unless (ltb 0 n_samples) no_samples
  λ s. clean_up (capture readable (record s { tx_cmd_sent = false; rx_cmd_sent = false }))
