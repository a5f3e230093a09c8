-- ===== src/Examples/Configurations.antt =====
-- The TX daemon's configuration on a bench radio of two channels.
use usrp_playground.Prelude.{
  ℕ, ◌+◌, ◌-◌, ◌≡◌, ◌≢◌, ◌⊎◌, err, refl, true, List, [], ◌∷◌, Option, none, some, leb, arith, ok,
}
use usrp_playground.Prelude.Text.{Text, codes, text_eq}
use usrp_playground.Prelude.Numbers.{is_member, value_at, set_at}
use usrp_playground.Daemon.Store.{Store}
use usrp_playground.Daemon.Radio.{validate_sampling_rate, Tolerance, Floats, Radio, radio_failed}
use usrp_playground.Daemon.Asked.{
  Request, Role, same, sorted, check_channels, validate_channel, validate_channels, validate,
  synchronization, interference,
}
use usrp_playground.Daemon.Tuning.{
  Settings, tune_freq, tune_power, tune_gain, tune_antenna, tune_bw, tune_channel, tune_channels,
}
use usrp_playground.Daemon.Configure.{
  channels_changed, refresh_signal, tune_rate, renew_streamer, finish, set_rate, retune, apply,
  Daemon, configure_usrp,
}
use usrp_playground.Daemon.Configure.Again.{AtRate, configure_usrp-again}
use usrp_playground.Daemon.Configure.Streams.{
  IsStreaming, configure_usrp-IsStreaming, configure_usrp-reordered,
}
use usrp_playground.Daemon.Configure.Refused.{LosesStreamer, StopsHalfway, configure_usrp-error}
use usrp_playground.Examples.Transmissions.{numbers}

-- Numbers that differ by one at most are close.
abbrev pub whole : Floats
whole = record { Float = ℕ; is_close = λ tol x y. leb ((x - y) + (y - x)) 1; is_le = leb }

pub whole_refl : (tol : Tolerance) (x : ℕ) → whole.is_close tol x x ≡ true
whole_refl tol x = ground arith

pub record Bench : Type 0 where
  pub rate : ℕ
  pub freqs : List (ℕ × ℕ)
  pub gains : List (ℕ × ℕ)
  pub ports : List (ℕ × Text)

abbrev number_or_zero : Option ℕ → ℕ
number_or_zero none = 0
number_or_zero (some n) = n

abbrev text_or_empty : Option Text → Text
text_or_empty none = []
text_or_empty (some t) = t

-- It has no power reference and no filter to set.
abbrev pub bench : Radio whole
bench = record {
  Hardware = Bench;
  get_tx_num_channels = λ h. 2;
  available_fs = λ h. 100 ∷ 200 ∷ [];
  available_gains = λ ch h. 0 ∷ 10 ∷ 20 ∷ [];
  fc_start = λ ch h. 1000;
  fc_stop = λ ch h. 6000;
  get_tx_antennas = λ ch h. codes "TX/RX0" ∷ codes "RX1" ∷ [];
  get_tx_rate = λ ch h. h.rate;
  set_tx_rate = λ fs h. some (record h { rate = fs });
  get_tx_freq = λ ch h. number_or_zero (value_at ch h.freqs);
  set_tx_freq = λ fc ch h. some (record h { freqs = set_at ch fc h.freqs });
  get_tx_gain = λ ch h. number_or_zero (value_at ch h.gains);
  set_tx_gain = λ g ch h. some (record h { gains = set_at ch g h.gains });
  get_tx_power_reference = λ ch h. none;
  set_tx_power_reference = λ p ch h. none;
  get_tx_antenna = λ ch h. text_or_empty (value_at ch h.ports);
  set_tx_antenna = λ a ch h. some (record h { ports = set_at ch a h.ports });
  get_tx_bandwidth = λ ch h. none;
  set_tx_bandwidth = λ b ch h. none;
  get_tx_stream = λ cs h. some 64;
}

abbrev empty_store : Store numbers
empty_store = record {
  sync_channels = [];
  intf_channels = [];
  sync_signal_data = none;
  intf_signal_data = none;
  tx_signal = none;
  signal_samples = 0;
}

abbrev pub fresh : Daemon whole numbers bench
fresh = record {
  hardware = record { rate = 50; freqs = []; gains = []; ports = [] };
  store = empty_store;
  channels = [];
  current_fs = some 50;
  current_channels = none;
  channel_configs = [];
  tx_streamer = none;
}

abbrev pub asked : List ℕ → List ℕ → Request whole
asked sync intf = record {
  fs = 100;
  fc = 2000;
  sync = sync;
  intf = intf;
  channel_gains = (0, 10) ∷ (1, 20) ∷ [];
  antenna = same (codes "TX/RX0");
  channel_powers = [];
  bw = none;
}

abbrev pub settled : Daemon whole numbers bench
settled = record {
  hardware = record {
    rate = 100;
    freqs = (0, 2000) ∷ (1, 2000) ∷ [];
    gains = (0, 10) ∷ (1, 20) ∷ [];
    ports = (0, codes "TX/RX0") ∷ (1, codes "TX/RX0") ∷ [];
  };
  store = record empty_store { sync_channels = 0 ∷ []; intf_channels = 1 ∷ [] };
  channels = 0 ∷ 1 ∷ [];
  current_fs = some 100;
  current_channels = some (0 ∷ 1 ∷ []);
  channel_configs = [];
  tx_streamer = some (record { max_num_samps = 64; stream_channels = 0 ∷ 1 ∷ [] });
}

abbrev set_as : ℕ → Role → Settings whole
set_as gain role = record {
  role = role;
  actual_fs = 100;
  actual_fc = 2000;
  actual_gain = gain;
  actual_power = none;
  actual_bw = none;
  actual_antenna = codes "TX/RX0";
}

configured :
    (configure_usrp whole numbers bench fresh (asked (0 ∷ []) (1 ∷ []))).1
    ≡ ok ((0, set_as 10 synchronization) ∷ (1, set_as 20 interference) ∷ [])
unfolding configure_usrp validate check_channels validate_sampling_rate validate_channels
    validate_channel apply channels_changed retune finish set_rate refresh_signal tune_rate
    tune_channels tune_channel tune_freq tune_power tune_gain tune_antenna tune_bw renew_streamer
    sorted value_at set_at is_member text_eq
configured = refl

at_rate :
    AtRate whole numbers bench 100
      (configure_usrp whole numbers bench fresh (asked (0 ∷ []) (1 ∷ []))).0.hardware
      (0 ∷ 1 ∷ [])
unfolding configure_usrp validate check_channels validate_sampling_rate validate_channels
    validate_channel apply channels_changed retune finish set_rate refresh_signal tune_rate
    tune_channels tune_channel tune_freq tune_power tune_gain tune_antenna tune_bw renew_streamer
    sorted value_at set_at is_member text_eq
at_rate = (refl, (refl, tt))

same_checks :
    validate whole bench
      (configure_usrp whole numbers bench fresh (asked (0 ∷ []) (1 ∷ []))).0.hardware
      (asked (0 ∷ []) (1 ∷ []))
    ≡ validate whole bench fresh.hardware (asked (0 ∷ []) (1 ∷ []))
unfolding validate check_channels validate_sampling_rate validate_channels validate_channel value_at
same_checks = refl

configure_usrp-again_example :
    (again : List (ℕ × Settings whole)) × (configure_usrp whole numbers bench
        (configure_usrp whole numbers bench fresh (asked (0 ∷ []) (1 ∷ []))).0
        (asked (0 ∷ []) (1 ∷ []))
      ≡ ((configure_usrp whole numbers bench fresh (asked (0 ∷ []) (1 ∷ []))).0, ok again))
configure_usrp-again_example =
    configure_usrp-again whole numbers bench fresh (asked (0 ∷ []) (1 ∷ []))
      ((0, set_as 10 synchronization) ∷ (1, set_as 20 interference) ∷ []) whole_refl configured
      at_rate same_checks

configure_usrp-IsStreaming_example :
    IsStreaming whole numbers bench
      (configure_usrp whole numbers bench settled (asked (1 ∷ []) (0 ∷ []))).0
unfolding sorted
configure_usrp-IsStreaming_example =
    configure_usrp-IsStreaming whole numbers bench settled (asked (1 ∷ []) (0 ∷ [])) refl

-- The two channels change their roles.
swapped :
    (configure_usrp whole numbers bench settled (asked (1 ∷ []) (0 ∷ []))).1
    ≡ ok ((1, set_as 20 synchronization) ∷ (0, set_as 10 interference) ∷ [])
unfolding configure_usrp validate check_channels validate_sampling_rate validate_channels
    validate_channel apply channels_changed retune finish set_rate refresh_signal tune_rate
    tune_channels tune_channel tune_freq tune_power tune_gain tune_antenna tune_bw renew_streamer
    sorted value_at set_at is_member text_eq
swapped = refl

configure_usrp-reordered_example :
    ((configure_usrp whole numbers bench settled (asked (1 ∷ []) (0 ∷ []))).0.tx_streamer
      ≡ settled.tx_streamer)
    × ((configure_usrp whole numbers bench settled (asked (1 ∷ []) (0 ∷ []))).0.channels
        ≢ 0 ∷ 1 ∷ [])
unfolding sorted
configure_usrp-reordered_example =
    configure_usrp-reordered whole numbers bench settled (asked (1 ∷ []) (0 ∷ []))
      ((1, set_as 20 synchronization) ∷ (0, set_as 10 interference) ∷ [])
      (record { max_num_samps = 64; stream_channels = 0 ∷ 1 ∷ [] }) refl refl refl (λ e. cc e)
      swapped

-- Its frequency cannot be set.
abbrev stuck : Radio whole
stuck = record bench { set_tx_freq = λ fc ch h. none }

abbrev running : Daemon whole numbers stuck
running = record {
  hardware = settled.hardware;
  store = settled.store;
  channels = settled.channels;
  current_fs = settled.current_fs;
  current_channels = settled.current_channels;
  channel_configs = settled.channel_configs;
  tx_streamer = settled.tx_streamer;
}

failed : (configure_usrp whole numbers stuck running (asked (0 ∷ []) [])).1 ≡ err radio_failed
unfolding configure_usrp validate check_channels validate_sampling_rate validate_channels
    validate_channel apply channels_changed retune finish set_rate refresh_signal tune_rate
    tune_channels tune_channel tune_freq tune_power tune_gain tune_antenna tune_bw renew_streamer
    sorted value_at set_at is_member text_eq
failed = refl

configure_usrp-error_example :
    ((configure_usrp whole numbers stuck running (asked (0 ∷ []) [])).0 ≡ running)
    ⊎ LosesStreamer whole numbers stuck radio_failed running
        (configure_usrp whole numbers stuck running (asked (0 ∷ []) [])).0
    ⊎ StopsHalfway whole numbers stuck radio_failed
        (asked (0 ∷ []) [])
        running
        (configure_usrp whole numbers stuck running (asked (0 ∷ []) [])).0
configure_usrp-error_example =
    configure_usrp-error whole numbers stuck running (asked (0 ∷ []) []) radio_failed tt tt failed
