-- ===== src/Lib.antt =====
-- usrp-playground: a service that sends complex baseband signals over a real radio channel.
--
-- A client opens a WebSocket to the gateway (entrypoint/main.py), which checks the upload and puts a
-- task into the queue, a database table. One worker (worker/worker.py) takes the tasks in order, reads
-- the files that the gateway wrote, and drives the radio (worker/channel.py) within the duty cycle.
-- Signals travel in the format of usrp_testbed_library/mimo_format.py. The devices and the channels
-- between them stand in an inventory, which the gateway writes (entrypoint/inventory.py), and from which
-- the worker and the daemons beside the radio take their ports (usrp_testbed_library/endpoints.py).
-- A TX daemon (usrp_testbed_library/tx_daemon.py) is sent requests by the worker: it configures its
-- radio, loads the signal that the worker wrote to a file, and sends it as a burst. An RX daemon
-- (usrp_testbed_library/rx_daemon.py) captures what arrives.
--
-- Which file models what:
--   Prelude       shared names, lists, results, Python texts, integers and dicts
--   Json          values of json.loads, and Python's int
--   Mimo          usrp_testbed_library/mimo_format.py. A blob is a list of bytes. float32 and
--                 complex64 are the parameter Numpy; what is assumed of it is IsExact
--   Gateway/Slots     entrypoint/main.py: ws_count and ws_per_ip, the head and the finally of ws_run
--   Gateway/Request   entrypoint/main.py: ws_run from the first frame to the task
--   Tasks         the table tasks: entrypoint/main.py adds and cancels (_cancel_pending_task),
--                 worker/worker.py claims, completes, recovers and cleans up, and the administrator
--                 (entrypoint/admin_router.py) deletes. What reads first and writes later is two steps
--   Worker/Retry  worker/worker.py: _with_rf_retry
--   Worker/Process    worker/worker.py: process_f32 up to the call into the radio
--   Channel/Duty  worker/channel.py: _check_duty_cycle and the loop that waits for it
--   Channel/Routing   worker/channel.py: _resolved_channels, and _configure by the devices, ports and
--                 device channels that it decides on
--   Channel/Burst     worker/channel.py: _listen_before_talk, and send_and_receive and receive_only
--                 after _configure. Answers of the daemons and what is found in files are lists that
--                 are read one after another
--   Inventory     entrypoint/inventory.py: write_inventory, and the file as it is read back
--   Endpoints     usrp_testbed_library/endpoints.py
--   Session       entrypoint/auth.py: issuing and checking the cookie of an administrator
--   Daemon/Signal, Daemon/Store    usrp_testbed_library/tx_daemon.py: _load_signal_file, load_signal and
--                 _assemble_tx_signal. HDF5 files are values; samples are the parameter Samples
--   Daemon/Transmit   tx_daemon.py: transmit_with_delay. The streamer is a function that gives, for each
--                 call of send, how many samples it takes
--   Daemon/Radio, Daemon/Asked, Daemon/Tuning, Daemon/Configure    tx_daemon.py: configure_usrp, with the
--                 validate_ functions of usrp_testbed_library/usrp_common.py. The radio is the parameter
--                 Radio, floats and np.isclose are Floats
--   Daemon/Receive    usrp_testbed_library/rx_daemon.py: receive_with_delay. The calls of recv and the
--                 looks at the clock are functions of their number
--   Daemon/Reference  usrp_common.py: change_time_and_clock_source, over the parameter Board
--   Daemon/Mismatch   usrp_common.py: check_settings_mismatch
--   Daemon/Values, Daemon/Fields, Daemon/Server   tx_daemon.py: handle_request, with positive_float, int_list and
--                 validate_gain_dict of usrp_common.py. JSON values are the parameter Values
--   Settings      entrypoint/settings_store.py: the .env file, as the list of its lines
--   Settings/Store    settings_store.py: the file behind its cache, with the environment behind both
--   Examples      concrete inputs
--
-- State is passed explicitly; exceptions are results. Where coroutines or services interleave, a step
-- relation lists what may happen between two commits or awaits.
--
-- Bounds and fuel: Duty.wait_turn takes one unit of fuel for each round of its loop; one round for
-- each second up to the end of the window is enough. Transmit.send_chunks takes as many rounds as
-- there are samples, since each round sends one at least or is the last. Reference.wait_for_lock takes
-- a round for each unit of the timeout, where every round takes a unit. All other loops are structural.
--
-- The parameter Session.Codec stands for HMAC, base64 and UTF-8, and IsCodec for what is assumed of it.
-- The parameter Inventory.Python stands for Python's printing and reading of floats, and its printing
-- of lists and dicts. Settings.Store.Python stands for what int and float take.
--
-- Simplifications: times and durations are whole numbers of a small unit, and the budget of the
-- duty cycle is rounded down to it. Limits in the settings are not negative. str.lower is that of
-- ASCII, which decides the comparisons with the fixed ASCII words alike. Database transactions commit
-- one after another; between a read and a commit of one service the others may commit.
--
-- The TX daemon handles one request at a time, so that the lock of _op_guard is always free. Its clock
-- and its delays are in ticks. The sources of the clock and the time are kept beside the other settings
-- of the radio. A setter of UHD may raise, and has then set nothing; its getters in
-- configure_usrp return, but for those of the power reference and the bandwidth.
--
-- The settings are read and written by one process; its clock is in milliseconds. Their file is the
-- list of lines last written: a line end that was added to the last line stays an entry of its own,
-- which sets nothing.
--
-- Not modelled: the rest of the administration API, the client, the requests to the RX daemon and the commands by which
-- the worker configures the daemons, device discovery and the table of the settings; the telemetry of the TX
-- daemon and the opening of its radio; and what only talks to hardware, mail or the operating system.
pub mod Prelude
pub mod Json
pub mod Mimo
pub mod Tasks
pub mod Gateway
pub mod Worker
pub mod Channel
pub mod Inventory
pub mod Endpoints
pub mod Daemon
pub mod Session
pub mod Settings
pub mod Examples
