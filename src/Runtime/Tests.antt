-- ===== src/Runtime/Tests.antt =====
-- The daemon at concrete inputs: an I2C register bank with handle 1024, and an I2C device of an external
-- controller with handle 1025.
mod Lifecycle
mod Startup
use sensorium.Base.{
  le, insert, from_be, ◌≡◌, refl, arith, true, false, [], ◌∷◌, ◌++◌, none, some, codes, pos, neg,
  lookup, ◌==◌, ◌⊎◌,
}
use sensorium.Base.Result.{ok}
use sensorium.Trace
use sensorium.Trace.Bounds
use sensorium.Template.I2c
use sensorium.Device.{
  apply_fault_pre, Device, i2c, no_fault, fresh_stats, template_backend, controller_backend,
  i2c_register_bank, bank, i2c_settings, Worker, epipe, etimedout,
}
use sensorium.Device.Counts.{fresh-IsCounted}
use sensorium.Runtime.{Runtime, ready, desynced, BridgeStats, Port, Event, i2c_xfer}
use sensorium.Runtime.Dispatch.{
  Meanwhile, poll, reply_to, reset, dispatch_external, dispatch_controller, await_reply, run_calls,
  run_call, register, enqueue_event,
}
use sensorium.Runtime.Dispatch.Answers.{Counted, last_reply, requested, dispatch_external_lem}
use sensorium.Runtime.Dispatch.Leak.{dispatch_without_worker}
use sensorium.Runtime.Backends.{
  queue_of, reply_event, complete_pending, late_reply, poll_next_event,
}
use sensorium.Runtime.Apply.{reset_runtime}
use sensorium.Runtime.Backends.Queues.{push, take_next, run_queue, run_queue_lem}
use sensorium.Runtime.Serve.{event_of}
use sensorium.Runtime.Routes.{request_started, handle_bridge_request, Task, worker_step, goes_on}
use sensorium.Runtime.Valid.{IsValid}
use sensorium.Runtime.Valid.Worker.{handle_bridge_request-IsValid}
use sensorium.Runtime.Replies.{
  handled, sent, reply_of, full_ring, worker_step_replies, worker_step_delivers,
}

abbrev bank_spec : I2c.Backend
bank_spec = record {
  size = 4;
  pointer_width = 1;
  auto_increment = true;
  registers = (1, 7) ∷ (2, 8) ∷ [];
  clear_on_read = [];
  write_effects = [];
}

abbrev pub sensor : Device
sensor = record {
  id = codes "a";
  bus = codes "b";
  transport = i2c;
  address = some 0x50;
  chip_select = none;
  device_name = none;
  port_name = none;
  backend = template_backend (i2c_register_bank bank_spec);
  faults = no_fault;
  settings = i2c_settings;
  handle = 1024;
  bus_handle = 1;
  kernel_name = codes "a";
  state = some (
      bank (record {
        size = 4;
        pointer_width = 1;
        auto_increment = true;
        registers = 0 ∷ 7 ∷ 8 ∷ 0 ∷ [];
        pointer = 0;
        clear_on_read = [];
        write_effects = [];
      }));
  attached_backend = none;
  degraded = false;
  stats = fresh_stats;
}

abbrev remote : Device
remote = record sensor {
  id = codes "r";
  address = some 0x51;
  backend = controller_backend none;
  state = none;
  handle = 1025;
  attached_backend = some (codes "x");
}

abbrev no_bridge_stats : BridgeStats
no_bridge_stats = record {
  session_id = none;
  queue_depth = 0;
  queue_depth_max = 0;
  inflight = 0;
  inflight_max = 0;
  bridge_errors = 0;
  busy_rejections_generation = 0;
  busy_rejections_total = 0;
  late_replies = 0;
  completed = 0;
  control_depth = pos 0;
  transport_depth = pos 0;
  reply_depth = pos 0;
  ebusy_generation = 0;
  ebusy_total = 0;
  request_timeout_generation = 0;
  request_timeout_total = 0;
  worker_restarts = 0;
}

abbrev port : Port
port = record {
  sent = [];
  outcomes = full_ring ∷ ok tt ∷ [];
  metrics = none;
  file_writes = [];
  launches = [];
  record_size = λ _. 10;
}

abbrev pub daemon : Runtime
daemon = record {
  runtime_state = ready;
  generation = 1;
  model_name = some (codes "m");
  next_bus_handle = 2;
  next_device_handle = 1026;
  buses = [];
  devices = (codes "a", sensor) ∷ (codes "r", remote) ∷ [];
  devices_by_handle = (1024, codes "a") ∷ (1025, codes "r") ∷ [];
  managed_workers = [];
  backend_queues = [];
  pending_controller = [];
  released = [];
  trace = [];
  trace_limit = 2;
  trace_writer = Trace.init 1024 3 1024 [];
  stats_totals = fresh_stats;
  bridge_stats = no_bridge_stats;
  persistence = record {
    snapshot_write_errors = 0;
    snapshot_failed = false;
    snapshot_saved = false;
    snapshot_loaded = false;
  };
  snapshot_path = false;
  port = port;
}

daemon-IsValid : IsValid daemon
daemon-IsValid = record {
  sound = record {
    totals_counted = fresh-IsCounted;
    devices_counted = (fresh-IsCounted, (fresh-IsCounted, tt));
    trace_within = omega arith;
    writer_valid = Bounds.init-IsValid 1024 3 1024 [];
  };
}

-- pointer 1, then a read of two bytes
abbrev read_two : Task
read_two = record {
  msg_type = 101;
  message_id = 5;
  generation = 1;
  payload =
      0 ∷ 4 ∷ 0 ∷ 0 ∷ 1 ∷ 0 ∷ 0 ∷ 0 ∷ 2 ∷ 0 ∷ 0 ∷ 0 ∷ 1 ∷ 0 ∷ 0 ∷ 0 ∷ 0x50 ∷ 0 ∷ 0 ∷ 0 ∷ 1 ∷ 0 ∷ 0
      ∷ 0 ∷ 0x50 ∷ 0 ∷ 1 ∷ 0 ∷ 2 ∷ 0 ∷ 0 ∷ 0 ∷ 1 ∷ [];
}

abbrev alone : Meanwhile
alone = record { during = []; event_sent = true }

read_runs : (handle_bridge_request alone 101 5 read_two.payload daemon).0 ≡ ok (pos 0, 7 ∷ 8 ∷ [])
unfolding handle_bridge_request le lookup apply_fault_pre insert I2c.read_window from_be
read_runs = refl

unknown_runs : (handle_bridge_request alone 7 5 [] daemon).0 ≡ ok (neg 22, [])
unfolding handle_bridge_request
unknown_runs = refl

handle_bridge_request-IsValid_example :
    IsValid (handle_bridge_request alone 101 5 read_two.payload daemon).1
handle_bridge_request-IsValid_example =
    handle_bridge_request-IsValid alone 101 5 read_two.payload daemon daemon-IsValid

step_goes_on : (worker_step alone false 3 read_two daemon).0 ≡ goes_on
unfolding worker_step le lookup apply_fault_pre insert I2c.read_window
step_goes_on = refl

worker_step_replies_example :
    ((worker_step alone false 3 read_two daemon).1.runtime_state ≡ desynced)
    ⊎ (sent (worker_step alone false 3 read_two daemon).1
        ≡ sent (handled alone read_two daemon).1 ++ reply_of alone read_two daemon ∷ [])
worker_step_replies_example = worker_step_replies alone false 3 read_two daemon step_goes_on

worker_step_delivers_example :
    ((worker_step alone false 3 read_two daemon).0 ≡ goes_on)
    × (sent (worker_step alone false 3 read_two daemon).1
        ≡ sent (handled alone read_two daemon).1 ++ reply_of alone read_two daemon ∷ [])
unfolding handle_bridge_request le lookup request_started apply_fault_pre insert I2c.read_window
worker_step_delivers_example =
    worker_step_delivers alone 3 1 read_two daemon [] refl refl (omega arith)

abbrev event : Event
event = event_of remote 9 (i2c_xfer [])

run_queue_lem_example :
    let (polled, rt') = run_queue (codes "x") (push event ∷ take_next ∷ take_next ∷ []) daemon in
    polled ++ queue_of (codes "x") rt' ≡ event ∷ []
unfolding lookup
run_queue_lem_example = run_queue_lem (codes "x") (push event ∷ take_next ∷ take_next ∷ []) daemon

abbrev answered : Meanwhile
answered = record {
  during =
      poll (codes "x")
      ∷ reply_to 8 (pos 0) []
      ∷ reply_to 9 (pos 0) (1 ∷ [])
      ∷ reply_to 9 (neg 5) []
      ∷ reset
      ∷ reply_to 9 (pos 0) (2 ∷ [])
      ∷ [];
  event_sent = true;
}

-- the bridge takes every frame
abbrev quiet : Runtime
quiet = record daemon { port = record port { outcomes = [] } }

dispatch_external_lem_example :
    (calls : Counted 9 answered.during (requested (codes "x") event quiet)) × ((dispatch_external
        answered
        (some (codes "x"))
        event
        quiet).0
      ≡ last_reply 9 calls.counted (neg etimedout, []))
dispatch_external_lem_example = dispatch_external_lem answered b'x' [] event quiet tt

-- the reply behind the reset is refused
reply_before_reset : (dispatch_external answered (some (codes "x")) event quiet).0 ≡ (neg 5, [])
unfolding dispatch_external await_reply run_calls run_call reply_event complete_pending late_reply
    register enqueue_event lookup insert poll_next_event reset_runtime
reply_before_reset = refl

abbrev pub worker : Worker
worker = record { command = codes "w" ∷ []; restart_limit = 3; restart_backoff_ms = 250 }

abbrev pub managed : Device
managed = record remote { backend = controller_backend (some worker) }

dispatch_without_worker_example :
    let (answer, rt') = dispatch_controller alone managed event daemon in
    (answer ≡ (neg epipe, []))
    × (lookup ◌==◌ 9 rt'.pending_controller
        ≡ some (record { event = event; done = false; status = neg etimedout; reply = [] }))
unfolding lookup
dispatch_without_worker_example =
    dispatch_without_worker alone managed worker event daemon refl refl
