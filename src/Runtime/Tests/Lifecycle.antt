-- ===== src/Runtime/Tests/Lifecycle.antt =====
-- src/sensorium/runtime/inventory.py and managed_workers.py at concrete inputs: a model with one bus and one
-- register bank is applied, and a worker process exits.
use sensorium.Base.{
  ◌+◌, ◌≤◌, ◌≡◌, refl, false, [], ◌∷◌, none, some, codes, lookup, insert, bytes_eq,
}
use sensorium.Base.Result.{ok}
use sensorium.Bridge.Protocol.{encode_c_string}
use sensorium.Device.{Worker, i2c, no_fault}
use sensorium.Runtime.{Runtime, ready, WorkerState}
use sensorium.Runtime.Requests.{device_of}
use sensorium.Runtime.Inventory.{Model, DeviceSpec}
use sensorium.Runtime.Apply.{apply_model}
use sensorium.Runtime.Apply.Outcome.{IsSettled, apply_model_settles}
use sensorium.Runtime.Workers.{
  Stopping, relaunched, started, config_of, worker_failed, worker_exited,
}
use sensorium.Runtime.Workers.Budget.{worker_exited_lem}
use sensorium.Runtime.Tests.{sensor, daemon, worker, managed}

abbrev sensor_spec : DeviceSpec
sensor_spec = record {
  id = sensor.id;
  bus = sensor.bus;
  transport = i2c;
  address = sensor.address;
  chip_select = none;
  device_name = none;
  port_name = none;
  backend = sensor.backend;
  faults = no_fault;
  settings = sensor.settings;
}

abbrev one_bank : Model
one_bank = record {
  name = codes "m";
  buses = record { id = codes "b"; transport = i2c; name = codes "n" } ∷ [];
  devices = sensor_spec ∷ [];
}

abbrev pub willing : Runtime
willing = record daemon { port = record (daemon.port) { outcomes = [] } }

applies :
    ((apply_model one_bank willing).0 ≡ ok tt)
    × ((apply_model one_bank willing).1.runtime_state ≡ ready)
unfolding apply_model lookup insert encode_c_string
applies = (refl, refl)

apply_model_settles_example : IsSettled one_bank willing (apply_model one_bank willing)
apply_model_settles_example = apply_model_settles one_bank willing

abbrev pub with_bus : Runtime
with_bus = record willing {
  buses =
      (codes "b", record { id = codes "b"; transport = i2c; name = codes "n"; handle = 1 }) ∷ [];
  next_device_handle = 1026;
}

abbrev second_try : WorkerState
second_try = started worker 1

abbrev with_worker : Runtime
with_worker = record daemon {
  managed_workers = (codes "r", second_try) ∷ [];
  devices = (codes "r", managed) ∷ [];
}

abbrev stays : Stopping
stays = record { at_exit = false; after_failure = false; after_backoff = false }

abbrev waits : Runtime → Runtime
waits rt = rt

runs_again : (worker_exited (codes "r") stays waits with_worker).0 ≡ relaunched
unfolding worker_exited lookup insert
runs_again = refl

worker_exited_lem_example :
    (1 + 1 ≤ 3)
    × ((w : Worker) × (config_of
            (device_of (codes "r") (waits (worker_failed (codes "r") with_worker)))
          ≡ some w)
        × (lookup bytes_eq
              (codes "r")
              (worker_exited (codes "r") stays waits with_worker).1.managed_workers
            ≡ some (started w (1 + 1))))
unfolding lookup
worker_exited_lem_example =
    worker_exited_lem (codes "r") stays waits with_worker second_try refl runs_again
