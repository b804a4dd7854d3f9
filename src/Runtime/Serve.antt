-- ===== src/Runtime/Serve.antt =====
-- What the request handlers of src/sensorium/runtime/i2c.py, spi.py and uart.py do alike: the faults before
-- the device is asked, and the end of the request.
use sensorium.Base.{◌≡◌, refl, ◌⊎◌, inl, inr, ℕ, none, some, Bytes, ℤ}
use sensorium.Device.{Device, Transport, Template}
use sensorium.Runtime.{Runtime, Event, Request, Action}
use sensorium.Runtime.Requests.{device_of, modify_device, fault_before, finalize_request}
use sensorium.Runtime.Dispatch.{Meanwhile, dispatch_controller}

-- what a payload is read to, or the status that it is refused with
pub data Decoded (A : Type 0) : Type 0 where
  refused : ℤ → Decoded A
  decoded : A → Decoded A

-- the device's object as it stands
abbrev pub current : Device → Runtime → Device
current d rt = elim (device_of d.id rt) [ none ↦ d | some d' ↦ d' ]

unfoldable pub finish : Transport → Device → ℕ → ℤ × Bytes → Action (ℤ × Bytes)
unfolding finalize_request
finish kind d bytes_in (status, reply) rt =
    finalize_request (current d rt) kind bytes_in status reply rt

-- a handler behind `_apply_fault_pre`
unfoldable pub unless_fault : Transport → Device → ℕ → Action (ℤ × Bytes) → Action (ℤ × Bytes)
unfolding fault_before finish
unless_fault kind d bytes_in rest rt =
    let (reply, rt') = fault_before d rt in
    elim reply [ some answer ↦ finish kind d bytes_in answer rt' | none ↦ rest rt' ]

-- a handler of the template, and the template that it leaves
unfoldable pub serve_template : Transport → Device → ℕ → Template → ℤ × Bytes → Action (ℤ × Bytes)
unfolding modify_device finish
serve_template kind d bytes_in left answer rt =
    finish kind d bytes_in answer (modify_device d.id (λ d'. record d' { state = some left }) rt)

-- a handler behind a controller
unfoldable pub serve_controller : Transport → Meanwhile → Device → ℕ → Event → Action (ℤ × Bytes)
unfolding dispatch_controller finish
serve_controller kind m d bytes_in event rt =
    let (answer, rt') = dispatch_controller m d event rt in finish kind d bytes_in answer rt'

abbrev pub event_of : Device → ℕ → Request → Event
event_of d request_id request = record {
  request_id = request_id;
  device_id = d.id;
  bus_id = d.bus;
  backend_id = d.attached_backend;
  request = request;
  faults = d.faults;
  settings = d.settings;
}

pub Decoded-cases :
    {A : Type 0} (r : Decoded A)
    → ((status : ℤ) × (r ≡ refused status)) ⊎ ((a : A) × (r ≡ decoded a))
Decoded-cases (refused status) = inl (status, refl)
Decoded-cases (decoded a) = inr (a, refl)
