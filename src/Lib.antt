-- ===== src/Lib.antt =====
-- sensorium: the runtime daemon behind emulated I2C, SPI and UART devices.
--
-- A kernel module takes the transfers of programs on emulated buses and passes them, over shared
-- memory, to the daemon `sensoriumd`, which answers them from a built-in template, from an external
-- controller over RPC, or from a worker process that it manages. The code is under src/sensorium/.
--
-- Template (runtime/templates.py): the built-in devices. I2c is the register bank, Spi the script and
--   flash chip, Uart the line script. Their attributes are a record, their handlers functions from the
--   record and the request to the record and the reply.
-- Trace (runtime/persistence.py): the bounded queue of trace records. One function for each critical
--   section; Run is the step relation of the threads.
-- WorkerProtocol (runtime/worker_protocol.py): length-prefixed messages over a socket, which is a list
--   of chunks. JSON is a parameter.
-- Bridge (runtime/bridge_protocol.py): the shared memory (Shared), its words and descriptors (Layout),
--   names and payload sizes (Protocol), negotiation, the submission of commands and replies, and the draining of requests.
-- Device (runtime/state.py, internal.py, inventory.py): a device as the daemon keeps it, its counters
--   (`count`) and its faults (`apply_fault_pre`, `apply_fault_post`).
-- Runtime (cli/sensoriumd.py and the mixins of runtime/): the daemon's state as one record. Outside has the
--   calls of the bridge and of the snapshot file, whose outcomes are part of the record `Port`; Requests
--   what is written down about a request; Backends what controllers call; Dispatch the wait for them;
--   I2cRequest, SpiRequest and UartRequest the handlers, over Serve; Routes the worker loop; Inventory
--   buses, devices and their handles; Workers the worker processes; Apply a new model, with its
--   roll-back, and the reset (Tables and Attached follow the dictionaries of buses and devices through it, Kept
--   what else it leaves); Resync builds the kernel's inventory again, and Startup restores the
--   snapshot. An operation takes the state and gives the result, or the exception, with the new
--   state. Where the code waits, what other threads do meanwhile is the argument `Meanwhile`.
-- Normalize (runtime/model.py, model_base.py, model_normalize.py): from a value that YAML or JSON gave to a
--   model of buses and devices. Values has the values, Words what is used of Python's texts and number
--   formats, Expect the checks of one value, Parts and Items what a device consists of. Hex texts
--   of the result stand as bytes, and keys such as `0x10` as numbers. Export is state.py's
--   `_export_model_locked`, from a model to a value again; the metadata of devices are kept by it, and those
--   of buses lost. Spec hands a model to Runtime.Inventory, which has no metadata.
-- Rpc (runtime/rpc.py): one connection of the RPC server. Serve has what the loop does for it, over a
--   record of the connection and of what it shares with others; Steps is the step relation of the
--   loop, the executor and the other connections; Lines has the lines of the bytes that it received.
--   Bounds and Fifo are about its runs.
-- Base: the helpers that the parts share: lists and dictionaries of Python, bytes, and results.
--
-- Python's integers are natural numbers here, or the type ℤ where they can be negative; a 32-bit word
-- of shared memory is written modulo 2 ^ 32. Exceptions are values of `Result`. Times and log texts
-- are left out. `drain_transport_ring` has fuel, one for each request between head and tail;
-- `drain_lines` has the length of its buffer, since each round takes a newline from it. The retries of
-- `write_reply` are the attempts that fit before the deadline.
--
-- Not modelled: device.update, heartbeats and the calls that only send a frame, while a request waits; an ioctl that fails behind a
-- submission, as the daemon sees it (Bridge has it, and Runtime takes a frame that raises as not sent);
-- operating-system calls (their outcome is an argument), JSON and YAML texts, the
-- dispatch of RPC methods and the RPC client, the health summary, argument parsing, the C code of the
-- kernel module, scripts and benchmarks. Digits and white space of texts are those of ASCII and of
-- Python's `str.isspace`.
pub mod Base
pub mod Template
pub mod Trace
pub mod WorkerProtocol
pub mod Bridge
pub mod Device
pub mod Runtime
pub mod Normalize
pub mod Rpc
