-- ===== src/Rpc.antt =====
-- src/sensorium/runtime/rpc.py: one connection of RuntimeRpcServer, with what it shares with the other connections.
-- The calls of the selector for a registered socket succeed. Requests are values of JSON, whose texts are the
-- standard library's: `loads` and `dumps` are parameters.
pub mod Serve
pub mod Steps
pub mod Progress
pub mod Bounds
mod Tests
pub mod Lines
pub mod Fifo
use sensorium.Base.{
  ℕ, ◌+◌, ◌-◌, Bool, true, false, not, ◌&&◌, ◌||◌, List, [], ◌∷◌, ◌++◌, Option, none, some,
  if◌then◌else◌, leb, ltb, ◌==◌, Bytes, Text, codes, length, take, drop, bytes_eq,
}
use sensorium.Base.Result.{Result, ok, raise, value_error, attribute_error, ◌>>=◌}
use sensorium.Normalize.Values.{
  Value, null, other, bool, int, str, blob, arr, obj, Fields, get, or_else,
}

-- the texts that the server sends; the messages of errors are left out
pub data Response : Type 0 where
  busy_response : Response
  error_response : Value → Response
  result_response : Value → Value → Response
  event_response : Value → Option Value → Response

-- a socket, by what went over it in each direction
pub record Sock : Type 0 where
  pub received : Bytes
  pub sent : Bytes

-- `waiting_for_event`
pub record Waiter : Type 0 where
  pub request : Value
  pub backend_id : Value
  pub deadline : ℕ

-- `_ClientState`
pub record Client : Type 0 where
  pub sock : Sock
  pub inbuf : Bytes
  pub outbuf : Bytes
  pub pending_requests : List Value
  pub active_request : Bool
  pub waiting_for_event : Option Waiter
  pub closed : Bool

-- a connection: `jobs` are its requests that the executor has, `completions` its part of that queue, and
-- `worker_slots`, the counts and `active_clients` are the server's
pub record Conn : Type 0 where
  pub client : Client
  pub jobs : List Value
  pub completions : List Response
  pub worker_slots : ℕ
  pub busy_generation : ℕ
  pub busy_total : ℕ
  pub active_clients : ℕ

pub record Limits : Type 0 where
  pub max_clients : ℕ
  pub max_request_bytes : ℕ
  pub max_pending : ℕ

-- `request.get("id") if isinstance(request, dict) else None`
abbrev pub id_of : Value → Value
id_of (obj fs) = or_else null (get (codes "id") fs)
id_of _ = null

abbrev pub with_client : (Client → Client) → Conn → Conn
with_client f c = record c { client = f c.client }

abbrev pub set_inbuf : Bytes → Conn → Conn
set_inbuf bs c = with_client (λ x. record x { inbuf = bs }) c

-- `_close_client`
unfoldable pub close_client : Conn → Conn
close_client c = if c.client.closed then c else record c {
  client = record c.client { closed = true };
  active_clients = c.active_clients - 1;
}

-- what `_accept_client` registers
abbrev new_client : Client
new_client = record {
  sock = record { received = []; sent = [] };
  inbuf = [];
  outbuf = [];
  pending_requests = [];
  active_request = false;
  waiting_for_event = none;
  closed = false;
}

-- `_accept_client`, before which the record has the server's part only
unfoldable pub accept_client : Limits → Conn → Conn
accept_client l c =
    let refused = record c {
      busy_generation = c.busy_generation + 1;
      busy_total = c.busy_total + 1;
    } in
    let accepted : Conn = record c {
      client = new_client;
      jobs = [];
      completions = [];
      active_clients = c.active_clients + 1;
    } in
    if leb l.max_clients c.active_clients then refused else accepted

-- what `sock.send` did
pub data Sending : Type 0 where
  taken : ℕ → Sending
  would_block failed : Sending

-- white space of `bytes.strip`
abbrev pub is_blank : Bytes → Bool
is_blank [] = true
is_blank (b ∷ bs) = (leb 9 b && leb b 13 || b == 32) && is_blank bs

abbrev pub newline : ℕ
newline = 10

abbrev pub has_newline : Bytes → Bool
has_newline [] = false
has_newline (b ∷ bs) = b == newline || has_newline bs

abbrev pub is_waiting : Option Waiter → Bool
is_waiting none = false
is_waiting (some w) = true

-- the parameters of a request, or an AttributeError at `params.get`
abbrev pub params_of : Value → Result Fields
params_of (obj fs) = ok fs
params_of _ = raise attribute_error

abbrev pub request_params : Value → Result Fields
request_params (obj fs) = params_of (or_else (obj Fields.end) (get (codes "params") fs))
request_params _ = ok Fields.end

abbrev is_text : Text → Value → Bool
is_text t (str s) = bytes_eq s t
is_text t _ = false

-- the test for `backend.next_event`; the daemon gives the server its `next_event_fn`
abbrev pub is_next_event : Value → Bool
is_next_event (obj fs) =
    is_text (codes "backend.next_event") (or_else null (get (codes "method") fs))
is_next_event _ = false

-- the attributes of a waiting request
abbrev pub waiter : Value → Value → ℕ → Waiter
waiter q backend_id deadline = record { request = q; backend_id = backend_id; deadline = deadline }

abbrev pub seconds_of : Option ℕ → Result ℕ
seconds_of none = raise value_error
seconds_of (some n) = ok n
