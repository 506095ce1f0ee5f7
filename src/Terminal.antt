-- ===== src/Terminal.antt =====
-- The component `TerminalWindow`: a ticket is asked for, a socket opened with it, and the terminal
-- tied to the socket, until the window is closed.
pub mod Life
pub mod Greeting
use p2ser.Base.{◌≡◌, ◌⊎◌, ◌≢◌, Bool, true, false, List, [], ◌∷◌, ◌++◌, Option, none, some}
use p2ser.Text.{Text, codes}

-- `WebSocket.readyState`
pub data Ready : Type 0 where
  connecting : Ready
  opened : Ready
  closing : Ready
  closed : Ready

-- `term.write` and `term.writeln`
pub data Output : Type 0 where
  written : Text → Output
  line_written : Text → Output

-- What the window holds, what it has written to the terminal and sent to the pod, and whether the
-- request for the ticket is on its way.
pub record Terminal : Type 0 where
  pub mounted : Bool
  pub waiting : Bool
  pub socket : Option Ready
  pub address : Text
  pub screen : List Output
  pub sent : List Text

-- A response that is not `ok`, and what else ends in the `catch`: a request that fails, a body that
-- is no JSON, an address that the engine rejects.
pub data Event : Type 0 where
  ticket_granted : Text → Event
  ticket_refused : Event
  ticket_failed : Text → Event
  socket_opened : Event
  message_received : Text → Event
  socket_closed : Event
  typed : Text → Event
  window_closed : Event

-- `socket.close()`
unfoldable pub close_socket : Option Ready → Option Ready
close_socket none = none
close_socket (some closed) = some closed
close_socket (some _) = some closing

-- `socket.current.send(data)`, if its state is `OPEN`
unfoldable pub send_typed : List Text → Option Ready → Text → List Text
send_typed sent (some opened) data_typed = sent ++ data_typed ∷ []
send_typed sent _ data_typed = sent

-- `message` of the error for a response that is not `ok`.
abbrev pub refused_ticket : Text
refused_ticket = codes "Ticket request failed"

abbrev pub first_state : Terminal
first_state = record {
  mounted = true;
  waiting = true;
  socket = none;
  address = [];
  screen = [];
  sent = [];
}

abbrev pub color : Text → Text → Text
color code line = 0x1b ∷ code ++ line ++ 0x1b ∷ codes "[0m"

abbrev pub line_break : Text
line_break = b'\r' ∷ b'\n' ∷ []

unfoldable pub connected_line : Text → Text
connected_line pod_name =
    color (codes "[32m") (codes "*** Connected to " ++ pod_name ++ codes " ***")

abbrev pub closed_line : Text
closed_line = line_break ++ color (codes "[31m") (codes "*** Connection closed ***")

unfoldable pub failed_line : Text → Text
failed_line why =
    line_break ++ color (codes "[31m") (codes "*** Failed to connect: " ++ why ++ codes " ***")

module _ (ws_base pod_id pod_name : Text) where
  unfoldable pub exec_address : Text → Text
  exec_address ticket = ws_base ++ codes "/pod/exec?id=" ++ pod_id ++ codes "&ticket=" ++ ticket

  unfoldable pub step : Terminal → Event → Terminal
  unfolding close_socket send_typed exec_address connected_line failed_line
  step t (ticket_granted ticket) = record t {
    waiting = false;
    socket = some connecting;
    address = exec_address ticket;
  }
  step t ticket_refused = record t {
    waiting = false;
    screen = t.screen ++ line_written (failed_line refused_ticket) ∷ [];
  }
  step t (ticket_failed why) = record t {
    waiting = false;
    screen = t.screen ++ line_written (failed_line why) ∷ [];
  }
  step t socket_opened = record t {
    socket = some opened;
    screen = t.screen ++ line_written (connected_line pod_name) ∷ [];
  }
  step t (message_received text) = record t { screen = t.screen ++ written text ∷ [] }
  step t socket_closed = record t {
    socket = some closed;
    screen = t.screen ++ line_written closed_line ∷ [];
  }
  step t (typed text) = record t { sent = send_typed t.sent t.socket text }
  step t window_closed = record t { mounted = false; socket = close_socket t.socket }

  -- When the browser lets an event come.
  unfoldable pub Possible : Terminal → Event → Type 0
  Possible t (ticket_granted ticket) = t.waiting ≡ true
  Possible t ticket_refused = t.waiting ≡ true
  Possible t (ticket_failed why) = t.waiting ≡ true
  Possible t socket_opened = t.socket ≡ some connecting
  Possible t (message_received text) = (t.socket ≡ some opened) ⊎ (t.socket ≡ some closing)
  Possible t socket_closed = (t.socket ≢ none) × (t.socket ≢ some closed)
  Possible t (typed text) = t.mounted ≡ true
  Possible t window_closed = t.mounted ≡ true

  -- The states that a window can come to from a state of it.
  pub data Run : Terminal → Terminal → Type 0 where
    done : {t : Terminal} → Run t t
    next : {s t : Terminal} (e : Event) → Possible s e → Run (step s e) t → Run s t
