-- ===== src/Tests/Terminal.antt =====
-- The terminal window.
use p2ser.Base.{◌∷◌, [], arith, ◌≡◌, refl}
use p2ser.Terminal.Life.{IsShut, Run-window_closed}
use p2ser.Terminal.{
  typed, send_typed, Terminal, Run, next, done, first_state, step, Possible, ticket_granted,
  socket_opened, window_closed,
}
use p2ser.Text.{Text, codes}

abbrev base : Text
base = codes "ws://edge:8002"

abbrev with_ticket : Terminal
unfolding step
with_ticket = step base (codes "1") (codes "web") first_state (ticket_granted (codes "k"))

abbrev connected : Terminal
unfolding step
connected = step base (codes "1") (codes "web") with_ticket socket_opened

to_connected : Run base (codes "1") (codes "web") first_state connected
unfolding step Possible
to_connected = next (ticket_granted (codes "k")) refl (next socket_opened refl done)

Run-window_closed_example :
    IsShut (step base (codes "1") (codes "web") connected window_closed).socket
    × ((step base (codes "1") (codes "web") connected window_closed).sent ≡ connected.sent)
unfolding step
Run-window_closed_example =
    Run-window_closed base (codes "1") (codes "web") to_connected (ground arith) done

abbrev late : Terminal
unfolding step
late =
    step base (codes "1") (codes "web")
      (step base (codes "1") (codes "web") first_state window_closed) (ticket_granted (codes "k"))

late_connected :
    Run base (codes "1") (codes "web") late (step base (codes "1") (codes "web") late socket_opened)
unfolding step Possible
late_connected = next socket_opened refl done

abbrev typing : Terminal
unfolding step
typing = step base (codes "1") (codes "web") connected (typed (codes "ls"))

to_typing : Run base (codes "1") (codes "web") first_state typing
unfolding step Possible
to_typing =
    next (ticket_granted (codes "k")) refl
      (next socket_opened refl (next (typed (codes "ls")) refl done))

typing_sends : typing.sent ≡ codes "ls" ∷ []
unfolding step send_typed
typing_sends = refl
