-- ===== src/Terminal/Life.antt =====
-- What becomes of the socket of a terminal window when the window is closed.
use p2ser.Base.{◌≡◌, refl, ◌≢◌, ◌∙◌, ◌⊎◌, inl, inr, arith, true, false, List, Option, none, some}
use p2ser.Text.{Text}
use p2ser.Terminal.{
  Ready, connecting, opened, closing, closed, Terminal, first_state, Event, ticket_granted,
  ticket_failed, ticket_refused, socket_opened, message_received, socket_closed, typed,
  window_closed, step, Possible, Run, done, next, close_socket, send_typed,
}

-- The page has closed the socket, or the server has.
abbrev pub IsShut : Option Ready → Type 0
IsShut o = (o ≡ some closing) ⊎ (o ≡ some closed)

-- A ticket that is on its way has opened no socket yet.
abbrev IsSound : Terminal → Type 0
IsSound t = (t.waiting ≡ false) ⊎ (t.socket ≡ none)

close_socket-IsShut : (o : Option Ready) → o ≢ none → IsShut (close_socket o)
unfolding close_socket
close_socket-IsShut none h = absurd (h refl)
close_socket-IsShut (some connecting) h = inl refl
close_socket-IsShut (some opened) h = inl refl
close_socket-IsShut (some closing) h = inl refl
close_socket-IsShut (some closed) h = inr refl

send_typed_shut :
    (sent : List Text) (o : Option Ready) (text : Text) → IsShut o → send_typed sent o text ≡ sent
unfolding send_typed
send_typed_shut sent o text (inl e) = rw e
send_typed_shut sent o text (inr e) = rw e

module _ (ws_base pod_id pod_name : Text) where
  step-IsSound :
      (t : Terminal) (e : Event)
      → Possible ws_base pod_id pod_name t e
      → IsSound t
      → IsSound (step ws_base pod_id pod_name t e)
  unfolding step close_socket Possible
  step-IsSound t (ticket_granted k) p h = inl refl
  step-IsSound t ticket_refused p h = inl refl
  step-IsSound t (ticket_failed why) p h = inl refl
  step-IsSound t (message_received text) p h = h
  step-IsSound t (typed text) p h = h
  step-IsSound t socket_opened p (inl e) = inl e
  step-IsSound t socket_opened p (inr e) = absurd (ground arith)
  step-IsSound t socket_closed p (inl e) = inl e
  step-IsSound t socket_closed p (inr e) = absurd (p.0 e)
  step-IsSound t window_closed p (inl e) = inl e
  step-IsSound t window_closed p (inr e) = inr (rw e)

  abbrev Closed : Terminal → Type 0
  Closed t = (t.waiting ≡ false) × IsShut t.socket

  step-Closed :
      (t : Terminal) (e : Event)
      → Possible ws_base pod_id pod_name t e
      → Closed t
      → Closed (step ws_base pod_id pod_name t e)
        × ((step ws_base pod_id pod_name t e).sent ≡ t.sent)
  unfolding step close_socket Possible
  step-Closed t (ticket_granted k) p (w, h) = absurd (ground arith)
  step-Closed t ticket_refused p (w, h) = absurd (ground arith)
  step-Closed t (ticket_failed why) p (w, h) = absurd (ground arith)
  step-Closed t (message_received text) p h = (h, refl)
  step-Closed t (typed text) p (w, h) = ((w, h), send_typed_shut t.sent t.socket text h)
  step-Closed t socket_opened p (w, inl e) = absurd (ground arith)
  step-Closed t socket_opened p (w, inr e) = absurd (ground arith)
  step-Closed t socket_closed p (w, h) = ((w, inr refl), refl)
  step-Closed t window_closed p (w, inl e) = ((w, inl (rw e)), refl)
  step-Closed t window_closed p (w, inr e) = ((w, inr (rw e)), refl)

  Run-Closed :
      {s t : Terminal}
      → Run ws_base pod_id pod_name s t
      → Closed s
      → IsShut t.socket × (t.sent ≡ s.sent)
  Run-Closed done h = (h.1, refl)
  Run-Closed (next {s} e p r) h =
      let (c, same) = step-Closed s e p h in
      let (shut, sent) = Run-Closed r c in (shut, sent ∙ same)

  Run-IsSound : {s t : Terminal} → Run ws_base pod_id pod_name s t → IsSound s → IsSound t
  Run-IsSound done h = h
  Run-IsSound (next {s} e p r) h = Run-IsSound r (step-IsSound s e p h)

  -- When a window that has opened its socket is closed, the socket is closed too, stays closed
  -- whatever comes after it, and nothing more is sent to the pod.
  pub Run-window_closed :
      {s t : Terminal}
      → Run ws_base pod_id pod_name first_state s
      → s.socket ≢ none
      → Run ws_base pod_id pod_name (step ws_base pod_id pod_name s window_closed) t
      → IsShut t.socket × (t.sent ≡ s.sent)
  unfolding step
  Run-window_closed {s} before h after = Run-Closed after (
    elim (Run-IsSound before (inr refl)) [ inl w ↦ w | inr e ↦ absurd (h e) ],
    close_socket-IsShut s.socket h,
  )

  -- No window, and a socket that nobody has closed from the page.
  abbrev Leaked : Terminal → Type 0
  Leaked t =
      (t.mounted ≡ false) × (t.waiting ≡ false) × (t.socket ≢ none) × (t.socket ≢ some closing)

  step-Leaked :
      (t : Terminal) (e : Event)
      → Possible ws_base pod_id pod_name t e
      → Leaked t
      → Leaked (step ws_base pod_id pod_name t e)
  unfolding step Possible
  step-Leaked t (ticket_granted k) p (m, w, h1, h2) = absurd (ground arith)
  step-Leaked t ticket_refused p (m, w, h1, h2) = absurd (ground arith)
  step-Leaked t (ticket_failed why) p (m, w, h1, h2) = absurd (ground arith)
  step-Leaked t (message_received text) p h = h
  step-Leaked t (typed text) p (m, _, _, _) = absurd (ground arith)
  step-Leaked t socket_opened p (m, w, h1, h2) = (m, w, ground arith, ground arith)
  step-Leaked t socket_closed p (m, w, h1, h2) = (m, w, ground arith, ground arith)
  step-Leaked t window_closed p (m, _, _, _) = absurd (ground arith)

  Run-Leaked : {s t : Terminal} → Run ws_base pod_id pod_name s t → Leaked s → Leaked t
  Run-Leaked done h = h
  Run-Leaked (next {s} e p r) h = Run-Leaked r (step-Leaked s e p h)

  -- When a window is closed while its ticket is on its way, the socket that the ticket then opens is
  -- never closed from the page.
  pub Run-late_ticket :
      (s : Terminal) {t : Terminal} (ticket : Text)
      → s.waiting ≡ true
      → Run ws_base pod_id pod_name
          (step ws_base pod_id pod_name
            (step ws_base pod_id pod_name s window_closed)
            (ticket_granted ticket))
          t
      → (t.mounted ≡ false) × (t.socket ≢ none) × (t.socket ≢ some closing)
  unfolding step
  Run-late_ticket s ticket w after =
      let (m, _, h1, h2) = Run-Leaked after (refl, refl, ground arith, ground arith) in (m, h1, h2)
