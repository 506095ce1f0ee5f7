-- ===== src/Terminal/Greeting.antt =====
-- Nothing typed before the connection stands goes to the pod.
use p2ser.Base.{◌≡◌, refl, ◌≢◌, ◌⊎◌, inl, inr, arith, ◌∙◌, List, [], ◌∷◌, ◌++◌, Option, none, some}
use p2ser.Terminal.{
  Ready, connecting, opened, closing, closed, Output, written, line_written, Terminal, first_state,
  Event, ticket_granted, ticket_failed, ticket_refused, socket_opened, message_received,
  socket_closed, typed, window_closed, step, Run, done, next, close_socket, send_typed,
  connected_line, closed_line, failed_line, refused_ticket,
}
use p2ser.Text.{Text}

abbrev pub Shows : Output → List Output → Type 0
Shows x [] = ⊥
Shows x (y ∷ ys) = (y ≡ x) ⊎ Shows x ys

Shows-append : (x : Output) (ys zs : List Output) → Shows x ys → Shows x (ys ++ zs)
Shows-append x [] zs h = absurd h
Shows-append x (y ∷ ys) zs (inl e) = inl e
Shows-append x (y ∷ ys) zs (inr h) = inr (Shows-append x ys zs h)

Shows-last : (x : Output) (ys : List Output) → Shows x (ys ++ x ∷ [])
Shows-last x [] = inl refl
Shows-last x (y ∷ ys) = inr (Shows-last x ys)

send_typed_early :
    (sent : List Text) (o : Option Ready) (text : Text)
    → o ≢ some opened
    → send_typed sent o text ≡ sent
unfolding send_typed
send_typed_early sent none text h = refl
send_typed_early sent (some connecting) text h = refl
send_typed_early sent (some opened) text h = absurd (h refl)
send_typed_early sent (some closing) text h = refl
send_typed_early sent (some closed) text h = refl

close_socket_opened : (o : Option Ready) → close_socket o ≢ some opened
unfolding close_socket
close_socket_opened none = ground arith
close_socket_opened (some connecting) = ground arith
close_socket_opened (some opened) = ground arith
close_socket_opened (some closing) = ground arith
close_socket_opened (some closed) = ground arith

module _ (ws_base pod_id pod_name : Text) where
  abbrev greeting : Output
  greeting = line_written (connected_line pod_name)

  abbrev Greeted : Terminal → Type 0
  Greeted t = Shows greeting t.screen ⊎ ((t.sent ≡ []) × (t.socket ≢ some opened))

  Greeted-append :
      (t : Terminal) (x : Output) → Greeted t → Greeted (record t { screen = t.screen ++ x ∷ [] })
  Greeted-append t x (inl h) = inl (Shows-append greeting t.screen (x ∷ []) h)
  Greeted-append t x (inr h) = inr h

  step-Greeted : (t : Terminal) (e : Event) → Greeted t → Greeted (step ws_base pod_id pod_name t e)
  unfolding step
  step-Greeted t (ticket_granted k) (inl h) = inl h
  step-Greeted t (ticket_granted k) (inr (e, n)) = inr (e, ground arith)
  step-Greeted t ticket_refused h = Greeted-append t (line_written (failed_line refused_ticket)) h
  step-Greeted t (ticket_failed why) h = Greeted-append t (line_written (failed_line why)) h
  step-Greeted t socket_opened h = inl (Shows-last greeting t.screen)
  step-Greeted t (message_received text) h = Greeted-append t (written text) h
  step-Greeted t socket_closed (inl h) =
      inl (Shows-append greeting t.screen (line_written closed_line ∷ []) h)
  step-Greeted t socket_closed (inr (e, n)) = inr (e, ground arith)
  step-Greeted t (typed text) (inl h) = inl h
  step-Greeted t (typed text) (inr (e, n)) = inr (send_typed_early t.sent t.socket text n ∙ e, n)
  step-Greeted t window_closed (inl h) = inl h
  step-Greeted t window_closed (inr (e, n)) = inr (e, close_socket_opened t.socket)

  Run-Greeted : {s t : Terminal} → Run ws_base pod_id pod_name s t → Greeted s → Greeted t
  Run-Greeted done h = h
  Run-Greeted (next {s} e p r) h = Run-Greeted r (step-Greeted s e h)

  -- A window that has sent anything to the pod has written to its terminal that it is connected.
  pub Run-greeting :
      {t : Terminal}
      → Run ws_base pod_id pod_name first_state t
      → t.sent ≢ []
      → Shows greeting t.screen
  Run-greeting {t} r h = elim (Run-Greeted r (inr (refl, ground arith))) [
    | inl g ↦ g
    | inr early ↦ absurd (h early.0)
  ]
