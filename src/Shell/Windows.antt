-- ===== src/Shell/Windows.antt =====
-- The windows of the page, and what the buttons of a pod do to them.
use p2ser.Base.{◌≡◌, refl, ◌⊎◌, inl, inr, true, false, List, [], ◌∷◌, length}
use p2ser.Api.{Reply, response, failure}
use p2ser.Text.{Text}
use p2ser.Shell.{
  no_logs, no_terminal, Shell, Action, show_logs, restart, stop, answered, show_outcome, Event,
  tab_clicked, terminal_clicked, terminal_closed, action_answered, logs_closed, step, run,
}

-- A window is shown, or holds nothing of what it showed before.
abbrev pub IsReset : Shell → Type 0
IsReset s =
    ((s.logs.logs_show ≡ true) ⊎ (s.logs ≡ no_logs))
    × ((s.terminal.terminal_show ≡ true) ⊎ (s.terminal ≡ no_terminal))

answered-IsReset :
    (s : Shell) (a : Action) (name : Text) (r : Reply)
    → IsReset s
    → IsReset (show_outcome s (answered a name r)).0
unfolding answered show_outcome
answered-IsReset s show_logs name (response true text) h = (inl refl, h.1)
answered-IsReset s show_logs name (response false text) h = h
answered-IsReset s show_logs name (failure why) h = h
answered-IsReset s restart name (response true text) h = h
answered-IsReset s restart name (response false text) h = h
answered-IsReset s restart name (failure why) h = h
answered-IsReset s stop name (response true text) h = h
answered-IsReset s stop name (response false text) h = h
answered-IsReset s stop name (failure why) h = h

step-IsReset : (s : Shell) (e : Event) → IsReset s → IsReset (step s e).0
unfolding step
step-IsReset s (tab_clicked t) h = h
step-IsReset s (terminal_clicked id name) h = (h.0, inl refl)
step-IsReset s terminal_closed h = (h.0, inr refl)
step-IsReset s (action_answered a name r) h = answered-IsReset s a name r h
step-IsReset s logs_closed h = (inr refl, h.1)

-- Whatever is clicked and answered, a window that is not shown holds no text of a pod.
pub run-IsReset : (s : Shell) (es : List Event) → IsReset s → IsReset (run s es)
unfolding run
run-IsReset s [] h = h
run-IsReset s (e ∷ es) h = run-IsReset (step s e).0 es (step-IsReset s e h)

-- The answer to a button of a pod is shown once: as the window of the logs without an alert, or as
-- one alert on a page that stays as it is.
pub step-action_answered :
    (s : Shell) (a : Action) (name : Text) (r : Reply)
    → (((step s (action_answered a name r)).0.logs.logs_show ≡ true)
        × ((step s (action_answered a name r)).1 ≡ []))
      ⊎ (((step s (action_answered a name r)).0 ≡ s)
          × (length (step s (action_answered a name r)).1 ≡ 1))
unfolding step answered show_outcome
step-action_answered s show_logs name (response true text) = inl (refl, refl)
step-action_answered s show_logs name (response false text) = inr (refl, refl)
step-action_answered s show_logs name (failure why) = inr (refl, refl)
step-action_answered s restart name (response true text) = inr (refl, refl)
step-action_answered s restart name (response false text) = inr (refl, refl)
step-action_answered s restart name (failure why) = inr (refl, refl)
step-action_answered s stop name (response true text) = inr (refl, refl)
step-action_answered s stop name (response false text) = inr (refl, refl)
step-action_answered s stop name (failure why) = inr (refl, refl)
