-- ===== src/Backend/Store/Replicas.antt =====
-- Nodes that apply one log.
use p2ser.Base.{◌≡◌, refl, sym, ap, ◌∙◌, Bool, List, [], ◌∷◌, Option, some, length, All}
use p2ser.Text.{Text}
use p2ser.Backend.Store.Library.{Bolt, Gcm, Encoding}
use p2ser.Backend.Store.{Command, Outcome, Fsm, apply}
use p2ser.Backend.Store.View.{View, view, spec_apply, apply_refines}

cons_eq : {r s : Outcome} {rs ss : List Outcome} → r ≡ s → rs ≡ ss → r ∷ rs ≡ s ∷ ss
cons_eq e es = cc

-- A log: what each entry decodes to.
unfoldable pub spec_run :
    (Text → Bool) → Encoding → View → List (Option Command) → View × List Outcome
spec_run accepts json v [] = (v, [])
spec_run accepts json v (c ∷ cs) =
    let (w, result) = spec_apply accepts json v c in
    let (last, results) = spec_run accepts json w cs in (last, result ∷ results)

module _ (lib : Bolt) (gcm : Gcm) (json : Encoding) where
  open lib use {Bucket}

  -- A node that applies a log, each entry with a nonce of its own.
  unfoldable pub run : Fsm Bucket → List (Text × Option Command) → Fsm Bucket × List Outcome
  run f [] = (f, [])
  run f ((nonce, c) ∷ log) =
      let (g, result) = apply lib gcm json f (some nonce) c in
      let (last, results) = run g log in (last, result ∷ results)

  abbrev pub commands : List (Text × Option Command) → List (Option Command)
  commands [] = []
  commands ((nonce, c) ∷ log) = c ∷ commands log

  -- The nonces are of the size that the cipher asks for.
  abbrev pub HasNonces : List (Text × Option Command) → Type 0
  HasNonces log = All (λ (e : Text × Option Command). length e.0 ≡ gcm.nonce_size) log

  pub run_refines :
      (f : Fsm Bucket) (log : List (Text × Option Command))
      → HasNonces log
      → ((run f log).1 ≡ (spec_run lib.accepts json (view lib gcm f) (commands log)).1)
        × (view lib gcm (run f log).0
            ≡ (spec_run lib.accepts json (view lib gcm f) (commands log)).0)
  unfolding run spec_run
  run_refines f [] h = (refl, refl)
  run_refines f ((nonce, c) ∷ log) (n, h) =
      let (same, view') = apply_refines lib gcm json f nonce c n in
      let (results, last) = run_refines (apply lib gcm json f (some nonce) c).0 log h in
      let to_spec = λ (v : View). spec_run lib.accepts json v (commands log) in
      (
        cons_eq same (results ∙ ap (λ (v : View). (to_spec v).1) view'),
        last ∙ ap (λ (v : View). (to_spec v).0) view',
      )

  -- Nodes whose values agree go on agreeing, and answer alike, as long as they apply the same
  -- commands, whatever keys and nonces they encrypt with, if the nonces are of the size that the
  -- cipher asks for.
  pub run_replicas :
      (f g : Fsm Bucket) (log log' : List (Text × Option Command))
      → HasNonces log
      → HasNonces log'
      → commands log ≡ commands log'
      → view lib gcm f ≡ view lib gcm g
      → ((run f log).1 ≡ (run g log').1)
        × (view lib gcm (run f log).0 ≡ view lib gcm (run g log').0)
  run_replicas f g log log' h h' same start =
      let (results, last) = run_refines f log h in
      let (results', last') = run_refines g log' h' in
      let both = λ (v : View) (cs : List (Option Command)). spec_run lib.accepts json v cs in
      let meet =
        ap (λ (v : View). both v (commands log)) start
        ∙ ap (λ (cs : List (Option Command)). both (view lib gcm g) cs) same in
      (
        results ∙ ap (λ (r : View × List Outcome). r.1) meet ∙ sym results',
        last ∙ ap (λ (r : View × List Outcome). r.0) meet ∙ sym last',
      )
