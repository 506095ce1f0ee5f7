-- ===== src/Backend/Scheduler/Standby.antt =====
-- When a node promotes a standby pod, and when several do.
use p2ser.Base.{
  First, First-passed, not_both, and_iff, or_iff, ◌≡◌, ◌↔◌, ◌⊎◌, refl, arith, inl, inr, Bool-cases,
  ℕ, ◌<◌, true, false, ◌&&◌, List, [], ◌∷◌, Any,
}
use p2ser.Text.{Text, codes, equal}
use p2ser.Text.Equality.{equal_iff}
use p2ser.Backend.Pod.{Pod}
use p2ser.Backend.Scheduler.{
  Node, is_expired, says_alive, confirmed_dead, has_dead_active, is_local_standby, to_promote,
}

module _ {Float : Type 0} where
  -- The active pod of an app has let its lease run out, and its node is gone or it was fenced off.
  pub record IsDead (node : Node) (now : ℕ) (app : Text) (p : Pod Float) : Type 0 where
    pub of_app : p.app ≡ app
    pub active : p.role ≡ codes "Active"
    pub leased : 0 < p.lease_expires_at
    pub expired : p.lease_expires_at < now
    pub gone : (says_alive node.is_node_alive p.node_id ≡ false) ⊎ (p.status ≡ codes "Fenced")

  IsDead-iff :
      (node : Node) (now : ℕ) (app : Text) (p : Pod Float)
      → ((equal p.app app && equal p.role (codes "Active") && confirmed_dead node now p) ≡ true)
        ↔ IsDead node now app p
  unfolding confirmed_dead is_expired
  IsDead-iff node now app p =
      let all : ((equal p.app app && equal p.role (codes "Active") && confirmed_dead node now p)
            ≡ true)
          ↔ ((p.app ≡ app)
              × (p.role ≡ codes "Active")
              × (0 < p.lease_expires_at)
              × (p.lease_expires_at < now)
              × ((says_alive node.is_node_alive p.node_id ≡ false) ⊎ (p.status ≡ codes "Fenced"))) =
        ground (
          arith,
          equal_iff p.app app,
          equal_iff p.role (codes "Active"),
          equal_iff p.status (codes "Fenced"),
        ) in
      (
        λ h.
            let (of_app, active, leased, expired, gone) = all.0 h in
            record {
              of_app = of_app;
              active = active;
              leased = leased;
              expired = expired;
              gone = gone;
            },
        λ d. all.1 (d.of_app, d.active, d.leased, d.expired, d.gone),
      )

  has_dead_active_iff :
      (node : Node) (now : ℕ) (app : Text) (ps : List (Pod Float))
      → (has_dead_active node now app ps ≡ true) ↔ Any (IsDead node now app) ps
  unfolding has_dead_active
  has_dead_active_iff node now app [] = ground arith
  has_dead_active_iff node now app (p ∷ ps) =
      or_iff _ (has_dead_active node now app ps) (IsDead-iff node now app p)
        (has_dead_active_iff node now app ps)

  -- A standby pod of the node that is up, whose active pod is dead.
  pub record IsHeir (node : Node) (now : ℕ) (pods : List (Pod Float)) (p : Pod Float) : Type 0 where
    pub here : p.node_id ≡ node.node_id
    pub standby : p.role ≡ codes "Standby"
    pub up : (p.status ≡ codes "Scheduled") ⊎ (p.status ≡ codes "Running")
    pub orphaned : Any (IsDead node now p.app) pods

  local_iff :
      (node : Node) (p : Pod Float)
      → (is_local_standby node p ≡ true) ↔ (
          (p.node_id ≡ node.node_id)
          × (p.role ≡ codes "Standby")
          × ((p.status ≡ codes "Scheduled") ⊎ (p.status ≡ codes "Running")))
  unfolding is_local_standby
  local_iff node p = ground (
    arith,
    equal_iff p.node_id node.node_id,
    equal_iff p.role (codes "Standby"),
    equal_iff p.status (codes "Scheduled"),
    equal_iff p.status (codes "Running"),
  )

  IsHeir-iff :
      (node : Node) (now : ℕ) (pods : List (Pod Float)) (p : Pod Float)
      → ((is_local_standby node p && has_dead_active node now p.app pods) ≡ true)
        ↔ IsHeir node now pods p
  IsHeir-iff node now pods p =
      let all =
        and_iff {B = Any (IsDead node now p.app) pods} _ _ (local_iff node p)
          (has_dead_active_iff node now p.app pods) in
      (
        λ h.
            let ((here, standby, up), orphaned) = all.0 h in
            record { here = here; standby = standby; up = up; orphaned = orphaned },
        λ r. all.1 ((r.here, r.standby, r.up), r.orphaned),
      )

  -- A node promotes the first of its standby pods that is up and whose active pod is dead: its lease
  -- has run out, and its node does not answer any more or has fenced it off; it promotes none if
  -- there is none.
  pub to_promote-First :
      (node : Node) (now : ℕ) (pods ps : List (Pod Float))
      → First (IsHeir node now pods) ps (to_promote node now pods ps)
  unfolding to_promote
  to_promote-First node now pods [] = tt
  to_promote-First node now pods (p ∷ ps) =
      elim (Bool-cases (is_local_standby node p && has_dead_active node now p.app pods)) [
        | inl e ↦ rw e ([], ps, refl, tt, (IsHeir-iff node now pods p).0 e)
        | inr e ↦ rw e (
            First-passed (IsHeir node now pods) p ps (to_promote node now pods ps)
              (λ heir. not_both _ ((IsHeir-iff node now pods p).1 heir) e)
              (to_promote-First node now pods ps))
      ]
