-- ===== src/Backend/Scheduler/Claim/Eligible.antt =====
-- Which pod a round takes.
use p2ser.Base.{
  Any, First, First-passed, or_iff, and_iff, not_iff, not_both, ◌≡◌, ◌≢◌, ◌↔◌, ◌⊎◌, refl, arith,
  inl, inr, Bool-cases, ℕ, ◌<◌, true, false, not, ◌&&◌, ◌||◌, List, [], ◌∷◌, All,
}
use p2ser.Dict.{Dict}
use p2ser.Text.{Text, codes, equal, truthy_text}
use p2ser.Text.Equality.{equal_iff}
use p2ser.Backend.Pod.{Pod}
use p2ser.Backend.Scheduler.{Engine, Node, is_up, is_expired}
use p2ser.Backend.Scheduler.Claim.{
  meets, is_met, check_dependencies, is_eligible, safe_ram, first_eligible,
}

module _ (engine : Engine) where
  open engine use {Float}

  -- An active pod of the app that is up, and ready where the dependency asks for health.
  abbrev pub Meets : Text × Text → Pod Float → Type 0
  Meets (app, condition) p =
      (p.app ≡ app)
      × (p.role ≡ codes "Active")
      × (((condition ≡ codes "service_healthy") × (p.status ≡ codes "Running") × (p.ready ≡ true))
          ⊎ ((condition ≢ codes "service_healthy")
              × ((p.status ≡ codes "Running") ⊎ (p.status ≡ codes "Scheduled"))))

  meets_iff : (d : Text × Text) (p : Pod Float) → (meets engine d.0 d.1 p ≡ true) ↔ Meets d p
  unfolding meets
  meets_iff (app, condition) p = ground (
    arith,
    equal_iff p.app app,
    equal_iff p.role (codes "Active"),
    equal_iff condition (codes "service_healthy"),
    equal_iff p.status (codes "Running"),
    equal_iff p.status (codes "Scheduled"),
  )

  is_met_iff :
      (d : Text × Text) (ps : List (Pod Float))
      → (is_met engine d.0 d.1 ps ≡ true) ↔ Any (Meets d) ps
  unfolding is_met
  is_met_iff d [] = ground arith
  is_met_iff d (p ∷ ps) =
      or_iff (meets engine d.0 d.1 p) (is_met engine d.0 d.1 ps) (meets_iff d p) (is_met_iff d ps)

  check_dependencies_iff :
      (pods : List (Pod Float)) (deps : Dict Text)
      → (check_dependencies engine pods deps ≡ true)
        ↔ All (λ (d : Text × Text). Any (Meets d) pods) deps
  unfolding check_dependencies
  check_dependencies_iff pods [] = ground arith
  check_dependencies_iff pods (d ∷ deps) =
      and_iff (is_met engine d.0 d.1 pods) (check_dependencies engine pods deps) (is_met_iff d pods)
        (check_dependencies_iff pods deps)

  -- What makes a pod one that the node may take at `now`.
  pub record IsFree (node : Node) (now : ℕ) (pods : List (Pod Float)) (p : Pod Float) : Type 0 where
    pub waits :
        (p.status ≡ codes "Pending")
        ⊎ (((p.status ≡ codes "Scheduled") ⊎ (p.status ≡ codes "Running"))
            × (0 < p.lease_expires_at)
            × (p.lease_expires_at < now))
    pub depends : All (λ (d : Text × Text). Any (Meets d) pods) p.depends_on
    pub fits_arch : (p.arch ≡ []) ⊎ (p.arch ≡ node.arch)
    pub fits_ram : engine.greater (engine.of_int p.ram_req) (safe_ram engine node) ≡ false

  waits_iff :
      (now : ℕ) (p : Pod Float)
      → ((equal p.status (codes "Pending") || is_up p && is_expired now p) ≡ true) ↔ (
          (p.status ≡ codes "Pending")
          ⊎ (((p.status ≡ codes "Scheduled") ⊎ (p.status ≡ codes "Running"))
              × (0 < p.lease_expires_at)
              × (p.lease_expires_at < now)))
  unfolding is_expired
  waits_iff now p = ground (
    arith,
    equal_iff p.status (codes "Pending"),
    equal_iff p.status (codes "Scheduled"),
    equal_iff p.status (codes "Running"),
  )

  fits_arch_iff : (a b : Text) → ((not (truthy_text a) || equal a b) ≡ true) ↔ ((a ≡ []) ⊎ (a ≡ b))
  fits_arch_iff [] b = (λ _. inl refl, λ _. refl)
  fits_arch_iff (c ∷ a) b = ground (arith, equal_iff (c ∷ a) b)

  is_eligible_iff :
      (node : Node) (now : ℕ) (pods : List (Pod Float)) (p : Pod Float)
      → (is_eligible engine node now pods p ≡ true) ↔ IsFree node now pods p
  unfolding is_eligible
  is_eligible_iff node now pods p =
      let all =
        and_iff _ _
          (and_iff _ _ (and_iff _ _ (waits_iff now p) (check_dependencies_iff pods p.depends_on))
            (fits_arch_iff p.arch node.arch))
          (not_iff (engine.greater (engine.of_int p.ram_req) (safe_ram engine node))) in
      (
        λ h.
            let (((waits, depends), fits_arch), fits_ram) = all.0 h in
            record { waits = waits; depends = depends; fits_arch = fits_arch; fits_ram = fits_ram },
        λ f. all.1 (((f.waits, f.depends), f.fits_arch), f.fits_ram),
      )

  -- A round takes the first pod of the list that is free, and none if none is: one that is pending,
  -- or whose lease has run out; each of whose dependencies an active pod meets, in whatever order
  -- they are looked at; whose architecture is that of the node; and whose memory fits.
  pub first_eligible-First :
      (node : Node) (now : ℕ) (pods ps : List (Pod Float))
      → First (IsFree node now pods) ps (first_eligible engine node now pods ps)
  unfolding first_eligible
  first_eligible-First node now pods [] = tt
  first_eligible-First node now pods (p ∷ ps) =
      elim (Bool-cases (is_eligible engine node now pods p)) [
        | inl e ↦ rw e ([], ps, refl, tt, (is_eligible_iff node now pods p).0 e)
        | inr e ↦ rw e (
            First-passed (IsFree node now pods) p ps (first_eligible engine node now pods ps)
              (λ free. not_both _ ((is_eligible_iff node now pods p).1 free) e)
              (first_eligible-First node now pods ps))
      ]
