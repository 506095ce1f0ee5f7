-- ===== src/Backend/Scheduler/Split.antt =====
-- A promotion leaves the dead pod as it was, so other nodes promote as well.
use mathlib.Core.Path.{subst}
use p2ser.Base.{
  Any-All, Any-map, All, All-mono, First-Any, First-holds, ◌≡◌, ◌≢◌, refl, ap, arith, sym, ◌∙◌, inl,
  inr, Bool-cases, ℕ, false, List, [], ◌∷◌, ◌++◌, ◌==◌, none, some, Any, map,
}
use p2ser.Text.{Text, codes, equal}
use p2ser.Backend.Pod.{Pod}
use p2ser.Backend.Scheduler.{
  Engine, Node, to_promote, pod_key, promoted, promote, locked, try_lock_pod, new_standby,
  create_new_standby_pod, reconcile_standby,
}
use p2ser.Backend.Scheduler.Standby.{IsDead, IsHeir, to_promote-First}
use p2ser.Backend.Store.Library.{Bolt, Gcm, Encoding}
use p2ser.Backend.Store.Replicas.{run}
use p2ser.Backend.Store.{
  Fsm, Command, cas_op, get_state, stored_version, decrypt_found, store_value, store_sealed,
  encrypt, update, apply,
}

module _ {Float : Type 0} where
  promotes-Any :
      (node : Node) (now : ℕ) (pods : List (Pod Float))
      → to_promote node now pods pods ≢ none
      → Any (IsHeir node now pods) pods
  promotes-Any node now pods h =
      First-Any (IsHeir node now pods) pods (to_promote node now pods pods)
        (to_promote-First node now pods pods) h

  Any-promotes :
      (node : Node) (now : ℕ) (pods : List (Pod Float))
      → Any (IsHeir node now pods) pods
      → to_promote node now pods pods ≢ none
  Any-promotes node now pods h e =
      Any-All (IsHeir node now pods) pods h (rw e at (to_promote-First node now pods pods))

  heir :
      (node : Node) (now : ℕ) (pods : List (Pod Float)) (p : Pod Float)
      → to_promote node now pods pods ≡ some p
      → IsHeir node now pods p
  heir node now pods p e =
      First-holds (IsHeir node now pods) pods (to_promote node now pods pods) p e
        (to_promote-First node now pods pods)

  -- A standby pod that is promoted was no dead active pod.
  standby_lives :
      (node : Node) (now : ℕ) (app : Text) (p : Pod Float)
      → p.role ≡ codes "Standby"
      → ¬ IsDead node now app p
  standby_lives node now app p s d = let e = sym s ∙ d.active in absurd (ground arith)

  abbrev IsIn : List (Pod Float) → Pod Float → Type 0
  IsIn later x = Any (λ y. y ≡ x) later

  -- What one of the pods of a list has that is not the promoted one is still there in a later list.
  carried :
      (P K : Pod Float → Type 0) (later ps : List (Pod Float))
      → All K ps
      → All (λ x. K x → IsIn later x) ps
      → Any P ps
      → Any P later
  carried P K later [] ks ls h = absurd h
  carried P K later (x ∷ ps) (k, ks) (l, ls) (inl h) =
      Any-map (λ y. y ≡ x) P later (λ y e. subst P (sym e) h) (l k)
  carried P K later (x ∷ ps) (k, ks) (l, ls) (inr h) = carried P K later ps ks ls h

  carried_past :
      (P K : Pod Float → Type 0) (later xs : List (Pod Float)) (p : Pod Float)
      (ys : List (Pod Float))
      → ¬ P p
      → All K xs × All K ys
      → All (λ x. K x → IsIn later x) (xs ++ p ∷ ys)
      → Any P (xs ++ p ∷ ys)
      → Any P later
  carried_past P K later [] p ys n (ks, ms) (l, ls) (inl h) = absurd (n h)
  carried_past P K later [] p ys n (ks, ms) (l, ls) (inr h) = carried P K later ys ms ls h
  carried_past P K later (x ∷ xs) p ys n ((k, ks), ms) (l, ls) (inl h) =
      Any-map (λ y. y ≡ x) P later (λ y e. subst P (sym e) h) (l k)
  carried_past P K later (x ∷ xs) p ys n ((k, ks), ms) (l, ls) (inr h) =
      carried_past P K later xs p ys n (ks, ms) ls h

-- The pod has neither the id of the promoted pod nor that of the new one.
abbrev pub IsOther : (engine : Engine) → Text → Pod engine.Float → Pod engine.Float → Type 0
IsOther engine stamp p x =
    (equal p.id x.id ≡ false) × (equal (new_standby engine stamp p).id x.id ≡ false)

module _ (engine : Engine) (lib : Bolt) (gcm : Gcm) (json : Encoding) where
  open engine use {Float}

  -- The store when the commands of a round of the promotion have been applied, each with a nonce.
  abbrev pub promoted_store :
      Fsm lib.Bucket → (Command → Text) → Node → ℕ → ℕ → Text → List (Pod Float) → Fsm lib.Bucket
  promoted_store f nonces node now expires stamp pods =
      (run lib gcm json f
        (map (λ c. (nonces c, some c)) (reconcile_standby engine node now expires stamp pods))).0

  -- The value of a pod is the one that was there before the commands.
  abbrev pub IsKept : Fsm lib.Bucket → Fsm lib.Bucket → Pod Float → Type 0
  IsKept f g x = get_state lib gcm g (pod_key x.id) ≡ get_state lib gcm f (pod_key x.id)

  put_elsewhere :
      (f : Fsm lib.Bucket) (nonce k text j : Text)
      → equal k j ≡ false
      → get_state lib gcm (store_value lib gcm f (some nonce) k text).0 j ≡ get_state lib gcm f j
  unfolding get_state store_value store_sealed encrypt
  put_elsewhere f nonce k text j n = elim (Bool-cases (lib.accepts k)) [
    | inl e ↦ rw e (
        ap (decrypt_found gcm f.secret_key)
          (lib.get-put f.db k j (nonce ++ gcm.seal f.secret_key nonce text) ∙ rw n refl))
    | inr e ↦ rw e refl
  ]

  cas_elsewhere :
      (f : Fsm lib.Bucket) (nonce : Text) (c : Command) (j : Text)
      → c.op ≡ cas_op
      → equal c.key j ≡ false
      → get_state lib gcm (apply lib gcm json f (some nonce) (some c)).0 j ≡ get_state lib gcm f j
  unfolding apply update
  cas_elsewhere f nonce c j op n =
      rw op
        (elim (Bool-cases (stored_version json (get_state lib gcm f c.key) == c.expected_version)) [
          | inl e ↦ rw e (put_elsewhere f nonce c.key c.value j n)
          | inr e ↦ rw e refl
        ])

  promoted_store-IsKept :
      (f : Fsm lib.Bucket) (nonces : Command → Text) (node : Node) (now expires : ℕ) (stamp : Text)
      (pods : List (Pod Float)) (p x : Pod Float)
      → to_promote node now pods pods ≡ some p
      → IsOther engine stamp p x
      → IsKept f (promoted_store f nonces node now expires stamp pods) x
  unfolding reconcile_standby promote promoted try_lock_pod locked create_new_standby_pod run equal
  promoted_store-IsKept f nonces node now expires stamp pods p x e (n, m) =
      let lock = try_lock_pod engine node expires (promoted p) in
      let create = create_new_standby_pod engine stamp p in
      let g = (apply lib gcm json f (some (nonces lock)) (some lock)).0 in
      subst
        (λ o.
          get_state lib gcm
            (run lib gcm json f
              (map (λ c. (nonces c, some c)) (promote engine node expires stamp o))).0
            (pod_key x.id)
          ≡ get_state lib gcm f (pod_key x.id))
        (sym e)
        (cas_elsewhere g (nonces create) create (pod_key x.id) refl m
          ∙ cas_elsewhere f (nonces lock) lock (pod_key x.id) refl n)

  -- Where two different nodes have a standby pod each whose active pod is dead, both promote. When
  -- the commands of the first node have been applied, whatever comes of each of them, the second
  -- still promotes from any list that has the pods whose values are as they were before: the dead
  -- pod and its own standby pod are among these. The other pods of the list that the nodes read have
  -- other ids than the promoted pod and the new standby pod.
  pub to_promote_again :
      (f : Fsm lib.Bucket) (nonces : Command → Text) (a b : Node) (now expires : ℕ) (stamp : Text)
      (xs : List (Pod Float)) (p : Pod Float) (ys later : List (Pod Float))
      → a.node_id ≢ b.node_id
      → to_promote a now (xs ++ p ∷ ys) (xs ++ p ∷ ys) ≡ some p
      → to_promote b now (xs ++ p ∷ ys) (xs ++ p ∷ ys) ≢ none
      → All (IsOther engine stamp p) xs × All (IsOther engine stamp p) ys
      → All
          (λ x.
            IsKept f (promoted_store f nonces a now expires stamp (xs ++ p ∷ ys)) x
            → Any (λ y. y ≡ x) later)
          (xs ++ p ∷ ys)
      → to_promote b now later later ≢ none
  to_promote_again f nonces a b now expires stamp xs p ys later ne e other (before, behind) lists =
      let pods = xs ++ p ∷ ys in
      let mine = heir a now pods p e in
      let K = IsKept f (promoted_store f nonces a now expires stamp pods) in
      let kept = λ (x : Pod Float) (o : IsOther engine stamp p x).
        promoted_store-IsKept f nonces a now expires stamp pods p x e o in
      let both : All K xs × All K ys = (
        All-mono (IsOther engine stamp p) K xs kept before,
        All-mono (IsOther engine stamp p) K ys kept behind,
      ) in
      Any-promotes b now later (
        Any-map (IsHeir b now pods) (IsHeir b now later) later
          (λ q h. record {
            here = h.here;
            standby = h.standby;
            up = h.up;
            orphaned =
                carried_past (IsDead b now q.app) K later xs p ys
                  (standby_lives b now q.app p mine.standby) both lists h.orphaned;
          })
          (carried_past (IsHeir b now pods) K later xs p ys (λ h. ne (sym mine.here ∙ h.here)) both
            lists (promotes-Any b now pods other)))
