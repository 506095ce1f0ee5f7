-- ===== src/Backend/Dns/Serving.antt =====
-- Which pods the names of the cluster lead to.
use p2ser.Base.{
  ◌≡◌, ◌↔◌, ◌⊎◌, ◌<◌, ℕ, zero, suc, refl, sym, ◌∙◌, arith, inl, inr, Bool-cases, Bool, true, false,
  not_both, ◌&&◌, ◌||◌, List, [], ◌∷◌, length, if◌then◌else◌, some, All, All-mono, Any, and_iff,
  or_iff,
}
use p2ser.Text.{Text, codes, equal, truthy_text}
use p2ser.Text.Equality.{equal_iff}
use p2ser.Backend.Pod.{Pod}
use p2ser.Backend.Dns.{
  type_a, DnsReply, answered, no_records, forwarded, query_name, host_of, nth, is_candidate,
  candidates, pick, internal_ip, internal_reply, handle_request,
}

-- An address that a record can hold
abbrev pub IsAddress : (Text → Bool) → Text → Type 0
IsAddress is_ip ip = (truthy_text ip ≡ true) × (is_ip ip ≡ true)

cons_nil : (x : Text) (xs : List Text) → x ∷ xs ≡ [] → ⊥
cons_nil x xs e = ground (arith, e)

nth-All : (P : Text → Type 0) (xs : List Text) (i : ℕ) → i < length xs → All P xs → P (nth xs i)
unfolding nth
nth-All P [] i h a = absurd (omega (arith, h))
nth-All P (x ∷ xs) zero h a = a.0
nth-All P (x ∷ xs) (suc i) h a = nth-All P xs i (omega (arith, h)) a.1

module _ {Float : Type 0} where
  -- The pod runs, is ready, has an address, and is of the app or is the pod of that name.
  abbrev pub Serves : Text → Pod Float → Type 0
  Serves name p =
      ((p.status ≡ codes "Running") × (p.ready ≡ true))
      × (((p.app ≡ name) ⊎ (p.id ≡ name)) × (truthy_text p.pod_ip ≡ true))

  is_candidate_iff : (name : Text) (p : Pod Float) → (is_candidate name p ≡ true) ↔ Serves name p
  unfolding is_candidate
  is_candidate_iff name p =
      and_iff (equal p.status (codes "Running") && p.ready)
        ((equal p.app name || equal p.id name) && truthy_text p.pod_ip)
        (and_iff (equal p.status (codes "Running")) p.ready (equal_iff p.status (codes "Running"))
          (λ h. h, λ h. h))
        (and_iff (equal p.app name || equal p.id name) (truthy_text p.pod_ip)
          (or_iff (equal p.app name) (equal p.id name) (equal_iff p.app name) (equal_iff p.id name))
          (λ h. h, λ h. h))

  -- A pod that serves the name has this address.
  abbrev pub Leads : Text → Text → Pod Float → Type 0
  Leads name ip p = Serves name p × (host_of p.pod_ip ≡ ip)

  candidates-cons :
      (name : Text) (p : Pod Float) (ps : List (Pod Float))
      → candidates name (p ∷ ps) ≡ (
          if is_candidate name p then host_of p.pod_ip ∷ candidates name ps else candidates name ps)
  unfolding candidates
  candidates-cons name p ps = refl

  taken :
      (name : Text) (p : Pod Float) (ps : List (Pod Float))
      → is_candidate name p ≡ true
      → candidates name (p ∷ ps) ≡ host_of p.pod_ip ∷ candidates name ps
  taken name p ps e = candidates-cons name p ps ∙ rw e refl

  skipped :
      (name : Text) (p : Pod Float) (ps : List (Pod Float))
      → is_candidate name p ≡ false
      → candidates name (p ∷ ps) ≡ candidates name ps
  skipped name p ps e = candidates-cons name p ps ∙ rw e refl

  -- What holds of the address of every pod that serves the name holds of all candidates.
  All-candidates :
      (P : Text → Type 0) (name : Text) (ps : List (Pod Float))
      → All (λ p. Serves name p → P (host_of p.pod_ip)) ps
      → All P (candidates name ps)
  All-candidates P name [] h = unfold candidates in tt
  All-candidates P name (p ∷ ps) (h, hs) = elim (Bool-cases (is_candidate name p)) [
    | inl e ↦
        rw (taken name p ps e) (h ((is_candidate_iff name p).0 e), All-candidates P name ps hs)
    | inr e ↦ rw (skipped name p ps e) (All-candidates P name ps hs)
  ]

  leading :
      (name : Text) (ps : List (Pod Float))
      → All (λ p. Serves name p → Any (Leads name (host_of p.pod_ip)) ps) ps
  leading name [] = tt
  leading name (p ∷ ps) = (
    λ s. inl (s, refl),
    All-mono (λ q. Serves name q → Any (Leads name (host_of q.pod_ip)) ps)
        (λ q. Serves name q → Any (Leads name (host_of q.pod_ip)) (p ∷ ps)) ps (λ q f s. inr (f s))
        (leading name ps),
  )

  candidates-none :
      (name : Text) (ps : List (Pod Float))
      → candidates name ps ≡ []
      → All (λ p. ¬ Serves name p) ps
  candidates-none name [] h = tt
  candidates-none name (p ∷ ps) h = elim (Bool-cases (is_candidate name p)) [
    | inl e ↦ absurd (cons_nil _ _ (sym (taken name p ps e) ∙ h))
    | inr e ↦ (
      λ s. not_both _ ((is_candidate_iff name p).1 s) e,
      candidates-none name ps (sym (skipped name p ps e) ∙ h),
    )
  ]

  -- What the reply says of the pods.
  abbrev pub ReplyFits : Text → List (Pod Float) → DnsReply → Type 0
  ReplyFits name ps (answered ip) = Any (Leads name ip) ps
  ReplyFits name ps no_records = ⊥
  ReplyFits name ps forwarded = All (λ p. ¬ Serves name p) ps

  module _ (intn : ℕ → ℕ) (is_ip : Text → Bool) (inside : (n : ℕ) → 0 < n → intn n < n) where
    picked-ReplyFits :
        (name : Text) (ps : List (Pod Float)) (ips : List Text)
        → candidates name ps ≡ ips
        → All (IsAddress is_ip) ips
        → All (λ ip. Any (Leads name ip) ps) ips
        → ReplyFits name ps (internal_reply is_ip type_a (pick intn ips))
    unfolding internal_reply pick
    picked-ReplyFits name ps [] e a l = candidates-none name ps e
    picked-ReplyFits name ps (x ∷ xs) e a l =
        let i = inside (length (x ∷ xs)) (omega arith) in
        let (full, valid) = nth-All (IsAddress is_ip) (x ∷ xs) (intn (length (x ∷ xs))) i a in
        rw (full, valid)
          (nth-All (λ ip. Any (Leads name ip) ps) (x ∷ xs) (intn (length (x ∷ xs))) i l)

    -- The question for the address of a name is answered with the address of a pod of the list that
    -- runs, is ready, and is of the app or the pod of that name, where there is such a pod; else it
    -- goes to the server upstream, provided that the random number is in its range and that the
    -- pods that serve the name have valid addresses.
    pub handle_request-ReplyFits :
        (name : Text) (ps : List (Pod Float))
        → All (λ p. Serves (query_name name) p → IsAddress is_ip (host_of p.pod_ip)) ps
        → ReplyFits (query_name name) ps (handle_request intn is_ip (some ps) true type_a name)
    unfolding handle_request internal_ip
    handle_request-ReplyFits name ps valid =
        let asked = query_name name in
        picked-ReplyFits asked ps (candidates asked ps) refl
          (All-candidates (IsAddress is_ip) asked ps valid)
          (All-candidates (λ ip. Any (Leads asked ip) ps) asked ps (leading asked ps))
