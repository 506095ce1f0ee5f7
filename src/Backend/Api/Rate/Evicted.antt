-- ===== src/Backend/Api/Rate/Evicted.antt =====
-- That the eviction of visitors never shows.
use p2ser.Base.{
  ◌≡◌, refl, sym, ap, ◌∙◌, arith, ltb, inl, inr, Bool-cases, Bool, List, [], ◌∷◌, ℕ, ◌+◌, ◌-◌, ◌≤◌,
  if◌then◌else◌, Option, none, some,
}
use mathlib.Core.Path.{subst}
use p2ser.Text.{Text, equal}
use p2ser.Backend.Api.Rate.{
  RateLib, RateReply, served, too_many, RateEvent, asked, tick, client_ip, VisitorEntry, Visitors,
  no_visitors, evict_entry, evict, put_visitor, get_visitor, ask, rate_limit, replies,
}

-- The events without the ticks
abbrev pub requests_of : List RateEvent → List RateEvent
requests_of [] = []
requests_of (asked remote now ∷ es) = asked remote now ∷ requests_of es
requests_of (tick now ∷ es) = requests_of es

-- The times do not run back.
abbrev pub InOrder : ℕ → List RateEvent → Type 0
InOrder since [] = Unit
InOrder since (asked remote now ∷ es) = (since ≤ now) × InOrder now es
InOrder since (tick now ∷ es) = (since ≤ now) × InOrder now es

module _ (lib : RateLib) where
  open lib use {allow, new_limiter}

  -- The limiter was last asked when the visitor was last seen.
  abbrev Asked : VisitorEntry lib → Type 0
  Asked v = (l : lib.Limiter 10 20) × v.limiter ≡ (allow 10 20 l v.last_seen).0

  -- The entry of a map with the eviction, and of one without
  abbrev Similar : ℕ → Option (VisitorEntry lib) → Option (VisitorEntry lib) → Type 0
  Similar now none none = Unit
  Similar now none (some w) = Asked w × (w.last_seen + 2000 ≤ now)
  Similar now (some v) none = ⊥
  Similar now (some v) (some w) = (v ≡ w) × Asked w

  Similar-later :
      (s t : ℕ) (o p : Option (VisitorEntry lib)) → s ≤ t → Similar s o p → Similar t o p
  Similar-later s t none none le h = h
  Similar-later s t none (some w) le h = (h.0, omega (arith, le, h.1))
  Similar-later s t (some v) none le h = h
  Similar-later s t (some v) (some w) le h = h

  evict_entry-Similar :
      (t : ℕ) (o p : Option (VisitorEntry lib)) → Similar t o p → Similar t (evict_entry lib t o) p
  unfolding evict_entry
  evict_entry-Similar t none p h = h
  evict_entry-Similar t (some v) none h = absurd h
  evict_entry-Similar t (some v) (some w) h = elim (Bool-cases (ltb 180000 (t - v.last_seen))) [
    | inl stale ↦ rw stale (h.1, subst (λ e. e.last_seen + 2000 ≤ t) h.0 (ground arith))
    | inr fresh ↦ rw fresh h
  ]

  ask-Similar :
      (t : ℕ) (o p : Option (VisitorEntry lib)) → Similar t o p → ask lib t o ≡ ask lib t p
  unfolding ask get_visitor
  ask-Similar t none none h = refl
  ask-Similar t none (some w) h =
      let ((l, at), rested) = h in
      let same : allow 10 20 w.limiter t ≡ allow 10 20 (new_limiter 10 20) t =
        ap (λ x. allow 10 20 x t) at
        ∙ lib.allow-rested 10 20 l w.last_seen t (omega (arith, rested)) in
      ap (λ a. (record { limiter = a.0; last_seen = t }, a.1)) (sym same)
  ask-Similar t (some v) none h = absurd h
  ask-Similar t (some v) (some w) h = ap (λ e. ask lib t (some e)) h.0

  ask-Asked : (t : ℕ) (o : Option (VisitorEntry lib)) → Asked (ask lib t o).0
  unfolding ask get_visitor
  ask-Asked t none = (new_limiter 10 20, refl)
  ask-Asked t (some v) = (v.limiter, refl)

  abbrev SimilarMaps : ℕ → Visitors lib → Visitors lib → Type 0
  SimilarMaps now v w = (ip : Text) → Similar now (v ip) (w ip)

  put_visitor-SimilarMaps :
      (t : ℕ) (v w : Visitors lib) (ip : Text) (a b : VisitorEntry lib)
      → a ≡ b
      → Asked b
      → SimilarMaps t v w
      → SimilarMaps t (put_visitor lib v ip a) (put_visitor lib w ip b)
  unfolding put_visitor
  put_visitor-SimilarMaps t v w ip a b e h maps j = elim (Bool-cases (equal ip j)) [
    | inl same ↦ rw same (e, h)
    | inr differs ↦ rw differs (maps j)
  ]

  -- The reply to a request, where the entry has been asked
  abbrev reply_for : Bool → Text → Bool → RateReply
  reply_for has_network ip ok =
      if ok then served else too_many (if has_network then some ip else none)

  replies-SimilarMaps :
      (split_host : Text → Option Text) (has_network : Bool) (since : ℕ) (v w : Visitors lib)
      (es : List RateEvent)
      → InOrder since es
      → SimilarMaps since v w
      → replies lib split_host has_network v es
        ≡ replies lib split_host has_network w (requests_of es)
  unfolding replies rate_limit
  replies-SimilarMaps split_host n since v w [] ordered maps = refl
  replies-SimilarMaps split_host n since v w (asked remote now ∷ es) ordered maps =
      let ip = client_ip split_host remote in
      let later : SimilarMaps now v w =
        λ j. Similar-later since now (v j) (w j) ordered.0 (maps j) in
      let same = ask-Similar now (v ip) (w ip) (later ip) in
      let after =
        put_visitor-SimilarMaps now v w ip _ _ (ap (λ a. a.0) same) (ask-Asked now (w ip)) later in
      ap
        (λ a.
          reply_for n ip a.1
          ∷ replies lib split_host n (put_visitor lib v ip (ask lib now (v ip)).0) es)
        same
      ∙ ap (λ rs. reply_for n ip (ask lib now (w ip)).1 ∷ rs)
          (replies-SimilarMaps split_host n now _ _ es ordered.1 after)
  replies-SimilarMaps split_host n since v w (tick now ∷ es) ordered maps =
      replies-SimilarMaps split_host n now (evict lib now v) w es ordered.1 (
        unfold evict in
        λ j.
          evict_entry-Similar now (v j) (w j)
            (Similar-later since now (v j) (w j) ordered.0 (maps j)))

  -- Whatever the times at which stale visitors are evicted, every request has the reply that it has
  -- where none is ever evicted, for events in the order of their times.
  pub replies-requests_of :
      (split_host : Text → Option Text) (has_network : Bool) (es : List RateEvent)
      → InOrder 0 es
      → replies lib split_host has_network (no_visitors lib) es
        ≡ replies lib split_host has_network (no_visitors lib) (requests_of es)
  replies-requests_of split_host has_network es ordered =
      replies-SimilarMaps split_host has_network 0 (no_visitors lib) (no_visitors lib) es ordered
        (λ ip. tt)
