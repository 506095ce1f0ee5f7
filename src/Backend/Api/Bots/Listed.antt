-- ===== src/Backend/Api/Bots/Listed.antt =====
-- `GetAllBots` of backend/internal/cluster/fsm.go finds the names that are stored as `true`.
use p2ser.Base.{
  ◌≡◌, ◌↔◌, ◌⊎◌, refl, sym, ap, ◌∙◌, arith, inl, inr, Bool-cases, true, false, List, [], ◌∷◌, ◌++◌,
  if◌then◌else◌, Option, none, some, Any,
}
use mathlib.Core.Path.{subst}
use p2ser.Dict.{Dict, get}
use p2ser.Dict.Distinct.{Distinct}
use p2ser.Text.{Text, codes, equal}
use p2ser.Text.Equality.{equal_iff}
use p2ser.Backend.Store.Library.{Bolt, Gcm}
use p2ser.Backend.Store.{Fsm, decrypt}
use p2ser.Backend.Store.Cursor.{
  has_prefix, has_prefix-append, trim_prefix, append_bot, bots_of, get_all_bots,
}
use p2ser.Backend.Store.Cursor.Scan.{keep, scan-keep, Ascending-Distinct}
use p2ser.Backend.Store.View.{view, view_value}
use p2ser.Backend.Api.Bots.{bot_key}

-- One of the names is this one.
abbrev pub Holds : Text → List Text → Type 0
Holds b = Any (λ (x : Text). x ≡ b)

prefix-trim_prefix : (p k : Text) → has_prefix p k ≡ true → k ≡ p ++ trim_prefix p k
unfolding has_prefix trim_prefix
prefix-trim_prefix [] k h = refl
prefix-trim_prefix (c ∷ p) [] h = absurd (ground arith)
prefix-trim_prefix (c ∷ p) (d ∷ k) h = ground (arith, prefix-trim_prefix p k)

trim_prefix-append : (p s : Text) → trim_prefix p (p ++ s) ≡ s
unfolding trim_prefix
trim_prefix-append [] s = refl
trim_prefix-append (c ∷ p) s = trim_prefix-append p s

module _ (gcm : Gcm) where
  Holds-append_bot :
      (o : Option Text) (bot b : Text) (bots : List Text)
      → Holds b (append_bot gcm o bot bots)
      → ((o ≡ some (codes "true")) × (bot ≡ b)) ⊎ Holds b bots
  unfolding append_bot
  Holds-append_bot none bot b bots h = inr h
  Holds-append_bot (some text) bot b bots h = elim (Bool-cases (equal text (codes "true"))) [
    | inl e ↦
        let kept : Holds b (bot ∷ bots) =
          subst (λ t. Holds b (if◌then◌else◌ {A = List Text} t (bot ∷ bots) bots)) e h in
        elim kept [ inl same ↦ inl (ap some ((equal_iff _ _).0 e), same) | inr rest ↦ inr rest ]
    | inr e ↦ inr (subst (λ t. Holds b (if◌then◌else◌ {A = List Text} t (bot ∷ bots) bots)) e h)
  ]

  append_bot-later :
      (o : Option Text) (bot b : Text) (bots : List Text)
      → Holds b bots
      → Holds b (append_bot gcm o bot bots)
  unfolding append_bot
  append_bot-later none bot b bots h = h
  append_bot-later (some text) bot b bots h = elim (Bool-cases (equal text (codes "true"))) [
    | inl e ↦ rw e (inr h)
    | inr e ↦ rw e h
  ]

  append_bot-here :
      (o : Option Text) (bot : Text) (bots : List Text)
      → o ≡ some (codes "true")
      → Holds bot (append_bot gcm o bot bots)
  unfolding append_bot
  append_bot-here o bot bots e = rw (e, (equal_iff (codes "true") (codes "true")).1 refl) (inl refl)

module _ (gcm : Gcm) (secret : Text) where
  abbrev IsTrue : Option Text → Type 0
  IsTrue o = view_value gcm secret o ≡ some (codes "true")

  no_truth : IsTrue none → ⊥
  unfolding view_value
  no_truth h = ground arith

  here :
      (b k v : Text) (es : Dict Text)
      → k ≡ bot_key b
      → decrypt gcm secret v ≡ some (codes "true")
      → IsTrue (get ((k, v) ∷ es) (bot_key b))
  unfolding get view_value
  here b k v es same e = rw ((equal_iff k (bot_key b)).1 same) e

  later :
      (j k v : Text) (es : Dict Text)
      → get es k ≡ none
      → IsTrue (get es j)
      → IsTrue (get ((k, v) ∷ es) j)
  unfolding get view_value
  later j k v es fresh h = elim (Bool-cases (equal k j)) [
    | inl e ↦
        let gone : get es j ≡ none = ap (get es) (sym ((equal_iff k j).0 e)) ∙ fresh in
        absurd (no_truth (subst IsTrue gone h))
    | inr e ↦ rw e h
  ]

  bots_of-cons :
      (k v : Text) (es : Dict Text)
      → bots_of gcm secret ((k, v) ∷ es)
        ≡ append_bot gcm
            (decrypt gcm secret v)
            (trim_prefix (codes "bot:") k)
            (bots_of gcm secret es)
  unfolding bots_of
  bots_of-cons k v es = refl

  abbrev bots : Dict Text → List Text
  bots es = bots_of gcm secret (keep (codes "bot:") es)

  bots_keep :
      (k v : Text) (es : Dict Text)
      → has_prefix (codes "bot:") k ≡ true
      → bots ((k, v) ∷ es)
        ≡ append_bot gcm (decrypt gcm secret v) (trim_prefix (codes "bot:") k) (bots es)
  bots_keep k v es e = rw e (bots_of-cons k v (keep (codes "bot:") es))

  bots_drop :
      (k v : Text) (es : Dict Text)
      → has_prefix (codes "bot:") k ≡ false
      → bots ((k, v) ∷ es) ≡ bots es
  bots_drop k v es e = rw e refl

  -- A name that is found is stored as `true`.
  pub Holds-get :
      (b : Text) (es : Dict Text) → Distinct es → Holds b (bots es) → IsTrue (get es (bot_key b))
  Holds-get b [] d h = absurd (unfold bots_of in h)
  Holds-get b ((k, v) ∷ es) (fresh, d) h = elim (Bool-cases (has_prefix (codes "bot:") k)) [
    | inl e ↦
        elim (Holds-append_bot gcm (decrypt gcm secret v) (trim_prefix (codes "bot:") k) b (bots es)
          (subst (Holds b) (bots_keep k v es e) h)) [
            | inl (value, same) ↦
                here b k v es
                  (prefix-trim_prefix (codes "bot:") k e ∙ ap (λ s. codes "bot:" ++ s) same) value
            | inr rest ↦ later (bot_key b) k v es fresh (Holds-get b es d rest)
          ]
    | inr e ↦
        later (bot_key b) k v es fresh (Holds-get b es d (subst (Holds b) (bots_drop k v es e) h))
  ]

  from_here :
      (b k v : Text) (es : Dict Text)
      → equal k (bot_key b) ≡ true
      → IsTrue (get ((k, v) ∷ es) (bot_key b))
      → decrypt gcm secret v ≡ some (codes "true")
  unfolding get view_value
  from_here b k v es e h =
      subst (λ t. IsTrue (if◌then◌else◌ {A = Option Text} t (some v) (get es (bot_key b)))) e h

  from_later :
      (j k v : Text) (es : Dict Text)
      → equal k j ≡ false
      → IsTrue (get ((k, v) ∷ es) j)
      → IsTrue (get es j)
  unfolding get view_value
  from_later j k v es e h =
      subst (λ t. IsTrue (if◌then◌else◌ {A = Option Text} t (some v) (get es j))) e h

  here_Holds :
      (b k v : Text) (es : Dict Text)
      → equal k (bot_key b) ≡ true
      → decrypt gcm secret v ≡ some (codes "true")
      → Holds b (bots ((k, v) ∷ es))
  here_Holds b k v es same e =
      let at = (equal_iff k (bot_key b)).0 same in
      let prefixed : has_prefix (codes "bot:") k ≡ true =
        ap (has_prefix (codes "bot:")) at ∙ has_prefix-append (codes "bot:") b in
      let name : trim_prefix (codes "bot:") k ≡ b =
        ap (trim_prefix (codes "bot:")) at ∙ trim_prefix-append (codes "bot:") b in
      subst (Holds b) (sym (bots_keep k v es prefixed)) (
        subst (λ n. Holds b (append_bot gcm (decrypt gcm secret v) n (bots es))) (sym name)
          (append_bot-here gcm (decrypt gcm secret v) b (bots es) e))

  -- A name that is stored as `true` is found.
  pub get-Holds : (b : Text) (es : Dict Text) → IsTrue (get es (bot_key b)) → Holds b (bots es)
  get-Holds b [] h = absurd (no_truth (unfold get in h))
  get-Holds b ((k, v) ∷ es) h = elim (Bool-cases (equal k (bot_key b))) [
    | inl e ↦ here_Holds b k v es e (from_here b k v es e h)
    | inr e ↦
        let rest = get-Holds b es (from_later (bot_key b) k v es e h) in
        elim (Bool-cases (has_prefix (codes "bot:") k)) [
          | inl p ↦ subst (Holds b) (sym (bots_keep k v es p)) (
              append_bot-later gcm (decrypt gcm secret v) (trim_prefix (codes "bot:") k) b (bots es)
                rest)
          | inr p ↦ subst (Holds b) (sym (bots_drop k v es p)) rest
        ]
  ]

-- The dynamic names are those that the store holds as `true`.
pub get_all_bots_iff :
    (lib : Bolt) (gcm : Gcm) (f : Fsm lib.Bucket) (b : Text)
    → Holds b (get_all_bots lib gcm f) ↔ (view lib gcm f (bot_key b) ≡ some (codes "true"))
unfolding get_all_bots
get_all_bots_iff lib gcm f b =
    let es = lib.entries f.db in
    let found =
      ap (bots_of gcm f.secret_key) (scan-keep (codes "bot:") es (lib.entries-Ascending f.db)) in
    let stored = lib.get-entries f.db (bot_key b) in
    (
      λ h. subst (IsTrue gcm f.secret_key) stored (
          Holds-get gcm f.secret_key b es (Ascending-Distinct es (lib.entries-Ascending f.db))
            (subst (Holds b) found h)),
      λ h.
          subst (Holds b) (sym found)
            (get-Holds gcm f.secret_key b es (subst (IsTrue gcm f.secret_key) (sym stored) h)),
    )
