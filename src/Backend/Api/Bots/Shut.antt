-- ===== src/Backend/Api/Bots/Shut.antt =====
-- Which clients `BotProtectionMiddleware` of backend/internal/api/api.go shuts out.
use p2ser.Base.{
  ◌≡◌, ◌↔◌, ◌⊎◌, refl, sym, ap, ◌∙◌, arith, inl, inr, Bool-cases, Bool, true, false, not_both, List,
  [], ◌∷◌, ◌++◌, if◌then◌else◌, Option, some, Any, or_iff, and_iff, length,
}
use mathlib.Core.Path.{subst}
use p2ser.Text.{Text, codes, equal, truthy_text}
use p2ser.Text.Equality.{equal_iff}
use p2ser.Backend.Store.Library.{Bolt, Gcm, Encoding}
use p2ser.Backend.Store.{Outcome, Fsm, apply, applied, bad_key}
use p2ser.Backend.Store.Cursor.{get_all_bots}
use p2ser.Backend.Store.View.{View, view, spec_apply, spec_store, write, apply_refines}
use p2ser.Backend.Compose.{contains}
use p2ser.Backend.Api.Bots.{
  bot_key, is_name, names_bot, default_bots, banned, host_or, bot_command, bot_protection,
}
use p2ser.Backend.Api.Bots.Listed.{Holds, get_all_bots_iff}

-- The name is not empty and stands in the client's.
abbrev pub Names : Text → Text → Type 0
Names ua bot = (truthy_text bot ≡ true) × (contains bot ua ≡ true)

is_name_iff : (ua bot : Text) → (is_name bot ua ≡ true) ↔ Names ua bot
unfolding is_name
is_name_iff ua bot = and_iff (truthy_text bot) (contains bot ua) (λ h. h, λ h. h) (λ h. h, λ h. h)

names_bot_iff : (ua : Text) (bots : List Text) → (names_bot bots ua ≡ true) ↔ Any (Names ua) bots
unfolding names_bot
names_bot_iff ua [] = (λ h. absurd (ground arith), λ h. absurd h)
names_bot_iff ua (b ∷ bots) =
    or_iff (is_name b ua) (names_bot bots ua) (is_name_iff ua b) (names_bot_iff ua bots)

Any-split : (P : Text → Type 0) (xs ys : List Text) → Any P (xs ++ ys) ↔ (Any P xs ⊎ Any P ys)
Any-split P [] ys = (inr, λ h. elim h [ inl x ↦ absurd x | inr y ↦ y ])
Any-split P (x ∷ xs) ys =
    let rest = Any-split P xs ys in
    (
      λ h. elim h [
        | inl p ↦ inl (inl p)
        | inr r ↦ elim (rest.0 r) [ inl l ↦ inl (inr l) | inr q ↦ inr q ]
      ],
      λ h. elim h [
        | inl l ↦ elim l [ inl p ↦ inl p | inr q ↦ inr (rest.1 (inl q)) ]
        | inr q ↦ inr (rest.1 (inr q))
      ],
    )

-- Some item has the property where one that is held has it.
Any-Holds : (P : Text → Type 0) (xs : List Text) → Any P xs ↔ ((b : Text) × P b × Holds b xs)
Any-Holds P [] = (λ h. absurd h, λ h. absurd h.2)
Any-Holds P (x ∷ xs) =
    let rest = Any-Holds P xs in
    (
      λ h. elim h [
        | inl p ↦ (x, p, inl refl)
        | inr r ↦ let (b, q, at) = rest.0 r in (b, q, inr at)
      ],
      λ h. elim h.2 [ inl e ↦ inl (subst P (sym e) h.1) | inr at ↦ inr (rest.1 (h.0, h.1, at)) ],
    )

abbrev chosen : Bool → View → Text → Text → View × Outcome
chosen b v k text = if b then (write v k text, applied) else (v, bad_key)

chosen-there :
    (b : Bool) (v : View) (k text : Text)
    → (chosen b v k text).1 ≡ applied
    → (chosen b v k text).0 k ≡ some text
chosen-there true v k text e = rw ((equal_iff k k).1 refl) refl
chosen-there false v k text e = absurd (ground (arith, e))

spec_store-there :
    (accepts : Text → Bool) (v : View) (k text : Text)
    → (spec_store accepts v k text).1 ≡ applied
    → (spec_store accepts v k text).0 k ≡ some text
unfolding spec_store
spec_store-there accepts v k text e = chosen-there (accepts k) v k text e

module _ (lower : Text → Text) (lib : Bolt) (gcm : Gcm) where
  -- One of the names that are built in stands in the client's, or one that is stored as `true`.
  abbrev pub IsShut : View → Text → Type 0
  IsShut v ua =
      Any (Names (lower ua)) default_bots
      ⊎ ((b : Text) × Names (lower ua) b × (v (bot_key b) ≡ some (codes "true")))

  names_bot-IsShut :
      (f : Fsm lib.Bucket) (ua : Text)
      → (names_bot (default_bots ++ get_all_bots lib gcm f) (lower ua) ≡ true)
        ↔ IsShut (view lib gcm f) ua
  names_bot-IsShut f ua =
      let named = names_bot_iff (lower ua) (default_bots ++ get_all_bots lib gcm f) in
      let split = Any-split (Names (lower ua)) default_bots (get_all_bots lib gcm f) in
      let held = Any-Holds (Names (lower ua)) (get_all_bots lib gcm f) in
      (
        λ h. elim (split.0 (named.0 h)) [
          | inl l ↦ inl l
          | inr r ↦ let (b, n, at) = held.0 r in inr (b, n, (get_all_bots_iff lib gcm f b).0 at)
        ],
        λ h. named.1 (
            split.1 (elim h [
              | inl l ↦ inl l
              | inr (b, n, stored) ↦ inr (held.1 (b, n, (get_all_bots_iff lib gcm f b).1 stored))
            ])),
      )

  -- A request is answered with 403, and its address banned, exactly if one of the built-in names
  -- stands in the client's name in lower case, or one whose key the store holds with the value
  -- `true`.
  pub bot_protection_iff :
      (f : Fsm lib.Bucket) (ua : Text) (host : Option Text) (addr : Text)
      → (bot_protection lower lib gcm f ua host addr ≡ banned (host_or host addr))
        ↔ IsShut (view lib gcm f) ua
  unfolding bot_protection
  bot_protection_iff f ua host addr =
      let shut = names_bot-IsShut f ua in
      elim (Bool-cases (names_bot (default_bots ++ get_all_bots lib gcm f) (lower ua))) [
        | inl e ↦ rw e (λ h. shut.0 e, λ h. refl)
        | inr e ↦ rw e (λ h. absurd (ground arith), λ h. absurd (not_both _ (shut.1 h) e))
      ]

  written :
      (v : View) (accepts : Text → Bool) (json : Encoding) (name : Text)
      → (spec_apply accepts json v (some (bot_command lower (codes "POST") name))).1 ≡ applied
      → (spec_apply accepts json v (some (bot_command lower (codes "POST") name))).0
          (bot_key (lower name))
        ≡ some (codes "true")
  unfolding spec_apply bot_command equal
  written v accepts json name e = spec_store-there accepts v (bot_key (lower name)) (codes "true") e

  -- Once the command of a POST with a name has been applied, every request of a client whose name
  -- in lower case holds that name in lower case, where that is not empty, is answered with 403 and
  -- its address is banned.
  pub posted_bot-banned :
      (json : Encoding) (f : Fsm lib.Bucket) (nonce name ua : Text) (host : Option Text)
      (addr : Text)
      → length nonce ≡ gcm.nonce_size
      → (apply lib gcm json f (some nonce) (some (bot_command lower (codes "POST") name))).1
        ≡ applied
      → Names (lower ua) (lower name)
      → bot_protection lower lib gcm
          (apply lib gcm json f (some nonce) (some (bot_command lower (codes "POST") name))).0
          ua
          host
          addr
        ≡ banned (host_or host addr)
  posted_bot-banned json f nonce name ua host addr size done names =
      let c = bot_command lower (codes "POST") name in
      let (answer, store) = apply_refines lib gcm json f nonce (some c) size in
      let g = (apply lib gcm json f (some nonce) (some c)).0 in
      (bot_protection_iff g ua host addr).1 (
        inr (
          lower name,
          names,
          ap (λ v. v (bot_key (lower name))) store
              ∙ written (view lib gcm f) lib.accepts json name (sym answer ∙ done),
        ))
