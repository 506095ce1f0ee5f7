-- ===== src/Backend/Api/Rate.antt =====
-- `getVisitor`, `RateLimitMiddleware` and the eviction of visitors of backend/internal/api/api.go.
-- Times are in milliseconds, and a request or a round of the eviction is one step. The limiters of
-- golang.org/x/time/rate and `net.SplitHostPort` are parameters.
pub mod Evicted
use p2ser.Base.{
  ◌≡◌, ◌≤◌, ltb, ℕ, Bool, true, false, List, [], ◌∷◌, if◌then◌else◌, Option, none, some, ◌+◌, ◌*◌,
  ◌-◌,
}
use p2ser.Text.{Text, equal}

-- Limiters by their rate in a second and their burst. One that was last asked at `s` and has had
-- the time for its whole burst since is full at `t`, as a new one is.
pub record RateLib : Type 1 where
  pub Limiter : ℕ → ℕ → Type 0
  pub new_limiter : (r b : ℕ) → Limiter r b
  pub allow : (r b : ℕ) → Limiter r b → ℕ → Limiter r b × Bool
  pub allow-rested :
      (r b : ℕ) (l : Limiter r b) (s t : ℕ)
      → 1000 * b ≤ r * (t - s)
      → allow r b (allow r b l s).0 t ≡ allow r b (new_limiter r b) t

-- `Too Many Requests`, with the address that is handed to `BanIP`
pub data RateReply : Type 0 where
  served : RateReply
  too_many : Option Text → RateReply

-- A request from a remote address, or a tick of the eviction
pub data RateEvent : Type 0 where
  asked : Text → ℕ → RateEvent
  tick : ℕ → RateEvent

-- The address without its port
unfoldable pub client_ip : (Text → Option Text) → Text → Text
client_ip split_host remote = elim (split_host remote) [ none ↦ remote | some ip ↦ ip ]

module _ (lib : RateLib) where
  pub record VisitorEntry : Type 0 where
    pub limiter : lib.Limiter 10 20
    pub last_seen : ℕ

  abbrev pub Visitors : Type 0
  Visitors = Text → Option VisitorEntry

  abbrev pub no_visitors : Visitors
  no_visitors ip = none

  -- What a round of the eviction leaves of an entry
  unfoldable pub evict_entry : ℕ → Option VisitorEntry → Option VisitorEntry
  evict_entry now none = none
  evict_entry now (some v) = if ltb 180000 (now - v.last_seen) then none else some v

  unfoldable pub evict : ℕ → Visitors → Visitors
  unfolding evict_entry
  evict now visitors ip = evict_entry now (visitors ip)

  unfoldable pub put_visitor : Visitors → Text → VisitorEntry → Visitors
  put_visitor visitors ip v j = if equal ip j then some v else visitors j

  -- `getVisitor`: the entry that the map has afterwards
  unfoldable pub get_visitor : ℕ → Option VisitorEntry → VisitorEntry
  get_visitor now none = record { limiter = lib.new_limiter 10 20; last_seen = now }
  get_visitor now (some v) = record v { last_seen = now }

  -- The entry after `Allow`, which changes the limiter in place, and its answer
  unfoldable pub ask : ℕ → Option VisitorEntry → VisitorEntry × Bool
  unfolding get_visitor
  ask now seen =
      let v = get_visitor now seen in
      let asked = lib.allow 10 20 v.limiter now in (record v { limiter = asked.0 }, asked.1)

  -- `RateLimitMiddleware`, with whether there is a network manager
  unfoldable pub rate_limit :
      (Text → Option Text) → Bool → Visitors → Text → ℕ → Visitors × RateReply
  unfolding ask client_ip put_visitor
  rate_limit split_host has_network visitors remote now =
      let ip = client_ip split_host remote in
      let asked = ask now (visitors ip) in
      (
        put_visitor visitors ip asked.0,
        if asked.1 then served else too_many (if has_network then some ip else none),
      )

  -- The answers to the requests among some events
  unfoldable pub replies : (Text → Option Text) → Bool → Visitors → List RateEvent → List RateReply
  unfolding rate_limit evict
  replies split_host has_network visitors [] = []
  replies split_host has_network visitors (asked remote now ∷ es) =
      let (after, reply) = rate_limit split_host has_network visitors remote now in
      reply ∷ replies split_host has_network after es
  replies split_host has_network visitors (tick now ∷ es) =
      replies split_host has_network (evict now visitors) es
