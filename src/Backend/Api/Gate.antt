-- ===== src/Backend/Api/Gate.antt =====
-- How a request reaches a handler in backend/internal/api/api.go: the routes of `ServeWithUI`,
-- `CORSMiddleware` on a preflight, `AuthMiddleware` and `HandleGetWsTicket`. The limits on the rate
-- and on robots, which may refuse a request before, are left out.
pub mod Once
pub mod Routes
use p2ser.Base.{
  ℕ, ◌+◌, Bool, true, false, not, ◌&&◌, ◌||◌, ltb, List, [], ◌∷◌, if◌then◌else◌, Option, none, some,
}
use p2ser.Backend.Store.Cursor.{has_prefix, trim_prefix}
use p2ser.Dict.{Dict, get, put}
use p2ser.Text.{Text, codes, equal, truthy_text}

-- What is read of a request; an absent header or parameter is empty, and the path is one that
-- `ServeMux` takes as it is.
pub record WebRequest : Type 0 where
  pub method : Text
  pub path : Text
  pub authorization : Text
  pub upgrade : Text
  pub ticket : Text

-- A status, the file of the page, another file of the UI, a new ticket, or what another handler
-- answers.
pub data Reply : Type 0 where
  refused : ℕ → Reply
  preflight : Reply
  index_page : Reply
  asset : Reply
  issued : Text → Reply
  handled : Reply

pub data Route : Type 0 where
  to_api : Route
  to_asset : Route
  to_page : Route

-- The prefixes that the fallback of the UI sends to the API
abbrev pub api_prefixes : List Text
api_prefixes =
    codes "/pod"
    ∷ codes "/compose"
    ∷ codes "/apply"
    ∷ codes "/state"
    ∷ codes "/nodes"
    ∷ codes "/upload"
    ∷ codes "/deploy-git"
    ∷ codes "/stats"
    ∷ codes "/pods"
    ∷ codes "/ban"
    ∷ codes "/bot"
    ∷ codes "/ls"
    ∷ []

-- The patterns of `rootMux` for the API, which take one path each
abbrev pub api_patterns : List Text
api_patterns =
    codes "/apply"
    ∷ codes "/state"
    ∷ codes "/pods"
    ∷ codes "/pod"
    ∷ codes "/pod/restart"
    ∷ codes "/pod/exec"
    ∷ codes "/pod/logs"
    ∷ codes "/nodes"
    ∷ codes "/compose"
    ∷ codes "/upload"
    ∷ codes "/deploy-git"
    ∷ codes "/ls"
    ∷ codes "/stats"
    ∷ codes "/ban"
    ∷ codes "/bot"
    ∷ []

unfoldable pub is_listed : Text → List Text → Bool
is_listed s [] = false
is_listed s (t ∷ ts) = equal s t || is_listed s ts

unfoldable pub has_some_prefix : Text → List Text → Bool
has_some_prefix s [] = false
has_some_prefix s (p ∷ ps) = has_prefix p s || has_some_prefix s ps

-- `rootMux`, with the UI or without it
unfoldable pub route : Bool → Text → Route
unfolding is_listed has_some_prefix
route false path = to_api
route true path =
    if is_listed path api_patterns
    then to_api
    else if has_prefix (codes "/assets/") path || equal path (codes "/favicon.ico")
    then to_asset
    else if not (equal path (codes "/")) && has_some_prefix path api_prefixes
    then to_api
    else to_page

-- `strings.TrimPrefix(reqToken, "Bearer ")`
unfoldable pub strip_bearer : Text → Text
strip_bearer s = if has_prefix (codes "Bearer ") s then trim_prefix (codes "Bearer ") s else s

unfoldable pub remove : Dict ℕ → Text → Dict ℕ
remove [] k = []
remove ((j, t) ∷ d) k = let rest = remove d k in if equal j k then rest else (j, t) ∷ rest

unfoldable pub in_time : ℕ → Option ℕ → Bool
in_time now none = false
in_time now (some expiry) = ltb now expiry

-- The tickets that are left, and whether the ticket of the request lets it in.
unfoldable pub take_ticket : ℕ → Dict ℕ → WebRequest → Dict ℕ × Bool
unfolding remove in_time
take_ticket now tickets r =
    if equal r.upgrade (codes "websocket") && truthy_text r.ticket
    then (remove tickets r.ticket, in_time now (get tickets r.ticket))
    else (tickets, false)

-- `AuthMiddleware`
unfoldable pub authorise : Text → ℕ → Dict ℕ → WebRequest → Dict ℕ × Bool
unfolding take_ticket strip_bearer
authorise token now tickets r =
    if equal r.method (codes "OPTIONS")
    then (tickets, true)
    else (let (rest, by_ticket) = take_ticket now tickets r in
        (rest, by_ticket || equal (strip_bearer r.authorization) token))

-- `HandleGetWsTicket`; the digits are those of the random bytes, if there are any, and times are
-- in seconds.
unfoldable pub get_ws_ticket : ℕ → Option Text → Dict ℕ → WebRequest → Dict ℕ × Reply
get_ws_ticket now digits tickets r =
    if equal r.method (codes "POST") then store_ticket digits else (tickets, refused 405)
  where
    store_ticket : Option Text → Dict ℕ × Reply
    store_ticket none = (tickets, refused 500)
    store_ticket (some ticket) = (put tickets ticket (now + 60), issued ticket)

unfoldable pub api_mux : ℕ → Option Text → Dict ℕ → WebRequest → Dict ℕ × Reply
unfolding get_ws_ticket
api_mux now digits tickets r =
    if equal r.path (codes "/ticket")
    then get_ws_ticket now digits tickets r
    else (tickets, handled)

unfoldable pub let_in : ℕ → Option Text → WebRequest → Dict ℕ × Bool → Dict ℕ × Reply
unfolding api_mux
let_in now digits r (tickets, true) = api_mux now digits tickets r
let_in now digits r (tickets, false) = (tickets, refused 401)

-- `protectedAPI`
unfoldable pub protected_api : Text → ℕ → Option Text → Dict ℕ → WebRequest → Dict ℕ × Reply
unfolding authorise let_in
protected_api token now digits tickets r =
    if equal r.method (codes "OPTIONS")
    then (tickets, preflight)
    else let_in now digits r (authorise token now tickets r)

unfoldable pub serve_route : Route → Text → ℕ → Option Text → Dict ℕ → WebRequest → Dict ℕ × Reply
unfolding protected_api
serve_route to_api token now digits tickets r = protected_api token now digits tickets r
serve_route to_asset token now digits tickets r = (tickets, asset)
serve_route to_page token now digits tickets r = (tickets, index_page)

-- The server, with the UI or without it, on one request
unfoldable pub serve : Bool → Text → ℕ → Option Text → Dict ℕ → WebRequest → Dict ℕ × Reply
unfolding serve_route route
serve ui token now digits tickets r = serve_route (route ui r.path) token now digits tickets r
