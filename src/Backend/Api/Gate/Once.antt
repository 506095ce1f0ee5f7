-- ===== src/Backend/Api/Gate/Once.antt =====
-- A ticket is good for one connection.
use p2ser.Base.{
  ◌≡◌, ◌≢◌, refl, arith, inl, inr, Bool-cases, ℕ, Bool, true, false, List, [], ◌∷◌, Option, none,
  some, if◌then◌else◌, ◌∙◌, ◌+◌, ◌<◌, ltb, All, ◌&&◌, ◌||◌,
}
use p2ser.Backend.Api.Gate.{
  WebRequest, refused, issued, handled, preflight, Route, to_api, to_asset, to_page, route,
  strip_bearer, remove, in_time, take_ticket, authorise, get_ws_ticket, api_mux, let_in,
  protected_api, serve_route, serve,
}
use p2ser.Dict.{Dict, get, put, get-put}
use p2ser.Text.{Text, codes, equal, truthy_text}
use p2ser.Text.Equality.{equal_iff, equal_refl}

-- A request, the time at which it comes, and the digits that a new ticket would have.
pub record Arrival : Type 0 where
  pub now : ℕ
  pub digits : Option Text
  pub request : WebRequest

unfoldable pub serve_all : Bool → Text → Dict ℕ → List Arrival → Dict ℕ
serve_all ui token tickets [] = tickets
serve_all ui token tickets (a ∷ later) =
    serve_all ui token (serve ui token a.now a.digits tickets a.request).0 later

get-remove : (d : Dict ℕ) (k j : Text) → get (remove d k) j ≡ (if equal k j then none else get d j)
unfolding remove get
get-remove [] k j = ground arith
get-remove ((i, t) ∷ d) k j =
    ground (arith, equal_iff k j, equal_iff i k, equal_iff i j, get-remove d k j)

-- What a request leaves of a ticket that is not there.
abbrev IsGone : Text → Dict ℕ → Type 0
IsGone t tickets = get tickets t ≡ none

if-IsGone :
    {A : Type 0} (t : Text) (b : Bool) (x y : Dict ℕ × A)
    → IsGone t x.0
    → IsGone t y.0
    → IsGone t (if b then x else y).0
if-IsGone t true x y p q = p
if-IsGone t false x y p q = q

take_ticket-IsGone :
    (t : Text) (now : ℕ) (tickets : Dict ℕ) (r : WebRequest)
    → IsGone t tickets
    → IsGone t (take_ticket now tickets r).0
unfolding take_ticket
take_ticket-IsGone t now tickets r h =
    if-IsGone t (equal r.upgrade (codes "websocket") && truthy_text r.ticket)
      (remove tickets r.ticket, in_time now (get tickets r.ticket)) (tickets, false)
      (get-remove tickets r.ticket t ∙ ground (arith, h)) h

authorise-IsGone :
    (t token : Text) (now : ℕ) (tickets : Dict ℕ) (r : WebRequest)
    → IsGone t tickets
    → IsGone t (authorise token now tickets r).0
unfolding authorise
authorise-IsGone t token now tickets r h =
    let (rest, by_ticket) = take_ticket now tickets r in
    if-IsGone t (equal r.method (codes "OPTIONS")) (tickets, true)
      (rest, by_ticket || equal (strip_bearer r.authorization) token) h
      (take_ticket-IsGone t now tickets r h)

put-IsGone :
    (t u : Text) (expiry : ℕ) (tickets : Dict ℕ)
    → some u ≢ some t
    → IsGone t tickets
    → IsGone t (put tickets u expiry)
put-IsGone t u expiry tickets n h =
    let other : equal u t ≡ false = ground (arith, equal_iff u t) in
    get-put tickets u t expiry ∙ rw other h

get_ws_ticket-IsGone :
    (t : Text) (now : ℕ) (digits : Option Text) (tickets : Dict ℕ) (r : WebRequest)
    → digits ≢ some t
    → IsGone t tickets
    → IsGone t (get_ws_ticket now digits tickets r).0
unfolding get_ws_ticket
get_ws_ticket-IsGone t now none tickets r n h =
    if-IsGone t (equal r.method (codes "POST")) (tickets, refused 500) (tickets, refused 405) h h
get_ws_ticket-IsGone t now (some u) tickets r n h =
    if-IsGone t (equal r.method (codes "POST")) (put tickets u (now + 60), issued u)
      (tickets, refused 405) (put-IsGone t u (now + 60) tickets n h) h

api_mux-IsGone :
    (t : Text) (now : ℕ) (digits : Option Text) (tickets : Dict ℕ) (r : WebRequest)
    → digits ≢ some t
    → IsGone t tickets
    → IsGone t (api_mux now digits tickets r).0
unfolding api_mux
api_mux-IsGone t now digits tickets r n h =
    if-IsGone t (equal r.path (codes "/ticket")) (get_ws_ticket now digits tickets r)
      (tickets, handled) (get_ws_ticket-IsGone t now digits tickets r n h) h

let_in-IsGone :
    (t : Text) (now : ℕ) (digits : Option Text) (r : WebRequest) (left : Dict ℕ × Bool)
    → digits ≢ some t
    → IsGone t left.0
    → IsGone t (let_in now digits r left).0
unfolding let_in
let_in-IsGone t now digits r (tickets, true) n h = api_mux-IsGone t now digits tickets r n h
let_in-IsGone t now digits r (tickets, false) n h = h

protected_api-IsGone :
    (t token : Text) (now : ℕ) (digits : Option Text) (tickets : Dict ℕ) (r : WebRequest)
    → digits ≢ some t
    → IsGone t tickets
    → IsGone t (protected_api token now digits tickets r).0
unfolding protected_api
protected_api-IsGone t token now digits tickets r n h =
    if-IsGone t (equal r.method (codes "OPTIONS")) (tickets, preflight)
      (let_in now digits r (authorise token now tickets r)) h
      (let_in-IsGone t now digits r (authorise token now tickets r) n
        (authorise-IsGone t token now tickets r h))

serve_route-IsGone :
    (t : Text) (way : Route) (token : Text) (now : ℕ) (digits : Option Text) (tickets : Dict ℕ)
    (r : WebRequest)
    → digits ≢ some t
    → IsGone t tickets
    → IsGone t (serve_route way token now digits tickets r).0
unfolding serve_route
serve_route-IsGone t to_api token now digits tickets r n h =
    protected_api-IsGone t token now digits tickets r n h
serve_route-IsGone t to_asset token now digits tickets r n h = h
serve_route-IsGone t to_page token now digits tickets r n h = h

serve_all-IsGone :
    (t : Text) (ui : Bool) (token : Text) (tickets : Dict ℕ) (later : List Arrival)
    → All (λ a. a.digits ≢ some t) later
    → IsGone t tickets
    → IsGone t (serve_all ui token tickets later)
unfolding serve_all serve
serve_all-IsGone t ui token tickets [] n h = h
serve_all-IsGone t ui token tickets (a ∷ later) (n, ns) h =
    serve_all-IsGone t ui token (serve ui token a.now a.digits tickets a.request).0 later ns
      (serve_route-IsGone t (route ui a.request.path) token a.now a.digits tickets a.request n h)

-- Without the token, a ticket that is not there opens nothing.
serve-IsGone :
    (ui : Bool) (token : Text) (now : ℕ) (digits : Option Text) (tickets : Dict ℕ) (r : WebRequest)
    → route ui r.path ≡ to_api
    → equal r.method (codes "OPTIONS") ≡ false
    → equal (strip_bearer r.authorization) token ≡ false
    → IsGone r.ticket tickets
    → (serve ui token now digits tickets r).1 ≡ refused 401
unfolding serve serve_route protected_api let_in authorise take_ticket in_time
serve-IsGone ui token now digits tickets r to method wrong h =
    elim (Bool-cases (equal r.upgrade (codes "websocket") && truthy_text r.ticket)) [
      | inl e ↦ rw (to, method, wrong, e, h) refl
      | inr e ↦ rw (to, method, wrong, e) refl
    ]

taken :
    (tickets : Dict ℕ) (r : WebRequest) (now : ℕ)
    → r.upgrade ≡ codes "websocket"
    → truthy_text r.ticket ≡ true
    → IsGone r.ticket (take_ticket now tickets r).0
unfolding take_ticket
taken tickets r now socket given =
    rw (socket, equal_refl (codes "websocket"), given)
      (get-remove tickets r.ticket r.ticket ∙ rw (equal_refl r.ticket) refl)

-- A request for a web socket takes its ticket with it.
taken_along :
    (ui : Bool) (token : Text) (now : ℕ) (digits : Option Text) (tickets : Dict ℕ) (r : WebRequest)
    → route ui r.path ≡ to_api
    → equal r.method (codes "OPTIONS") ≡ false
    → r.upgrade ≡ codes "websocket"
    → truthy_text r.ticket ≡ true
    → digits ≢ some r.ticket
    → IsGone r.ticket (serve ui token now digits tickets r).0
unfolding serve serve_route protected_api authorise
taken_along ui token now digits tickets r to method socket given n =
    let (rest, by_ticket) = take_ticket now tickets r in
    rw (to, method)
      (let_in-IsGone r.ticket now digits r
        (rest, by_ticket || equal (strip_bearer r.authorization) token) n
        (taken tickets r now socket given))

-- A ticket that is there and in time lets its request in.
opens :
    (ui : Bool) (token : Text) (now expiry : ℕ) (digits : Option Text) (tickets : Dict ℕ)
    (r : WebRequest)
    → route ui r.path ≡ to_api
    → equal r.path (codes "/ticket") ≡ false
    → equal r.method (codes "OPTIONS") ≡ false
    → r.upgrade ≡ codes "websocket"
    → truthy_text r.ticket ≡ true
    → get tickets r.ticket ≡ some expiry
    → now < expiry
    → (serve ui token now digits tickets r).1 ≡ handled
unfolding serve serve_route protected_api let_in authorise take_ticket in_time api_mux
opens ui token now expiry digits tickets r to path method socket given there early =
    let before : ltb now expiry ≡ true = ground arith in
    rw (to, method, socket, equal_refl (codes "websocket"), given, there, before, path) refl

-- A ticket opens a web socket once: a request for a web socket, on a path of the API other than
-- that of the tickets, that comes with it in time is let in, and whatever other requests follow,
-- as long as none is issued a ticket with the same digits, the request that comes again without
-- the right token is refused, whenever that is.
pub ticket_once :
    (ui : Bool) (token : Text) (now expiry now' : ℕ) (digits digits' : Option Text)
    (tickets : Dict ℕ) (r : WebRequest) (later : List Arrival)
    → route ui r.path ≡ to_api
    → equal r.path (codes "/ticket") ≡ false
    → equal r.method (codes "OPTIONS") ≡ false
    → r.upgrade ≡ codes "websocket"
    → truthy_text r.ticket ≡ true
    → equal (strip_bearer r.authorization) token ≡ false
    → get tickets r.ticket ≡ some expiry
    → now < expiry
    → digits ≢ some r.ticket
    → All (λ a. a.digits ≢ some r.ticket) later
    → ((serve ui token now digits tickets r).1 ≡ handled)
      × ((serve ui token now' digits'
            (serve_all ui token (serve ui token now digits tickets r).0 later)
            r).1
          ≡ refused 401)
ticket_once ui token now expiry now' digits digits' tickets r later to path method socket given
      wrong there early n fresh =
    let first = (serve ui token now digits tickets r).0 in
    (
      opens ui token now expiry digits tickets r to path method socket given there early,
      serve-IsGone ui token now' digits' (serve_all ui token first later) r to method wrong (
          serve_all-IsGone r.ticket ui token first later fresh
            (taken_along ui token now digits tickets r to method socket given n)),
    )
