-- ===== src/Backend/Api/Gate/Routes.antt =====
-- Where the requests of the page arrive.
use p2ser.Base.{◌≡◌, refl, ℕ, ◌+◌, true, false, some, []}
use p2ser.Backend.Api.Gate.{
  WebRequest, issued, index_page, to_page, route, is_listed, has_some_prefix, strip_bearer,
  take_ticket, authorise, get_ws_ticket, api_mux, let_in, protected_api, serve_route, serve,
}
use p2ser.Backend.Store.Cursor.{has_prefix}
use p2ser.Dict.{Dict, put}
use p2ser.Text.{Text, codes, equal}
use p2ser.Text.Equality.{equal_refl}

ticket_to_page : route true (codes "/ticket") ≡ to_page
unfolding route is_listed has_some_prefix has_prefix equal
ticket_to_page = refl

-- A server with the UI answers the `POST` by which the page asks for a ticket, with the right
-- token, with the page itself, and keeps its tickets as they are; a server without the UI issues a
-- ticket for a minute to the same request. The request is none for a web socket, and there are
-- random bytes for the ticket.
pub serve-ticket :
    (token : Text) (now : ℕ) (digits : Text) (tickets : Dict ℕ) (r : WebRequest)
    → r.path ≡ codes "/ticket"
    → r.method ≡ codes "POST"
    → r.upgrade ≡ []
    → strip_bearer r.authorization ≡ token
    → (serve true token now (some digits) tickets r ≡ (tickets, index_page))
      × (serve false token now (some digits) tickets r
          ≡ (put tickets digits (now + 60), issued digits))
unfolding serve serve_route route protected_api let_in authorise take_ticket api_mux get_ws_ticket
    equal
serve-ticket token now digits tickets r path method upgrade right =
    (rw (path, ticket_to_page) refl, rw (path, method, upgrade, right, equal_refl token) refl)
