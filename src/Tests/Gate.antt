-- ===== src/Tests/Gate.antt =====
-- Requests at the gate of the API.
use p2ser.Base.{◌≡◌, ◌≢◌, refl, arith, ℕ, true, false, [], ◌∷◌, some}
use p2ser.Backend.Api.Gate.Once.{serve_all, ticket_once}
use p2ser.Backend.Api.Gate.Routes.{serve-ticket}
use p2ser.Backend.Api.Gate.{
  WebRequest, to_api, handled, refused, issued, index_page, route, is_listed, strip_bearer, serve,
}
use p2ser.Backend.Store.Cursor.{has_prefix, trim_prefix}
use p2ser.Dict.{Dict, get, put}
use p2ser.Text.{codes, equal}

abbrev ask : WebRequest
ask = record {
  method = codes "POST";
  path = codes "/ticket";
  authorization = codes "Bearer key";
  upgrade = [];
  ticket = [];
}

abbrev connect : WebRequest
connect = record {
  method = codes "GET";
  path = codes "/pod/exec";
  authorization = [];
  upgrade = codes "websocket";
  ticket = codes "a1";
}

abbrev tickets : Dict ℕ
tickets = (codes "a1", 100) ∷ []

bearer : strip_bearer (codes "Bearer key") ≡ codes "key"
unfolding strip_bearer has_prefix trim_prefix
bearer = refl

serve-ticket_example :
    (serve true (codes "key") 50 (some (codes "b2")) tickets ask ≡ (tickets, index_page))
    × (serve false (codes "key") 50 (some (codes "b2")) tickets ask
        ≡ (put tickets (codes "b2") 110, issued (codes "b2")))
serve-ticket_example = serve-ticket (codes "key") 50 (codes "b2") tickets ask refl refl refl bearer

to_exec : route true (codes "/pod/exec") ≡ to_api
unfolding route is_listed equal
to_exec = refl

no_bearer : equal (strip_bearer []) (codes "key") ≡ false
unfolding strip_bearer has_prefix equal
no_bearer = refl

found : get tickets (codes "a1") ≡ some 100
unfolding get equal
found = refl

not_ticket : equal (codes "/pod/exec") (codes "/ticket") ≡ false
unfolding equal
not_ticket = refl

not_options : equal (codes "GET") (codes "OPTIONS") ≡ false
unfolding equal
not_options = refl

other_digits : some (codes "b2") ≢ some (codes "a1")
other_digits e = ground arith

ticket_once_example :
    ((serve true (codes "key") 50 (some (codes "b2")) tickets connect).1 ≡ handled)
    × ((serve true
          (codes "key")
          52
          (some (codes "b2"))
          (serve_all true
            (codes "key")
            (serve true (codes "key") 50 (some (codes "b2")) tickets connect).0
            (record { now = 51; digits = some (codes "b2"); request = ask } ∷ []))
          connect).1
        ≡ refused 401)
ticket_once_example =
    ticket_once true (codes "key") 50 100 52 (some (codes "b2")) (some (codes "b2")) tickets connect
      (record { now = 51; digits = some (codes "b2"); request = ask } ∷ []) to_exec not_ticket
      not_options refl refl no_bearer found (omega arith) other_digits (other_digits, tt)
