-- ===== src/Api.antt =====
-- The addresses and the authorised requests of ui/src/App.jsx, lines 9 to 30.
pub mod Laws
use p2ser.Base.{Bool, true, false, List, [], ◌∷◌, ◌++◌, Option, none, some, if◌then◌else◌, ◌==◌}
use p2ser.Dict.{Dict, get, put}
use p2ser.Text.{Text, codes, truthy_text}

-- The answer to a request: a response with its `ok` and its body, or a failure with its message.
pub data Reply : Type 0 where
  response : Bool → Text → Reply
  failure : Text → Reply

-- `localStorage`, and `window.location`.
pub record Browser : Type 0 where
  pub storage : Dict Text
  pub protocol : Text
  pub hostname : Text

-- `localStorage.getItem(k) || ''`
abbrev pub item_or_empty : Option Text → Text
item_or_empty none = []
item_or_empty (some v) = v

-- `API_TOKEN()`
unfoldable pub api_token : Browser → Text
api_token b = item_or_empty (get b.storage (codes "p2ser_api_token"))

-- `ep.replace(/\/$/, '')`
unfoldable pub drop_slash : Text → Text
drop_slash [] = []
drop_slash (c ∷ []) = if c == b'/' then [] else c ∷ []
drop_slash (c ∷ d ∷ s) = c ∷ drop_slash (d ∷ s)

-- `getApiBase()`
unfoldable pub api_base : Browser → Text
api_base b =
    let ep = item_or_empty (get b.storage (codes "p2ser_endpoint")) in
    if truthy_text ep
    then drop_slash ep
    else b.protocol ++ codes "//" ++ b.hostname ++ codes ":8002"

-- `base.replace(/^http/, 'ws')`
unfoldable pub ws_base : Text → Text
ws_base (c ∷ d ∷ e ∷ f ∷ s) =
    if c == b'h'
    then if d == b't'
      then if e == b't'
        then if f == b'p' then b'w' ∷ b's' ∷ s else c ∷ d ∷ e ∷ f ∷ s
        else c ∷ d ∷ e ∷ f ∷ s
      else c ∷ d ∷ e ∷ f ∷ s
    else c ∷ d ∷ e ∷ f ∷ s
ws_base s = s

-- The headers that `authFetch` sends: those of the options, and the token over them.
unfoldable pub auth_headers : Browser → Dict Text → Dict Text
auth_headers b headers = put headers (codes "Authorization") (codes "Bearer " ++ api_token b)

-- The button `Save` of the settings page.
unfoldable pub save_token : Browser → Text → Browser
save_token b token = record b { storage = put b.storage (codes "p2ser_api_token") token }
