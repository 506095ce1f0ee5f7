-- ===== src/Api/Laws.antt =====
-- What the requests carry.
use p2ser.Base.{◌≡◌, ◌∙◌, ◌++◌, some, if◌then◌else◌}
use p2ser.Dict.{Dict, get, get-put}
use p2ser.Text.Equality.{equal_refl}
use p2ser.Text.{Text, codes, equal}
use p2ser.Api.{Browser, api_token, auth_headers, save_token}

-- After a token is saved every request carries it in its `Authorization` header, whatever headers
-- the call has, and every other header of the call.
pub auth_headers-save_token :
    (b : Browser) (token : Text) (headers : Dict Text) (k : Text)
    → get (auth_headers (save_token b token) headers) k
      ≡ (if equal (codes "Authorization") k then some (codes "Bearer " ++ token) else get headers k)
unfolding auth_headers save_token api_token
auth_headers-save_token b token headers k =
    get-put headers (codes "Authorization") k _
    ∙ rw (
      get-put b.storage (codes "p2ser_api_token") (codes "p2ser_api_token") token,
      equal_refl (codes "p2ser_api_token"),
    )
