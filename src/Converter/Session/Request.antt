-- ===== src/Converter/Session/Request.antt =====
-- The headers of the request that sends the manifest to the cluster.
use p2ser.Base.{◌≡◌, refl, ◌∙◌, inl, inr, Bool-cases, none, some, if◌then◌else◌, false}
use p2ser.Api.Laws.{auth_headers-save_token}
use p2ser.Api.{Browser, auth_headers, save_token}
use p2ser.Converter.Session.{Services, compose_headers}
use p2ser.Dict.{get, put}
use p2ser.Json.Platform.{Platform}
use p2ser.Text.{Text, codes, equal, trim, truthy_text}

module _ (js : Platform) (lib : Services js) (encode : Text → Text) where
  own_env_vars :
      (env_text : Text)
      → get (compose_headers js lib encode env_text) (codes "X-Env-Vars")
        ≡ (if truthy_text (trim env_text) then some (encode env_text) else none)
  unfolding compose_headers get put equal
  own_env_vars env_text = elim (Bool-cases (truthy_text (trim env_text))) [
    | inl e ↦ rw e
    | inr e ↦ rw e
  ]

  own_content_type :
      (env_text : Text)
      → get (compose_headers js lib encode env_text) (codes "Content-Type")
        ≡ some (codes "application/x-yaml")
  unfolding compose_headers get put equal
  own_content_type env_text = elim (Bool-cases (truthy_text (trim env_text))) [
    | inl e ↦ rw e
    | inr e ↦ rw e
  ]

  other_header :
      (b : Browser) (token env_text k : Text)
      → equal (codes "Authorization") k ≡ false
      → get (auth_headers (save_token b token) (compose_headers js lib encode env_text)) k
        ≡ get (compose_headers js lib encode env_text) k
  other_header b token env_text k e =
      auth_headers-save_token b token (compose_headers js lib encode env_text) k ∙ rw e

  -- The request that sends a manifest is of the type of YAML, and carries the encoded environment
  -- exactly if its text holds more than white space, also behind the token.
  pub auth_headers-compose_headers :
      (b : Browser) (token env_text : Text)
      → (get
            (auth_headers (save_token b token) (compose_headers js lib encode env_text))
            (codes "X-Env-Vars")
          ≡ (if truthy_text (trim env_text) then some (encode env_text) else none))
        × (get
              (auth_headers (save_token b token) (compose_headers js lib encode env_text))
              (codes "Content-Type")
            ≡ some (codes "application/x-yaml"))
  unfolding equal
  auth_headers-compose_headers b token env_text = (
    other_header b token env_text (codes "X-Env-Vars") refl ∙ own_env_vars env_text,
    other_header b token env_text (codes "Content-Type") refl ∙ own_content_type env_text,
  )
