-- ===== src/Backend/Api/Bots.antt =====
-- `HandleManageBot` and `BotProtectionMiddleware` of backend/internal/api/api.go: the names of
-- clients that are shut out. `lower` is `strings.ToLower`, with its tables of letters.
pub mod Listed
pub mod Shut
use p2ser.Base.{
  Bool, true, false, not, ◌&&◌, ◌||◌, List, [], ◌∷◌, ◌++◌, if◌then◌else◌, Option, none, some,
}
use p2ser.Text.{Text, codes, equal, truthy_text}
use p2ser.Backend.Store.Library.{Bolt, Gcm}
use p2ser.Backend.Store.{Command, Op, set_op, del_op, Fsm}
use p2ser.Backend.Store.Cursor.{get_all_bots}
use p2ser.Backend.Compose.{contains}
use p2ser.Backend.Api.{Answer, status, proxied, Future, future_answer, on_leader}

abbrev pub bot_key : Text → Text
bot_key name = codes "bot:" ++ name

unfoldable pub is_name : Text → Text → Bool
is_name bot ua = truthy_text bot && contains bot ua

-- The loop over `allBots`: whether one of the names stands in the client's.
unfoldable pub names_bot : List Text → Text → Bool
unfolding is_name
names_bot [] ua = false
names_bot (bot ∷ bots) ua = is_name bot ua || names_bot bots ua

abbrev pub default_bots : List Text
default_bots =
    codes "gptbot"
    ∷ codes "chatgpt-user"
    ∷ codes "anthropic"
    ∷ codes "claude"
    ∷ codes "applebot-extended"
    ∷ codes "bytespider"
    ∷ codes "ccbot"
    ∷ codes "diffbot"
    ∷ codes "facebookbot"
    ∷ codes "google-extended"
    ∷ codes "omgilibot"
    ∷ codes "perplexitybot"
    ∷ codes "masscan"
    ∷ codes "zgrab"
    ∷ codes "nmap"
    ∷ codes "sqlmap"
    ∷ codes "nikto"
    ∷ codes "dirbuster"
    ∷ codes "wpscan"
    ∷ codes "nuclei"
    ∷ codes "httrack"
    ∷ []

-- What comes of a request: 403, after `BanIP` for an address, or the next handler.
pub data Guarded : Type 0 where
  banned : Text → Guarded
  passed_on : Guarded

-- The host of `net.SplitHostPort`, or the whole address where that fails
unfoldable pub host_or : Option Text → Text → Text
host_or none addr = addr
host_or (some host) addr = host

module _ (lower : Text → Text) where
  -- The command of `HandleManageBot`
  unfoldable pub bot_command : Text → Text → Command
  bot_command method name = record {
    op = if equal method (codes "DELETE") then del_op else set_op;
    key = bot_key (lower name);
    value = codes "true";
    expected_version = 0;
  }

  -- `HandleManageBot`, where `future` is what comes of the command
  unfoldable pub handle_manage_bot : Text → Text → Bool → Text → (Command → Future) → Answer
  unfolding bot_command on_leader future_answer
  handle_manage_bot method name is_leader leader future =
      if not (equal method (codes "POST")) && not (equal method (codes "DELETE"))
      then status 405
      else if truthy_text name
      then on_leader is_leader leader (future_answer (future (bot_command method name)))
      else status 400

  module _ (lib : Bolt) (gcm : Gcm) where
    -- `BotProtectionMiddleware`
    unfoldable pub bot_protection : Fsm lib.Bucket → Text → Option Text → Text → Guarded
    unfolding names_bot host_or
    bot_protection f ua host addr =
        if names_bot (default_bots ++ get_all_bots lib gcm f) (lower ua)
        then banned (host_or host addr)
        else passed_on
