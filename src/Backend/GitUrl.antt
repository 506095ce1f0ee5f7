-- ===== src/Backend/GitUrl.antt =====
-- `validateGitURL` of backend/internal/api/api.go. What `url.Parse` and `net.LookupHost` give are
-- arguments.
pub mod Ranges
use p2ser.Base.{
  Bool, true, false, not, ◌&&◌, ◌||◌, List, [], ◌∷◌, if◌then◌else◌, Option, none, some,
}
use p2ser.Text.{Text, codes, equal, truthy_text}
use p2ser.Backend.Store.Cursor.{has_prefix}

-- The scheme and the host name of a URL
pub record Url : Type 0 where
  pub scheme : Text
  pub hostname : Text

abbrev pub private_ranges : List Text
private_ranges =
    codes "10."
    ∷ codes "172.16."
    ∷ codes "172.17."
    ∷ codes "172.18."
    ∷ codes "172.19."
    ∷ codes "172.20."
    ∷ codes "172.21."
    ∷ codes "172.22."
    ∷ codes "172.23."
    ∷ codes "172.24."
    ∷ codes "172.25."
    ∷ codes "172.26."
    ∷ codes "172.27."
    ∷ codes "172.28."
    ∷ codes "172.29."
    ∷ codes "172.30."
    ∷ codes "172.31."
    ∷ codes "192.168."
    ∷ codes "127."
    ∷ codes "169.254."
    ∷ codes "::1"
    ∷ codes "fc"
    ∷ codes "fd"
    ∷ []

unfoldable pub starts_with_some : List Text → Text → Bool
starts_with_some [] addr = false
starts_with_some (r ∷ rs) addr = has_prefix r addr || starts_with_some rs addr

-- The two loops over the addresses and the ranges
unfoldable pub is_internal : List Text → Bool
unfolding starts_with_some
is_internal [] = false
is_internal (addr ∷ addrs) = starts_with_some private_ranges addr || is_internal addrs

unfoldable pub check_addresses : Option (List Text) → Bool
unfolding is_internal
check_addresses none = true
check_addresses (some addrs) = not (is_internal addrs)

unfoldable pub check_url : (Text → Option (List Text)) → Option Url → Bool
unfolding check_addresses
check_url lookup none = false
check_url lookup (some u) =
    if equal u.scheme (codes "https") || equal u.scheme (codes "git")
    then truthy_text u.hostname && check_addresses (lookup u.hostname)
    else false

-- `validateGitURL`: whether there is no error
unfoldable pub validate_git_url : (Text → Option Url) → (Text → Option (List Text)) → Text → Bool
unfolding check_url
validate_git_url parse lookup raw = if truthy_text raw then check_url lookup (parse raw) else false
