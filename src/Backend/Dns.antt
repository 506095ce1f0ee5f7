-- ===== src/Backend/Dns.antt =====
-- `handleRequest` of backend/internal/dns/server.go: the addresses that a container gets for the
-- name of an app or a pod. What `rand.Intn` and `dns.NewRR` do is an argument.
pub mod Serving
use p2ser.Base.{
  ℕ, zero, suc, Bool, true, false, not, ◌&&◌, ◌||◌, List, [], ◌∷◌, ◌++◌, length, if◌then◌else◌,
  Option, none, some,
}
use p2ser.Text.{Text, codes, equal, truthy_text, split_parts, ends_with, drop_last}
use p2ser.Backend.Pod.{Pod}

pub data Qtype : Type 0 where
  type_a : Qtype
  type_aaaa : Qtype
  other_type : Qtype

-- An answer with an address, one without records, or the question to the server upstream
pub data DnsReply : Type 0 where
  answered : Text → DnsReply
  no_records : DnsReply
  forwarded : DnsReply

-- `strings.TrimSuffix(q.Name, ".")`
unfoldable pub query_name : Text → Text
query_name s = if ends_with b'.' s then drop_last s else s

-- `strings.Split(pod.PodIP, "/")[0]`
abbrev pub host_of : Text → Text
host_of ip = (split_parts b'/' ip).0

unfoldable pub nth : List Text → ℕ → Text
nth [] i = []
nth (x ∷ xs) zero = x
nth (x ∷ xs) (suc i) = nth xs i

module _ {Float : Type 0} where
  unfoldable pub is_candidate : Text → Pod Float → Bool
  is_candidate name p =
      (equal p.status (codes "Running") && p.ready)
      && ((equal p.app name || equal p.id name) && truthy_text p.pod_ip)

  unfoldable pub candidates : Text → List (Pod Float) → List Text
  unfolding is_candidate
  candidates name [] = []
  candidates name (p ∷ ps) =
      let rest = candidates name ps in if is_candidate name p then host_of p.pod_ip ∷ rest else rest

-- `candidates[rand.Intn(len(candidates))]`, where there are any
unfoldable pub pick : (ℕ → ℕ) → List Text → Text
unfolding nth
pick intn [] = []
pick intn (x ∷ xs) = nth (x ∷ xs) (intn (length (x ∷ xs)))

unfoldable pub internal_ip : {Float : Type 0} → (ℕ → ℕ) → Text → Option (List (Pod Float)) → Text
unfolding pick candidates
internal_ip intn name none = []
internal_ip intn name (some pods) = pick intn (candidates name pods)

-- The answer for an address of the cluster
unfoldable pub internal_reply : (Text → Bool) → Qtype → Text → DnsReply
internal_reply is_ip type_a ip =
    if truthy_text ip then if is_ip ip then answered ip else no_records else forwarded
internal_reply is_ip type_aaaa ip = if truthy_text ip then no_records else forwarded
internal_reply is_ip other_type ip = forwarded

-- `handleRequest`, of a message that is a query with a question or is not
unfoldable pub handle_request :
    {Float : Type 0}
    → (ℕ → ℕ)
    → (Text → Bool)
    → Option (List (Pod Float))
    → Bool
    → Qtype
    → Text
    → DnsReply
unfolding query_name internal_ip internal_reply
handle_request intn is_ip pods false kind name = no_records
handle_request intn is_ip pods true kind name =
    internal_reply is_ip kind (internal_ip intn (query_name name) pods)
