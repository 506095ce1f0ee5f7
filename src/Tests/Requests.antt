-- ===== src/Tests/Requests.antt =====
-- Requests and messages to the server: .env files, bots, pods, names, URLs and gossip, and the
-- theorems at them.
use p2ser.Base.{
  ◌≡◌, ◌↔◌, ◌⊎◌, ◌∙◌, sym, ap, refl, arith, ℕ, true, List, [], ◌∷◌, All, inl, inr, some, none,
}
use p2ser.Dict.{Dict, get, put}
use p2ser.Text.{Text, codes, equal, split_parts, is_word, cut_at}
use p2ser.Backend.EnvFile.{parse_env_file, env_content, trim_left, trim_right, right_cons, is_white}
use p2ser.Backend.EnvFile.Written.{kept, parse_env_file-env_content}
use p2ser.Backend.GitUrl.{Url, validate_git_url}
use p2ser.Backend.GitUrl.Ranges.{Ipv4, InRanges, dotted, validate_git_url_iff}
use p2ser.Backend.Gossip.{Metrics, nothing_known, notify_all, get_node_metrics}
use p2ser.Backend.Gossip.Latest.{Message, Heard}
use p2ser.Backend.Gossip.Converges.{gossip_converges}

abbrev variables : Dict Text
variables =
    (codes "TOKEN", codes " a=b\nADMIN=1 ")
    ∷ (codes "BAD KEY", codes "x")
    ∷ (codes "_n1", codes "2")
    ∷ []

variables_file : env_content variables ≡ codes "TOKEN= a=bADMIN=1 \n_n1=2\n"
unfolding env_content is_word
variables_file = refl

variables_read :
    parse_env_file (some (env_content variables))
    ≡ (codes "TOKEN", codes "a=bADMIN=1") ∷ (codes "_n1", codes "2") ∷ []
unfolding parse_env_file env_content is_word is_white split_parts cut_at put equal trim_right
    trim_left right_cons
variables_read = refl

parse_env_file-env_content_example : parse_env_file (some (env_content variables)) ≡ kept variables
unfolding get equal
parse_env_file-env_content_example = parse_env_file-env_content variables (refl, (refl, (refl, tt)))

abbrev repository : Url
repository = record { scheme = codes "https"; hostname = codes "git.example.org" }

-- A public address, and one that reaches the machine itself
abbrev addresses : List Ipv4
addresses = (140, 82, 121, 3) ∷ (0, 0, 0, 0) ∷ []

validate_git_url_iff_example :
    (validate_git_url
        (λ raw. some repository)
        (λ host. some (dotted (140, 82, 121, 3) ∷ dotted (0, 0, 0, 0) ∷ []))
        (codes "https://git.example.org/a")
      ≡ true)
    ↔ All (λ ip. ¬ InRanges ip) addresses
validate_git_url_iff_example =
    validate_git_url_iff (λ raw. some repository)
      (λ host. some (dotted (140, 82, 121, 3) ∷ dotted (0, 0, 0, 0) ∷ []))
      (codes "https://git.example.org/a") repository addresses refl refl (unfold equal in refl) refl
      refl (ground arith)

abbrev metrics : ℕ → ℕ → Metrics ℕ
metrics v cpu = record {
  node = codes "n1";
  version = v;
  cpu_usage = cpu;
  ram_free = 512;
  ram_total = 2048;
}

abbrev first_order : List (Message ℕ)
first_order = some (metrics 1 10) ∷ some (metrics 2 20) ∷ []

abbrev second_order : List (Message ℕ)
second_order = some (metrics 2 20) ∷ some (metrics 1 10) ∷ some (metrics 2 20) ∷ []

known_after :
    get_node_metrics (notify_all (nothing_known ℕ) second_order) (codes "n1") ≡ some (metrics 2 20)
unfolding get_node_metrics notify_all get put equal
known_after = refl

message_or : Metrics ℕ → Message ℕ → Metrics ℕ
message_or d none = d
message_or d (some m) = m

same_message : (d m : Metrics ℕ) → some d ≡ some m → d ≡ m
unfolding message_or
same_message d m e = ap (message_or d) e

Heard-cases : (m : Metrics ℕ) → Heard m first_order → (m ≡ metrics 1 10) ⊎ (m ≡ metrics 2 20)
Heard-cases m (inl e) = inl (sym (same_message (metrics 1 10) m e))
Heard-cases m (inr (inl e)) = inr (sym (same_message (metrics 2 20) m e))
Heard-cases m (inr (inr h)) = absurd h

one_version :
    (a b : Metrics ℕ)
    → Heard a first_order
    → Heard b first_order
    → a.node ≡ b.node
    → a.version ≡ b.version
    → a ≡ b
one_version a b ha hb same v = elim (Heard-cases a ha) [
  | inl p ↦ elim (Heard-cases b hb) [
    | inl q ↦ p ∙ sym q
    | inr q ↦ absurd (omega (arith, ap (λ m. m.version) p, ap (λ m. m.version) q, v))
  ]
  | inr p ↦ elim (Heard-cases b hb) [
    | inl q ↦ absurd (omega (arith, ap (λ m. m.version) p, ap (λ m. m.version) q, v))
    | inr q ↦ p ∙ sym q
  ]
]

there_too : (m : Metrics ℕ) → Heard m first_order → Heard m second_order
there_too m (inl e) = inr (inl e)
there_too m (inr (inl e)) = inl e
there_too m (inr (inr h)) = absurd h

back_too : (m : Metrics ℕ) → Heard m second_order → Heard m first_order
back_too m (inl e) = inr (inl e)
back_too m (inr (inl e)) = inl e
back_too m (inr (inr (inl e))) = inr (inl e)
back_too m (inr (inr (inr h))) = absurd h

gossip_converges_example :
    get_node_metrics (notify_all (nothing_known ℕ) first_order) (codes "n1")
    ≡ get_node_metrics (notify_all (nothing_known ℕ) second_order) (codes "n1")
gossip_converges_example =
    gossip_converges first_order second_order (codes "n1") there_too back_too one_version
