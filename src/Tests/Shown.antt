-- ===== src/Tests/Shown.antt =====
-- Pods of the server on the page, and a highlighted file.
use p2ser.Base.{true, false, ◌≡◌, refl, ℕ, List, [], ◌∷◌, All, inl, inr, none, some}
use p2ser.Json.{index_key}
use p2ser.Text.{Text, codes}
use p2ser.Backend.Pod.{Pod}
use p2ser.Converter.Highlight.{highlight, escape_html}
use p2ser.Converter.Highlight.Markup.{strip_tags}
use p2ser.Converter.Highlight.Spans.{is_nested}
use p2ser.Converter.Highlight.Lines.{strip_tags-highlight}
use p2ser.Dashboard.{Cluster, Stats}
use p2ser.Dashboard.View.{PodItem, geo_warning}
use p2ser.Dashboard.View.Badges.{shown, pod_items-Pending}
use p2ser.Tests.Data.{tiny_js}
use p2ser.Tests.Backend.{web}

abbrev no_stats : Stats
no_stats = record {
  cpu_load = codes "0%";
  ram_used = codes "0 GB";
  ram_total = codes "0 GB";
  geo_ip_error = some [];
}

abbrev empty_cluster : Cluster ℕ
empty_cluster = record { stats = no_stats; active_pods = 0; rows = []; projects = [] }

no_warning : geo_warning no_stats ≡ none
unfolding geo_warning
no_warning = refl

abbrev both : List (Pod ℕ)
both = record web { status = codes "Running" } ∷ web ∷ []

pod_items-Pending_example :
    All
      (λ (i : PodItem). i.item_badge ≡ codes "Pending")
      (shown tiny_js index_key (λ n. n) (λ n. n) empty_cluster both)
pod_items-Pending_example =
    pod_items-Pending tiny_js index_key (λ n. n) (λ n. n) empty_cluster both
      (inr (inr (inl refl)), (inl refl, tt))

abbrev file : Text
file = codes "services:\n  a&b: 1\n# <x>: 2"

strip_tags-highlight_example :
    (strip_tags false (highlight file) ≡ escape_html file) × (is_nested 0 0 (highlight file) ≡ true)
strip_tags-highlight_example = strip_tags-highlight file
