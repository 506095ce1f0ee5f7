-- ===== src/Tests/Limits.antt =====
-- Runs of the limit on the rate of requests, with buckets that hold thousandths of a request.
use p2ser.Base.{
  ◌≡◌, refl, sym, ap, ◌∙◌, arith, inl, inr, Bool-cases, Bool, true, false, List, [], ◌∷◌, ℕ, ◌+◌,
  ◌*◌, ◌-◌, ◌≤◌, leb, if◌then◌else◌, Option, none, some, suc, zero,
}
use p2ser.Text.{Text, codes, equal}
use p2ser.Backend.Api.Rate.{
  RateLib, RateReply, served, too_many, RateEvent, asked, tick, client_ip, no_visitors, replies,
}
use p2ser.Backend.Api.Rate.Evicted.{requests_of, replies-requests_of}

-- What a bucket holds, and when it was last asked
abbrev Bucket : Type 0
Bucket = ℕ × ℕ

abbrev refilled : ℕ → ℕ → Bucket → ℕ → ℕ
refilled r b (k, last) t =
    if leb (1000 * b) (k + r * (t - last)) then 1000 * b else k + r * (t - last)

abbrev taken : ℕ → ℕ → Bucket × Bool
taken held t = if leb 1000 held then ((held - 1000, t), true) else ((held, t), false)

full_at : (most k more : ℕ) → most ≤ more → (if leb most (k + more) then most else k + more) ≡ most
full_at most k more h = ground arith

taken_at : (r b held s t : ℕ) → 1000 * b ≤ r * (t - s) → refilled r b (taken held s).0 t ≡ 1000 * b
taken_at r b held s t h = elim (Bool-cases (leb 1000 held)) [
  | inl enough ↦ rw enough (full_at (1000 * b) (held - 1000) (r * (t - s)) h)
  | inr short ↦ rw short (full_at (1000 * b) held (r * (t - s)) h)
]

new_at : (r b t : ℕ) → refilled r b (1000 * b, 0) t ≡ 1000 * b
new_at r b t = ground arith

abbrev buckets : RateLib
buckets = record {
  Limiter = λ r b. Bucket;
  new_limiter = λ r b. (1000 * b, 0);
  allow = λ r b l t. taken (refilled r b l t) t;
  allow-rested = λ r b l s t h.
      ap (λ held. taken held t) (taken_at r b (refilled r b l s) s t h ∙ sym (new_at r b t));
}

abbrev split_remote : Text → Option Text
split_remote remote = if equal remote (codes "10.0.0.9:5000") then some (codes "10.0.0.9") else none

abbrev visits : List RateEvent
visits =
    asked (codes "10.0.0.9:5000") 1000
    ∷ asked (codes "10.0.0.8") 2000
    ∷ tick 200000
    ∷ asked (codes "10.0.0.9:5000") 200500
    ∷ []

replies-requests_of_example :
    replies buckets split_remote true (no_visitors buckets) visits
    ≡ replies buckets split_remote true (no_visitors buckets) (requests_of visits)
replies-requests_of_example =
    replies-requests_of buckets split_remote true visits
      (omega arith, (omega arith, (omega arith, (omega arith, tt))))

abbrev burst : ℕ → List RateEvent
burst zero = []
burst (suc n) = asked (codes "10.0.0.9:5000") 1000 ∷ burst n

abbrev last_of : List RateReply → Option RateReply
last_of [] = none
last_of (r ∷ []) = some r
last_of (r ∷ q ∷ rs) = last_of (q ∷ rs)

twenty_served :
    last_of (replies buckets split_remote true (no_visitors buckets) (burst 20)) ≡ some served
unfolding replies equal client_ip
twenty_served = refl

next_banned :
    last_of (replies buckets split_remote true (no_visitors buckets) (burst 21))
    ≡ some (too_many (some (codes "10.0.0.9")))
unfolding replies equal client_ip
next_banned = refl
