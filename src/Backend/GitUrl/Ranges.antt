-- ===== src/Backend/GitUrl/Ranges.antt =====
-- The prefixes of `validateGitURL` as ranges of addresses.
use p2ser.Base.{
  ◌≡◌, ◌↔◌, ◌⊎◌, ◌+◌, ◌*◌, ◌-◌, ◌/◌, ◌%◌, ◌<◌, ◌≤◌, ◌==◌, ltb, ℕ, refl, sym, ap, ◌∙◌, arith, inl,
  inr, Bool-cases, Bool, true, false, not, not_both, ◌&&◌, ◌||◌, List, [], ◌∷◌, ◌++◌, if◌then◌else◌,
  Option, none, some, All, map, ==_iff,
}
use p2ser.Text.{Text, codes, equal, truthy_text}
use p2ser.Text.Split.{Lacks}
use p2ser.Backend.Store.Cursor.{has_prefix}
use p2ser.Backend.Files.Closed.{cut_prefix}
use p2ser.Backend.GitUrl.{
  Url, private_ranges, starts_with_some, is_internal, check_addresses, check_url, validate_git_url,
}

-- A number below 1000 in decimals
unfoldable pub decimal : ℕ → Text
decimal n =
    if ltb n 10
    then (n + b'0') ∷ []
    else if ltb n 100
    then (n / 10 + b'0') ∷ (n % 10 + b'0') ∷ []
    else (n / 100 + b'0') ∷ (n / 10 % 10 + b'0') ∷ (n % 10 + b'0') ∷ []

number_onto : ℕ → Text → ℕ
number_onto n [] = n
number_onto n (c ∷ s) = number_onto (n * 10 + (c - b'0')) s

number_onto-decimal : (n : ℕ) → n < 1000 → number_onto 0 (decimal n) ≡ n
unfolding decimal number_onto
number_onto-decimal n h = ground arith

decimal-Lacks : (n : ℕ) → n < 1000 → Lacks b'.' (decimal n)
unfolding decimal
decimal-Lacks n h = ground arith

decimal_inj : (m n : ℕ) → m < 1000 → n < 1000 → decimal m ≡ decimal n → m ≡ n
decimal_inj m n hm hn e =
    sym (number_onto-decimal m hm) ∙ ap (number_onto 0) e ∙ number_onto-decimal n hn

has_prefix-cancel : (p a b : Text) → has_prefix (p ++ a) (p ++ b) ≡ has_prefix a b
unfolding has_prefix
has_prefix-cancel [] a b = refl
has_prefix-cancel (c ∷ p) a b = ground (arith, has_prefix-cancel p a b)

not_true : (b : Bool) → (b ≡ true → ⊥) → b ≡ false
not_true b h = elim (Bool-cases b) [ inl e ↦ absurd (h e) | inr e ↦ e ]

dot : (p s : Text) → has_prefix (b'.' ∷ p) (b'.' ∷ s) ≡ has_prefix p s
unfolding has_prefix
dot p s = refl

-- A prefix that begins with a number and a dot.
has_prefix-decimal :
    (m n : ℕ) (p s : Text)
    → m < 1000
    → n < 1000
    → has_prefix (decimal m ++ b'.' ∷ p) (decimal n ++ b'.' ∷ s) ≡ (n == m && has_prefix p s)
has_prefix-decimal m n p s hm hn = elim (Bool-cases (n == m)) [
  | inl e ↦
      let same = (==_iff n m).0 e in
      ap (λ k. has_prefix (decimal m ++ b'.' ∷ p) (decimal k ++ b'.' ∷ s)) same
      ∙ has_prefix-cancel (decimal m) (b'.' ∷ p) (b'.' ∷ s)
      ∙ dot p s
      ∙ rw e refl
  | inr e ↦ rw e (
      not_true _ λ h.
        let (same, _) =
          cut_prefix b'.' (decimal m) (decimal n) p s (decimal-Lacks m hm) (decimal-Lacks n hn) h in
        let equal_numbers = decimal_inj m n hm hn same in ground (arith, e, equal_numbers))
]

-- `a.b.c.d`
abbrev pub Ipv4 : Type 0
Ipv4 = ℕ × ℕ × ℕ × ℕ

abbrev pub dotted : Ipv4 → Text
dotted (a, b, c, d) = decimal a ++ b'.' ∷ (decimal b ++ b'.' ∷ (decimal c ++ b'.' ∷ decimal d))

abbrev pub IsIpv4 : Ipv4 → Type 0
IsIpv4 (a, b, c, d) = (a < 256) × (b < 256) × (c < 256) × (d < 256)

-- 10.0.0.0/8, 127.0.0.0/8, 172.16.0.0/12, 192.168.0.0/16 and 169.254.0.0/16
abbrev pub InRanges : Ipv4 → Type 0
InRanges (a, b, c, d) =
    (a ≡ 10)
    ⊎ (a ≡ 127)
    ⊎ ((a ≡ 172) × (16 ≤ b) × (b ≤ 31))
    ⊎ ((a ≡ 192) × (b ≡ 168))
    ⊎ ((a ≡ 169) × (b ≡ 254))

one_part :
    (m a : ℕ) (s : Text)
    → m < 1000
    → a < 1000
    → has_prefix (decimal m ++ b'.' ∷ []) (decimal a ++ b'.' ∷ s) ≡ (a == m)
unfolding has_prefix
one_part m a s hm ha = has_prefix-decimal m a [] s hm ha ∙ ground arith

two_parts :
    (m n a b : ℕ) (s : Text)
    → m < 1000
    → n < 1000
    → a < 1000
    → b < 1000
    → has_prefix
        (decimal m ++ b'.' ∷ (decimal n ++ b'.' ∷ []))
        (decimal a ++ b'.' ∷ (decimal b ++ b'.' ∷ s))
      ≡ (a == m && b == n)
two_parts m n a b s hm hn ha hb =
    has_prefix-decimal m a (decimal n ++ b'.' ∷ []) (decimal b ++ b'.' ∷ s) hm ha
    ∙ ap (λ t. a == m && t) (one_part n b s hn hb)

-- The first number of an address, or the first two
abbrev Part : Type 0
Part = ℕ × Option ℕ

abbrev text_of : Part → Text
text_of (m, none) = decimal m ++ b'.' ∷ []
text_of (m, some n) = decimal m ++ b'.' ∷ (decimal n ++ b'.' ∷ [])

abbrev fits : Ipv4 → Part → Bool
fits (a, b, c, d) (m, none) = a == m
fits (a, b, c, d) (m, some n) = a == m && b == n

abbrev IsSmall : Part → Type 0
IsSmall (m, none) = m < 1000
IsSmall (m, some n) = (m < 1000) × (n < 1000)

has_prefix-text_of :
    (ip : Ipv4) (r : Part) → IsIpv4 ip → IsSmall r → has_prefix (text_of r) (dotted ip) ≡ fits ip r
has_prefix-text_of (a, b, c, d) (m, none) (ha, _, _, _) hm =
    one_part m a (decimal b ++ b'.' ∷ (decimal c ++ b'.' ∷ decimal d)) hm (omega (arith, ha))
has_prefix-text_of (a, b, c, d) (m, some n) (ha, hb, _, _) (hm, hn) =
    two_parts m n a b (decimal c ++ b'.' ∷ decimal d) hm hn (omega (arith, ha)) (omega (arith, hb))

abbrev some_fits : Ipv4 → List Part → Bool → Bool
some_fits ip [] rest = rest
some_fits ip (r ∷ rs) rest = fits ip r || some_fits ip rs rest

starts_with_some-append :
    (ip : Ipv4) (rs : List Part) (others : List Text)
    → IsIpv4 ip
    → All IsSmall rs
    → starts_with_some (map text_of rs ++ others) (dotted ip)
      ≡ some_fits ip rs (starts_with_some others (dotted ip))
unfolding starts_with_some
starts_with_some-append ip [] others h small = refl
starts_with_some-append ip (r ∷ rs) others h (s, small) =
    rw (has_prefix-text_of ip r h s)
      (ap (λ t. fits ip r || t) (starts_with_some-append ip rs others h small))

abbrev parts : List Part
parts =
    (10, none)
    ∷ (172, some 16)
    ∷ (172, some 17)
    ∷ (172, some 18)
    ∷ (172, some 19)
    ∷ (172, some 20)
    ∷ (172, some 21)
    ∷ (172, some 22)
    ∷ (172, some 23)
    ∷ (172, some 24)
    ∷ (172, some 25)
    ∷ (172, some 26)
    ∷ (172, some 27)
    ∷ (172, some 28)
    ∷ (172, some 29)
    ∷ (172, some 30)
    ∷ (172, some 31)
    ∷ (192, some 168)
    ∷ (127, none)
    ∷ (169, some 254)
    ∷ []

abbrev others : List Text
others = codes "::1" ∷ codes "fc" ∷ codes "fd" ∷ []

private_ranges-parts : private_ranges ≡ map text_of parts ++ others
unfolding decimal
private_ranges-parts = refl

parts-IsSmall : All IsSmall parts
parts-IsSmall = ground arith

no_other : (n : ℕ) (s : Text) → starts_with_some others (decimal n ++ s) ≡ false
unfolding starts_with_some has_prefix decimal
no_other n s = ground arith

fits_iff : (ip : Ipv4) → (some_fits ip parts false ≡ true) ↔ InRanges ip
fits_iff (a, b, c, d) = ground arith

starts_with_some-InRanges :
    (ip : Ipv4) → IsIpv4 ip → (starts_with_some private_ranges (dotted ip) ≡ true) ↔ InRanges ip
starts_with_some-InRanges (a, b, c, d) h =
    let ip : Ipv4 = (a, b, c, d) in
    let e =
      ap (λ rs. starts_with_some rs (dotted ip)) private_ranges-parts
      ∙ starts_with_some-append ip parts others h parts-IsSmall
      ∙ ap (some_fits ip parts)
          (no_other a (b'.' ∷ (decimal b ++ b'.' ∷ (decimal c ++ b'.' ∷ decimal d)))) in
    rw e (fits_iff ip)

not_internal_iff :
    (ips : List Ipv4)
    → All IsIpv4 ips
    → (not (is_internal (map dotted ips)) ≡ true) ↔ All (λ ip. ¬ InRanges ip) ips
unfolding is_internal
not_internal_iff [] h = (λ e. tt, λ a. refl)
not_internal_iff (ip ∷ ips) (h, hs) =
    let rest = not_internal_iff ips hs in
    let first = starts_with_some-InRanges ip h in
    elim (Bool-cases (starts_with_some private_ranges (dotted ip))) [
      | inl e ↦ rw e (λ n. absurd (ground (arith, n)), λ (n, _). absurd (n (first.0 e)))
      | inr e ↦ rw e (λ n. (λ r. not_both _ (first.1 r) e, rest.0 n), λ (_, all). rest.1 all)
    ]

-- A URL with an allowed scheme and a host, whose host is looked up as IPv4 addresses, is accepted
-- exactly if none of them lies in 10.0.0.0/8, 127.0.0.0/8, 172.16.0.0/12, 192.168.0.0/16 or
-- 169.254.0.0/16: the texts that the addresses are compared with cover these ranges and no more.
pub validate_git_url_iff :
    (parse : Text → Option Url) (lookup : Text → Option (List Text)) (raw : Text) (u : Url)
    (ips : List Ipv4)
    → truthy_text raw ≡ true
    → parse raw ≡ some u
    → (equal u.scheme (codes "https") || equal u.scheme (codes "git")) ≡ true
    → truthy_text u.hostname ≡ true
    → lookup u.hostname ≡ some (map dotted ips)
    → All IsIpv4 ips
    → (validate_git_url parse lookup raw ≡ true) ↔ All (λ ip. ¬ InRanges ip) ips
unfolding validate_git_url check_url check_addresses
validate_git_url_iff parse lookup raw u ips full parsed scheme host found h =
    rw (full, parsed, scheme, host, found) (not_internal_iff ips h)
