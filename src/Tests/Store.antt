-- ===== src/Tests/Store.antt =====
-- A library of the store for the tests: a bucket that keeps its entries in order, a cipher that
-- leaves a text as it is, and an encoding of a pod by its version.
use p2ser.Base.{
  ◌≡◌, refl, arith, inl, inr, Bool-cases, ℕ, true, false, [], ◌∷◌, ◌++◌, ltb, if◌then◌else◌, Option,
  none, some, All, All-mono,
}
use p2ser.Dict.{Dict, get}
use p2ser.Json.{Json, num, obj, field, end}
use p2ser.Text.{Text, codes, equal, truthy_text}
use p2ser.Text.Equality.{equal_iff}
use p2ser.Backend.Scheduler.{Engine}
use p2ser.Backend.Store.Library.{Bolt, Gcm, Encoding, before, Ascending}

unfoldable pub insert : Dict Text → Text → Text → Dict Text
insert [] k v = (k, v) ∷ []
insert ((j, w) ∷ es) k v =
    let rest = insert es k v in
    if equal k j then (j, v) ∷ es else if before k j then (k, v) ∷ (j, w) ∷ es else (j, w) ∷ rest

pub erase : Dict Text → Text → Dict Text
erase [] k = []
erase ((j, w) ∷ es) k = let rest = erase es k in if equal j k then rest else (j, w) ∷ rest

before_trans : (a b c : Text) → before a b ≡ true → before b c ≡ true → before a c ≡ true
unfolding before
before_trans a b [] p q = absurd (ground arith)
before_trans [] b (z ∷ c) p q = refl
before_trans (x ∷ a) [] (z ∷ c) p q = absurd (ground arith)
before_trans (x ∷ a) (y ∷ b) (z ∷ c) p q = ground (arith, before_trans a b c)

before_total : (a b : Text) → equal a b ≡ false → before a b ≡ false → before b a ≡ true
unfolding before equal
before_total [] [] p q = absurd (ground arith)
before_total [] (y ∷ b) p q = absurd (ground arith)
before_total (x ∷ a) [] p q = refl
before_total (x ∷ a) (y ∷ b) p q = ground (arith, before_total a b)

pub get-none : (k : Text) → get {V = Text} [] k ≡ none
unfolding get
get-none k = refl

pub get-insert :
    (es : Dict Text) (k j v : Text)
    → get (insert es k v) j ≡ (if equal k j then some v else get es j)
unfolding insert get
get-insert [] k j v = refl
get-insert ((i, w) ∷ es) k j v =
    ground (arith, equal_iff k j, equal_iff k i, equal_iff i j, get-insert es k j v)

pub get-erase :
    (es : Dict Text) (k j : Text) → get (erase es k) j ≡ (if equal k j then none else get es j)
unfolding erase get
get-erase [] k j = ground arith
get-erase ((i, w) ∷ es) k j =
    ground (arith, equal_iff k j, equal_iff i k, equal_iff i j, get-erase es k j)

insert-All :
    (P : Text × Text → Type 0) (es : Dict Text) (k v : Text)
    → ((j u w : Text) → P (j, u) → P (j, w))
    → P (k, v)
    → All P es
    → All P (insert es k v)
unfolding insert
insert-All P [] k v same p h = (p, tt)
insert-All P ((j, w) ∷ es) k v same p (q, h) = elim (Bool-cases (equal k j)) [
  | inl e ↦ rw e (same j w v q, h)
  | inr e ↦ elim (Bool-cases (before k j)) [
    | inl b ↦ rw (e, b) (p, (q, h))
    | inr b ↦ rw (e, b) (q, insert-All P es k v same p h)
  ]
]

erase-All : (P : Text × Text → Type 0) (es : Dict Text) (k : Text) → All P es → All P (erase es k)
unfolding erase
erase-All P [] k h = tt
erase-All P ((j, w) ∷ es) k (q, h) = elim (Bool-cases (equal j k)) [
  | inl e ↦ rw e (erase-All P es k h)
  | inr e ↦ rw e (q, erase-All P es k h)
]

abbrev Behind : Text → Text × Text → Type 0
Behind k e = before k e.0 ≡ true

pub insert-Ascending : (es : Dict Text) (k v : Text) → Ascending es → Ascending (insert es k v)
unfolding insert
insert-Ascending [] k v h = (tt, tt)
insert-Ascending ((j, w) ∷ es) k v (q, h) = elim (Bool-cases (equal k j)) [
  | inl e ↦ rw e (q, h)
  | inr e ↦ elim (Bool-cases (before k j)) [
    | inl b ↦
        rw (e, b)
          ((b, All-mono (Behind j) (Behind k) es (λ x r. before_trans k j x.0 b r) q), (q, h))
    | inr b ↦
        rw (e, b)
          (
            insert-All (Behind j) es k v (λ i u x r. r) (before_total k j e b) q,
            insert-Ascending es k v h,
          )
  ]
]

pub erase-Ascending : (es : Dict Text) (k : Text) → Ascending es → Ascending (erase es k)
unfolding erase
erase-Ascending [] k h = tt
erase-Ascending ((j, w) ∷ es) k (q, h) = elim (Bool-cases (equal j k)) [
  | inl e ↦ rw e (erase-Ascending es k h)
  | inr e ↦ rw e (erase-All (Behind j) es k q, erase-Ascending es k h)
]

abbrev pub tiny_bolt : Bolt
tiny_bolt = record {
  Bucket = (es : Dict Text) × Ascending es;
  empty = ([], tt);
  get = λ b k. get b.0 k;
  put = λ b k v. (insert b.0 k v, insert-Ascending b.0 k v b.1);
  delete = λ b k. (erase b.0 k, erase-Ascending b.0 k b.1);
  accepts = truthy_text;
  entries = λ b. b.0;
  get-empty = λ k. get-none k;
  get-put = λ b k j v. get-insert b.0 k j v;
  get-delete = λ b k j. get-erase b.0 k j;
  get-entries = λ b k. refl;
  entries-Ascending = λ b. b.1;
}

abbrev pub tiny_gcm : Gcm
tiny_gcm = record {
  nonce_size = 1;
  nonce_pos = omega arith;
  seal = λ secret nonce text. text;
  unseal = λ secret nonce text. some text;
  unseal-seal = λ secret nonce text h. refl;
}

-- A text whose first unit is the version of the pod
abbrev pub parse_pod : Text → Option (Json ℕ)
parse_pod [] = none
parse_pod (v ∷ s) = some (obj (field (codes "resource_version") (num v) end))

abbrev pub tiny_json : Encoding
tiny_json = record { Num = ℕ; parse = parse_pod; to_int = λ n. n }

abbrev pub tiny_engine : Engine
tiny_engine = record {
  Float = ℕ;
  zero_float = 0;
  of_int = λ n. n;
  times_090 = λ n. n;
  divide = λ a b. a;
  greater = λ a b. ltb b a;
  float_08 = 1;
  marshal = λ p. p.resource_version ∷ p.status ++ p.node_id;
}
