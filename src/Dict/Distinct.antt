-- ===== src/Dict/Distinct.antt =====
-- Maps in which no key stands twice: `put` keeps them so, and writing all entries of one into the
-- empty map gives it back.
use p2ser.Base.{
  ◌≡◌, refl, arith, [], ◌∷◌, ◌++◌, none, true, false, append_assoc, sym, ◌∙◌, append-nil, inl, inr,
  Bool-cases, All,
}
use p2ser.Dict.{Dict, get, put, get-put}
use p2ser.Text.Equality.{equal_iff}
use p2ser.Text.{Text, equal}

module _ {ℓ} {V : Type ℓ} where
  abbrev pub Distinct : Dict V → Type ℓ
  Distinct [] = Unit
  Distinct ((k, v) ∷ d) = (get d k ≡ none) × Distinct d

  -- `d[k] = v` for every entry in turn
  abbrev pub put_all : Dict V → Dict V → Dict V
  put_all d [] = d
  put_all d ((k, v) ∷ es) = put_all (put d k v) es

  pub put-Distinct : (d : Dict V) (k : Text) (v : V) → Distinct d → Distinct (put d k v)
  unfolding put get
  put-Distinct [] k v h = (refl, tt)
  put-Distinct ((j, w) ∷ d) k v (fresh, h) = elim (Bool-cases (equal j k)) [
    | inl e ↦ rw e (fresh, h)
    | inr e ↦
        rw e (ground (arith, get-put d k j v, equal_iff k j, equal_iff j k), put-Distinct d k v h)
  ]

  -- A property of every key and value is kept by a write that has it.
  pub All-put {κ} :
      (P : Text × V → Type κ) (d : Dict V) (k : Text) (v : V)
      → ((j : Text) → equal j k ≡ true → P (j, v))
      → All P d
      → All P (put d k v)
  unfolding put
  All-put P [] k v new h = (new k ((equal_iff k k).1 refl), tt)
  All-put P ((j, w) ∷ d) k v new (p, h) = elim (Bool-cases (equal j k)) [
    | inl e ↦ rw e (new j e, h)
    | inr e ↦ rw e (p, All-put P d k v new h)
  ]

  put_fresh : (d : Dict V) (k : Text) (v : V) → get d k ≡ none → put d k v ≡ d ++ (k, v) ∷ []
  unfolding put get
  put_fresh [] k v h = refl
  put_fresh ((j, w) ∷ d) k v h = ground (arith, put_fresh d k v)

  later_ne :
      (d es : Dict V) (j k : Text) (v : V) → get (d ++ (k, v) ∷ es) j ≡ none → equal j k ≡ false
  unfolding get
  later_ne [] es j k v h = ground (arith, equal_iff j k, equal_iff k j)
  later_ne ((i, w) ∷ d) es j k v h = ground (arith, later_ne d es j k v)

  Distinct-fresh : (d es : Dict V) (k : Text) (v : V) → Distinct (d ++ (k, v) ∷ es) → get d k ≡ none
  unfolding get
  Distinct-fresh [] es k v h = refl
  Distinct-fresh ((j, w) ∷ d) es k v (fresh, h) =
      rw (later_ne d es j k v fresh) (Distinct-fresh d es k v h)

  put_all-append : (d es : Dict V) → Distinct (d ++ es) → put_all d es ≡ d ++ es
  put_all-append d [] h = sym (append-nil d)
  put_all-append d ((k, v) ∷ es) h =
      let grown = append_assoc d ((k, v) ∷ []) es in
      rw (put_fresh d k v (Distinct-fresh d es k v h))
        (put_all-append (d ++ (k, v) ∷ []) es (rw grown h) ∙ grown)

  pub put_all-Distinct : (d : Dict V) → Distinct d → put_all [] d ≡ d
  put_all-Distinct d h = put_all-append [] d h
