-- ===== src/Backend/Store/View.antt =====
-- The encrypted bucket against a map of plain values.
use p2ser.Base.{
  ◌≡◌, fun_ext, refl, ap, ◌∙◌, arith, inl, inr, Bool-cases, ℕ, zero, suc, Bool, true, false, [],
  ◌∷◌, ◌++◌, ◌==◌, if◌then◌else◌, Option, none, some, length, length-append,
}
use p2ser.Text.{Text, equal}
use p2ser.Backend.Store.Library.{Bolt, Gcm, Encoding, take, drop}
use p2ser.Backend.Store.{
  Op, set_op, del_op, cas_op, other_op, Command, Outcome, applied, undecodable, cas_failed, bad_key,
  Fsm, encrypt, decrypt, decrypt_found, or_nil, get_state, stored_version, store_sealed,
  store_value, update, apply,
}

take-append : (n : ℕ) (xs ys : Text) → length xs ≡ n → take n (xs ++ ys) ≡ xs
take-append zero [] ys h = refl
take-append zero (x ∷ xs) ys h = absurd (ground arith)
take-append (suc n) [] ys h = absurd (ground arith)
take-append (suc n) (x ∷ xs) ys h = ap (λ (t : Text). x ∷ t) (take-append n xs ys (ground arith))

drop-append : (n : ℕ) (xs ys : Text) → length xs ≡ n → drop n (xs ++ ys) ≡ ys
drop-append zero [] ys h = refl
drop-append zero (x ∷ xs) ys h = absurd (ground arith)
drop-append (suc n) [] ys h = absurd (ground arith)
drop-append (suc n) (x ∷ xs) ys h = drop-append n xs ys (ground arith)

-- The contents of the store to those who hold the key; nothing where a value cannot be read.
abbrev pub View : Type 0
View = Text → Option Text

abbrev pub write : View → Text → Text → View
write v k text j = if equal k j then some text else v j

module _ (gcm : Gcm) where
  unfoldable pub view_value : Text → Option Text → Option Text
  view_value secret none = none
  view_value secret (some sealed) = decrypt gcm secret sealed

  decrypt-seal :
      (secret nonce text : Text)
      → length nonce ≡ gcm.nonce_size
      → decrypt gcm secret (nonce ++ gcm.seal secret nonce text) ≡ some text
  unfolding decrypt
  decrypt-seal secret [] text h = absurd (omega (arith, gcm.nonce_pos))
  decrypt-seal secret (c ∷ nonce) text h =
      let sealed = gcm.seal secret (c ∷ nonce) text in
      rw
        (
          take-append gcm.nonce_size (c ∷ nonce) sealed h,
          drop-append gcm.nonce_size (c ∷ nonce) sealed h,
          gcm.unseal-seal secret (c ∷ nonce) text h,
        )
        (ground (arith, length-append nonce sealed))

  pub decrypt_found-view_value :
      (secret : Text) (o : Option Text) → decrypt_found gcm secret o ≡ or_nil (view_value secret o)
  unfolding decrypt_found or_nil view_value
  decrypt_found-view_value secret none = refl
  decrypt_found-view_value secret (some sealed) = refl

-- What a command does to a view.
module _ (accepts : Text → Bool) where
  unfoldable pub spec_store : View → Text → Text → View × Outcome
  spec_store v k text = if accepts k then (write v k text, applied) else (v, bad_key)

  module _ (json : Encoding) where
    unfoldable pub spec_update : View → Op → Command → View × Outcome
    unfolding spec_store
    spec_update v set_op c = spec_store v c.key c.value
    spec_update v del_op c = (λ j. if equal c.key j then none else v j, applied)
    spec_update v cas_op c =
        let current = stored_version json (or_nil (v c.key)) in
        if current == c.expected_version
        then spec_store v c.key c.value
        else (v, cas_failed c.expected_version current)
    spec_update v other_op c = (v, applied)

    unfoldable pub spec_apply : View → Option Command → View × Outcome
    unfolding spec_update
    spec_apply v none = (v, undecodable)
    spec_apply v (some c) = spec_update v c.op c

module _ (lib : Bolt) (gcm : Gcm) where
  open lib use {Bucket}

  abbrev pub view : Fsm Bucket → View
  view f k = view_value gcm f.secret_key (lib.get f.db k)

  -- The step of a node agrees with that of the specification.
  abbrev Agrees : Fsm Bucket × Outcome → View × Outcome → Type 0
  Agrees r s = (r.1 ≡ s.1) × (view r.0 ≡ s.0)

  view_value_put :
      (secret nonce text : Text) (b : Bool) (o : Option Text)
      → length nonce ≡ gcm.nonce_size
      → view_value gcm secret (if b then some (nonce ++ gcm.seal secret nonce text) else o)
        ≡ (if b then some text else view_value gcm secret o)
  unfolding view_value
  view_value_put secret nonce text true o h = decrypt-seal gcm secret nonce text h
  view_value_put secret nonce text false o h = refl

  view_value_delete :
      (secret : Text) (b : Bool) (o : Option Text)
      → view_value gcm secret (if b then none else o)
        ≡ (if b then none else view_value gcm secret o)
  unfolding view_value
  view_value_delete secret true o = refl
  view_value_delete secret false o = refl

  view-put :
      (f : Fsm Bucket) (nonce k text : Text)
      → length nonce ≡ gcm.nonce_size
      → view (record f { db = lib.put f.db k (nonce ++ gcm.seal f.secret_key nonce text) })
        ≡ write (view f) k text
  view-put f nonce k text h = fun_ext λ j.
      ap (view_value gcm f.secret_key)
        (lib.get-put f.db k j (nonce ++ gcm.seal f.secret_key nonce text))
      ∙ view_value_put f.secret_key nonce text (equal k j) (lib.get f.db j) h

  view-delete :
      (f : Fsm Bucket) (k : Text)
      → view (record f { db = lib.delete f.db k }) ≡ (λ j. if equal k j then none else view f j)
  view-delete f k = fun_ext λ j.
      ap (view_value gcm f.secret_key) (lib.get-delete f.db k j)
      ∙ view_value_delete f.secret_key (equal k j) (lib.get f.db j)

  store_value_refines :
      (f : Fsm Bucket) (nonce k text : Text)
      → length nonce ≡ gcm.nonce_size
      → Agrees (store_value lib gcm f (some nonce) k text) (spec_store lib.accepts (view f) k text)
  unfolding store_value encrypt store_sealed spec_store
  store_value_refines f nonce k text h = elim (Bool-cases (lib.accepts k)) [
    | inl e ↦ rw e (refl, view-put f nonce k text h)
    | inr e ↦ rw e (refl, refl)
  ]

  -- A write under a key that the bucket takes.
  pub store_value_accepted :
      (f : Fsm Bucket) (nonce k text : Text)
      → length nonce ≡ gcm.nonce_size
      → lib.accepts k ≡ true
      → ((store_value lib gcm f (some nonce) k text).1 ≡ applied)
        × (view (store_value lib gcm f (some nonce) k text).0 ≡ write (view f) k text)
  unfolding spec_store
  store_value_accepted f nonce k text h a =
      let (result, after) = store_value_refines f nonce k text h in
      (result ∙ rw a refl, after ∙ rw a refl)

  pub get_state-view : (f : Fsm Bucket) (k : Text) → get_state lib gcm f k ≡ or_nil (view f k)
  unfolding get_state
  get_state-view f k = decrypt_found-view_value gcm f.secret_key (lib.get f.db k)

  module _ (json : Encoding) where
    update_refines :
        (f : Fsm Bucket) (nonce : Text) (op : Op) (c : Command)
        → length nonce ≡ gcm.nonce_size
        → Agrees
            (update lib gcm json f (some nonce) op c)
            (spec_update lib.accepts json (view f) op c)
    unfolding update spec_update
    update_refines f nonce set_op c h = store_value_refines f nonce c.key c.value h
    update_refines f nonce del_op c h = (refl, view-delete f c.key)
    update_refines f nonce other_op c h = (refl, refl)
    update_refines f nonce cas_op c h =
        rw (get_state-view f c.key)
          (elim (Bool-cases (stored_version json (or_nil (view f c.key)) == c.expected_version)) [
            | inl e ↦ rw e (store_value_refines f nonce c.key c.value h)
            | inr e ↦ rw e (refl, refl)
          ])

    -- Whatever a command is and whatever the bucket holds, with a nonce of the size that the
    -- cipher asks for, `Apply` returns what the specification does, and the values that can be
    -- read afterwards are those of the specification: the nonce and the key leave no trace in
    -- them.
    pub apply_refines :
        (f : Fsm Bucket) (nonce : Text) (c : Option Command)
        → length nonce ≡ gcm.nonce_size
        → ((apply lib gcm json f (some nonce) c).1 ≡ (spec_apply lib.accepts json (view f) c).1)
          × (view (apply lib gcm json f (some nonce) c).0
              ≡ (spec_apply lib.accepts json (view f) c).0)
    unfolding apply spec_apply
    apply_refines f nonce none h = (refl, refl)
    apply_refines f nonce (some c) h = update_refines f nonce c.op c h
