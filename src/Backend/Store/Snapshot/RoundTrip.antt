-- ===== src/Backend/Store/Snapshot/RoundTrip.antt =====
-- A node that is restored from a snapshot reads as the node that took it.
use p2ser.Base.{
  ◌≡◌, refl, sym, ap, ◌∙◌, fun_ext, arith, inl, inr, Bool-cases, ℕ, suc, true, [], ◌∷◌,
  if◌then◌else◌, Option, none, some, length, All,
}
use p2ser.Dict.{Dict, get, get-put}
use p2ser.Dict.Distinct.{Distinct}
use p2ser.Text.{Text, equal}
use p2ser.Text.Equality.{equal_iff}
use p2ser.Backend.Store.Library.{Bolt, Gcm}
use p2ser.Backend.Store.{
  Outcome, applied, undecodable, cas_failed, no_nonce, bad_key, Fsm, decrypt, store_value,
}
use p2ser.Backend.Store.Cursor.Scan.{Ascending-Distinct}
use p2ser.Backend.Store.View.{View, view, view_value, write, store_value_accepted}
use p2ser.Backend.Store.Snapshot.{
  clone_value, clone_entries, snapshot, go_on, restore_from, committed, restore,
}

-- The value of an entry, or what stood there before.
abbrev over : Option Text → Option Text → Option Text
over none old = old
over (some text) old = some text

over-none : (o : Option Text) → over o none ≡ o
over-none none = refl
over-none (some text) = refl

module _ (gcm : Gcm) where
  get-clone_value :
      (clone : Dict Text) (k j : Text) (o : Option Text)
      → get (clone_value clone k o) j ≡ (if equal k j then over o (get clone j) else get clone j)
  unfolding clone_value
  get-clone_value clone k j none = ground arith
  get-clone_value clone k j (some text) = get-put clone k j text

  get-clone_entries :
      (secret : Text) (clone es : Dict Text) (j : Text)
      → Distinct es
      → get (clone_entries gcm secret clone es) j
        ≡ over (view_value gcm secret (get es j)) (get clone j)
  unfolding clone_entries view_value get
  get-clone_entries secret clone [] j h = refl
  get-clone_entries secret clone ((k, sealed) ∷ es) j (fresh, h) =
      get-clone_entries secret (clone_value clone k (decrypt gcm secret sealed)) es j h
      ∙ elim (Bool-cases (equal k j)) [
        | inl e ↦
            rw
              (
                ap (get es) (sym ((equal_iff k j).0 e)) ∙ fresh,
                get-clone_value clone k j (decrypt gcm secret sealed),
                e,
              )
              refl
        | inr e ↦ rw (get-clone_value clone k j (decrypt gcm secret sealed), e) refl
      ]

module _ (lib : Bolt) (gcm : Gcm) where
  open lib use {Bucket}

  get-snapshot : (f : Fsm Bucket) (k : Text) → get (snapshot lib gcm f) k ≡ view lib gcm f k
  unfolding snapshot get
  get-snapshot f k =
      get-clone_entries gcm f.secret_key [] (lib.entries f.db) k
        (Ascending-Distinct (lib.entries f.db) (lib.entries-Ascending f.db))
      ∙ over-none _
      ∙ ap (view_value gcm f.secret_key) (lib.get-entries f.db k)

  go_on_applied :
      (r : Fsm Bucket × Outcome) (rest : Fsm Bucket → Option (Fsm Bucket))
      → r.1 ≡ applied
      → go_on lib gcm r rest ≡ rest r.0
  unfolding go_on
  go_on_applied (g, applied) rest h = refl
  go_on_applied (g, undecodable) rest h = absurd (ground arith)
  go_on_applied (g, cas_failed v w) rest h = absurd (ground arith)
  go_on_applied (g, no_nonce) rest h = absurd (ground arith)
  go_on_applied (g, bad_key) rest h = absurd (ground arith)

  over-write :
      (m : Dict Text) (v : View) (k text : Text) (j : Text)
      → get m k ≡ none
      → over (get m j) (write v k text j) ≡ over (if equal k j then some text else get m j) (v j)
  over-write m v k text j fresh = elim (Bool-cases (equal k j)) [
    | inl e ↦ rw (ap (get m) (sym ((equal_iff k j).0 e)) ∙ fresh, e) refl
    | inr e ↦ rw e refl
  ]

  -- The restored node reads as the map, over what it read before.
  abbrev Restored : Fsm Bucket → Dict Text → Option (Fsm Bucket) → Type 0
  Restored f m r =
      (g : Fsm Bucket) × (r ≡ some g)
      × ((j : Text) → view lib gcm g j ≡ over (get m j) (view lib gcm f j))

  restore_from_lem :
      (f : Fsm Bucket) (nonces : ℕ → Text) (i : ℕ) (m : Dict Text)
      → ((n : ℕ) → length (nonces n) ≡ gcm.nonce_size)
      → All (λ (e : Text × Text). lib.accepts e.0 ≡ true) m
      → Distinct m
      → Restored f m (restore_from lib gcm f (λ n. some (nonces n)) i m)
  unfolding restore_from get
  restore_from_lem f nonces i [] n a h = (f, refl, λ j. refl)
  restore_from_lem f nonces i ((k, text) ∷ m) n (a, rest) (fresh, h) =
      let r = store_value lib gcm f (some (nonces i)) k text in
      let (result, after) = store_value_accepted lib gcm f (nonces i) k text (n i) a in
      let (g, e, reads) = restore_from_lem r.0 nonces (suc i) m n rest h in
      (
        g,
        go_on_applied r (λ g. restore_from lib gcm g (λ n. some (nonces n)) (suc i) m) result ∙ e,
        λ j.
            reads j
            ∙ ap (over (get m j)) (ap (λ (v : View). v j) after)
            ∙ over-write m (view lib gcm f) k text j fresh,
      )

  view-empty :
      (secret : Text) (j : Text)
      → view lib gcm (record { db = lib.empty; secret_key = secret }) j ≡ none
  unfolding view_value
  view-empty secret j = rw (lib.get-empty j) refl

  -- A node that restores a snapshot, which its reader gives as a map with the same entries, ends
  -- without an error and reads as the node that took the snapshot, whatever it held before and
  -- whatever keys and nonces the two encrypt with. The nonces have their size, and the store
  -- accepts the keys of the map.
  pub restore-snapshot :
      (f g : Fsm Bucket) (nonces : ℕ → Text) (m : Dict Text)
      → ((n : ℕ) → length (nonces n) ≡ gcm.nonce_size)
      → ((k : Text) → get m k ≡ get (snapshot lib gcm f) k)
      → Distinct m
      → All (λ (e : Text × Text). lib.accepts e.0 ≡ true) m
      → ((restore lib gcm g (λ n. some (nonces n)) (some m)).1 ≡ true)
        × (view lib gcm (restore lib gcm g (λ n. some (nonces n)) (some m)).0 ≡ view lib gcm f)
  unfolding restore committed
  restore-snapshot f g nonces m n same h a =
      let start = record g { db = lib.empty } in
      let (last, e, reads) = restore_from_lem start nonces 0 m n a h in
      rw e (
        refl,
        fun_ext λ j.
            reads j
            ∙ ap (over (get m j)) (view-empty g.secret_key j)
            ∙ over-none (get m j)
            ∙ same j
            ∙ get-snapshot f j,
      )
