-- ===== src/Snapshot/RoundTrip.antt =====
-- scripts/storage_snapshot.py: what is backed up from one store and restored to another.
use aries_space.Base.{
  ℕ, ◌==◌, not, ◌≡◌, refl, sym, ◌∙◌, subst, ap, String, Option, none, some, List, [], ◌∷◌, Bool,
  true, false, ◌&&◌, str_eq, eq_iff, arith, All, inl, inr, Bool-cases, if◌then◌else◌,
}
use aries_space.Exec.{
  Exec, Result, ok, Done, Done_of, Done-map, Returned, pure, lift, or_raise, raise_if, ◌>>=◌, ◌>>◌,
  >>=-follows,
}
use aries_space.Exn.{Exn, os_error, value_error}
use aries_space.Backend.{Backend, Bytes}
use aries_space.Backend.Laws.{IsLawful}
use aries_space.Snapshot.{
  Item, Paths, Files, safe_path, verify_payload, read_file, backup, restore_items, restore, verify,
}
use aries_space.Snapshot.Verified.{verify-IsIntact}
use aries_space.Snapshot.Saved.{Objects, AllCanonical, Faithful, safe_path-parts, backup-Faithful}

module _ {T : Type 0} (B : Backend T) (P : Paths) (sha256 : Bytes → String) (L : IsLawful B)
    (text : List String → String) where
  open B use {World, object}

  -- What the store has of an object is what it should have.
  abbrev Agrees : Objects → World → String → String → Type 0
  Agrees o w b k = object w b k ≡ o b k

  and_true : (a b : Bool) → (a && b) ≡ true → (a ≡ true) × (b ≡ true)
  and_true a b h = ground (arith, h)

  Agrees-put :
      (o : Objects) (b k : String) (p : Bytes) (m : String) (w : World) (u : Unit {0})
      → o b k ≡ some p
      → (B.put_object b k p m w).0 ≡ ok u
      → Agrees o (B.put_object b k p m w).1 b k
        × ((b' k' : String) → Agrees o w b' k' → Agrees o (B.put_object b k p m w).1 b' k')
  Agrees-put o b k p m w u held f =
      let v = (B.put_object b k p m w).1 in
      let written = L.put-Written b k p m w in
      let new : Agrees o v b k = ground (arith, f, written) ∙ sym held in
      (
        new,
        λ b' k' g. elim (Bool-cases (str_eq b b' && str_eq k k')) [
          | inr ne ↦ L.put-others b k p m w b' k' ne ∙ g
          | inl e ↦
              let same = and_true (str_eq b b') (str_eq k k') e in
              subst (λ c. Agrees o v c k') ((eq_iff b b').0 same.0)
                (subst (λ c. Agrees o v b c) ((eq_iff k k').0 same.1) new)
        ],
      )

  or_raise-some :
      {A : Type 0} (r : Option A) (e : Exn) (w : World) (a : A)
      → (or_raise r e w).0 ≡ ok a
      → r ≡ some a
  or_raise-some r e w a h = ground (arith, h)

  or_raise-state : {A : Type 0} (r : Option A) (e : Exn) (w : World) → (or_raise r e w).1 ≡ w
  or_raise-state none e w = refl
  or_raise-state (some a) e w = refl

  make_bucket-quiet :
      (there : Bool) (b : String) (w : World)
      → object ((if there then pure tt else B.make_bucket b) w).1 ≡ object w
  make_bucket-quiet true b w = refl
  make_bucket-quiet false b w = (L.make-IsQuiet b w).objects

  -- The items are as they should be, and what was stays.
  abbrev Shows : Objects → List Item → World → Objects → Type 0
  Shows o items w f =
      All (λ item. f item.bucket item.object_key ≡ o item.bucket item.object_key) items
      × ((b k : String) → object w b k ≡ o b k → f b k ≡ o b k)

  abbrev pub IsRestored : Objects → List Item → World → World → Type 0
  IsRestored o items w v = Shows o items w (object v)

  -- One item and then the rest.
  put-IsRestored :
      (o : Objects) (item : Item) (items : List Item) (w v : World) (p : Bytes)
      (rest : Exec World (Unit {0}))
      → object v ≡ object w
      → o item.bucket item.object_key ≡ some p
      → ((x : World) → Done (rest x).0 (IsRestored o items x (rest x).1))
      → Done ((B.put_object item.bucket item.object_key p item.sha256 >> rest) v).0 (
          IsRestored o
            (item ∷ items)
            w
            ((B.put_object item.bucket item.object_key p item.sha256 >> rest) v).1)
  put-IsRestored o item items w v p rest same held h =
      let b = item.bucket in
      let k = item.object_key in
      let put : Exec World (Unit {0}) = B.put_object b k p item.sha256 in
      let Q : Result (Unit {0}) × World → Type 0 =
        λ r. Done r.0 (IsRestored o (item ∷ items) w r.1) in
      >>=-follows Q put (λ u. rest) v (λ e x. tt)
        λ u done.
          let (placed, stays) = Agrees-put o b k p item.sha256 v u held done in
          Done-map (rest (put v).1).0
            (λ r. (
              (r.1 b k placed, r.0),
              λ b' k' g. r.1 b' k' (stays b' k' (ap (λ f. f b' k') same ∙ g)),
            ))
            (h (put v).1)

  restore_items-IsRestored :
      (o : Objects) (items : List Item) (files : Files) (w : World)
      → AllCanonical B P sha256 L text items
      → Faithful B P sha256 L text o files
      → Done
          (restore_items B P sha256 items files w).0
          (IsRestored o items w (restore_items B P sha256 items files w).1)
  unfolding restore_items
  restore_items-IsRestored o [] files w cs h = (tt, λ b k g. g)
  restore_items-IsRestored o (item ∷ items) files w (c, cs) h =
      let b = item.bucket in
      let k = item.object_key in
      let E : Type 0 = Exec World (Unit {0}) in
      let Q : Result (Unit {0}) × World → Type 0 =
        λ r. Done r.0 (IsRestored o (item ∷ items) w r.1) in
      let rest : E = restore_items B P sha256 items files in
      let put : Bytes → E = λ p. B.put_object b k p item.sha256 in
      let make : Bool → E = λ there. if there then pure tt else B.make_bucket b in
      let upload : Bytes → Bool → E = λ p there. make there >> (put p >> rest) in
      let look : Bytes → E = λ p. B.bucket_exists b >>= upload p in
      let check : Bytes → E = λ p. lift (verify_payload sha256 p item) >> look p in
      let read : List String → E = λ ps. or_raise (read_file b ps files) os_error >>= check in
      >>=-follows Q (lift (safe_path P k)) read w (λ x v. tt)
        λ ps safe.
          >>=-follows Q (or_raise (read_file b ps files) os_error) check w (λ x v. tt)
            λ p got.
              let w0 = (or_raise {W = World} (read_file b ps files) os_error w).1 in
              let w1 = (B.bucket_exists b w0).1 in
              >>=-follows Q (lift (verify_payload sha256 p item)) (λ u. look p) w0 (λ x v. tt)
                λ u checked.
                  >>=-follows Q (B.bucket_exists b) (upload p) w0 (λ x v. tt)
                    λ there asked.
                      >>=-follows Q (make there) (λ u. put p >> rest) w1 (λ x v. tt)
                        λ u made.
                          let w2 = (make there w1).1 in
                          let same : object w2 ≡ object w =
                            make_bucket-quiet there b w1
                            ∙ (L.exists-IsQuiet b w0).objects
                            ∙ ap object (or_raise-state (read_file b ps files) os_error w) in
                          let read_back = or_raise-some (read_file b ps files) os_error w p got in
                          let held : o b k ≡ some p = h b k p c (
                            subst (λ qs. read_file b qs files ≡ some p)
                              (safe_path-parts B P sha256 L text k ps safe) read_back) in
                          put-IsRestored o item items w w2 p rest same held
                            (λ v. restore_items-IsRestored o items files v cs h)

  raise_if-keeps : (b : Bool) (e : Exn) (w : World) → object (raise_if b e w).1 ≡ object w
  raise_if-keeps true e w = refl
  raise_if-keeps false e w = refl

  verify-keeps : (items : List Item) (w : World) → object (verify B P sha256 items w).1 ≡ object w
  verify-keeps items w = (verify-IsIntact B sha256 P L items w).1

  -- For every lawful store: when a backup of listed objects, whose keys are the texts of their paths,
  -- returned its files, a restore of the list from them into any state of the store, when it returns,
  -- leaves each listed object as it was when the backup began; and every object of that state that was
  -- already as it was then is so still.
  pub restore-RoundTrip :
      (items datasets : List Item) (version : ℕ) (from to : World) (files : Files)
      → AllCanonical B P sha256 L text items
      → (backup B P sha256 items [] from).0 ≡ ok files
      → Done
          (restore B P sha256 version items datasets files to).0
          (IsRestored (object from) items to (restore B P sha256 version items datasets files to).1)
  unfolding read_file restore
  restore-RoundTrip items datasets version from to files cs e =
      let o : Objects = object from in
      let Q : Result (Unit {0}) × World → Type 0 = λ r. Done r.0 (IsRestored o items to r.1) in
      let bad : Bool = not (version == 1) in
      let v : World = (raise_if bad value_error to).1 in
      let final : Exec World (Unit {0}) = verify B P sha256 datasets in
      let load : Exec World (Unit {0}) = restore_items B P sha256 items files in
      let empty : Faithful B P sha256 L text o [] = λ b k p c g. ground (arith, g) in
      let saved = backup-Faithful B P sha256 L text o items [] from cs refl empty in
      let faithful : Faithful B P sha256 L text o files =
        subst (λ r. Returned r (Faithful B P sha256 L text o)) e saved in
      >>=-follows Q (raise_if bad value_error) (λ u. load >> final) to (λ x w. tt)
        λ u right.
          >>=-follows Q load (λ u. final) v (λ x w. tt)
            λ u' done.
              let loaded = restore_items-IsRestored o items files v cs faithful in
              let (held, kept) : IsRestored o items v (load v).1 =
                subst (λ r. Done r (IsRestored o items v (load v).1)) done loaded in
              let start : object v ≡ object to = raise_if-keeps bad value_error to in
              let here : IsRestored o items to (load v).1 =
                (held, λ b k g. kept b k (ap (λ f. f b k) start ∙ g)) in
              Done_of (final (load v).1).0
                (subst (λ f. Shows o items to f) (sym (verify-keeps datasets (load v).1)) here)
