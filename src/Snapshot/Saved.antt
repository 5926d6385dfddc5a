-- ===== src/Snapshot/Saved.antt =====
-- scripts/storage_snapshot.py: the files that `backup` leaves hold the objects.
use aries_space.Base.{
  ◌≡◌, refl, sym, ◌∙◌, subst, ap, String, Option, some, List, [], ◌∷◌, true, str_eq, eq_iff, arith,
  All, inl, inr, Bool-cases,
}
use aries_space.Exec.{Exec, Result, ok, Returned, lift, ◌>>=◌, ◌>>◌, >>=-follows}
use aries_space.Backend.{Backend, Bytes}
use aries_space.Backend.Laws.{IsLawful}
use aries_space.Snapshot.{
  Item, Paths, Files, safe_path, verify_payload, same_parts, read_file, backup,
}

-- The objects of a store by bucket and key.
abbrev pub Objects : Type 0
Objects = String → String → Option Bytes

same_parts-eq : (ps qs : List String) → same_parts ps qs ≡ true → ps ≡ qs
unfolding same_parts
same_parts-eq [] [] h = refl
same_parts-eq [] (q ∷ qs) h = ground (arith, h)
same_parts-eq (p ∷ ps) [] h = ground (arith, h)
same_parts-eq (p ∷ ps) (q ∷ qs) h = elim (Bool-cases (str_eq p q)) [
  | inr g ↦ ground (arith, g, h)
  | inl g ↦
      let rest : same_parts ps qs ≡ true = ground (arith, g, h) in
      ap (λ x. x ∷ ps) ((eq_iff p q).0 g) ∙ ap (λ xs. q ∷ xs) (same_parts-eq ps qs rest)
]

module _ {T : Type 0} (B : Backend T) (P : Paths) (sha256 : Bytes → String) (L : IsLawful B)
    (text : List String → String) where
  open B use {World, object}

  -- A key that is the text of its path: no slash is repeated and no part is a dot.
  abbrev pub IsCanonical : String → Type 0
  IsCanonical key = text (P.parts key) ≡ key

  same_key :
      (j k : String)
      → IsCanonical j
      → IsCanonical k
      → same_parts (P.parts j) (P.parts k) ≡ true
      → j ≡ k
  same_key j k c d h = sym c ∙ ap text (same_parts-eq (P.parts j) (P.parts k) h) ∙ d

  abbrev pub AllCanonical : List Item → Type 0
  AllCanonical = All (λ item. IsCanonical item.object_key)

  -- A file that is read for a key has the object's bytes.
  abbrev pub Faithful : Objects → Files → Type 0
  Faithful o files =
      (b k : String) (p : Bytes)
      → IsCanonical k
      → read_file b (P.parts k) files ≡ some p
      → o b k ≡ some p

  pub safe_path-parts : (k : String) (ps : List String) → safe_path P k ≡ ok ps → ps ≡ P.parts k
  unfolding safe_path
  safe_path-parts k ps h = ground (arith, h)

  Faithful-add :
      (o : Objects) (files : Files) (bucket key : String) (payload : Bytes)
      → IsCanonical key
      → o bucket key ≡ some payload
      → Faithful o files
      → Faithful o ((bucket, P.parts key, payload) ∷ files)
  unfolding read_file
  Faithful-add o files bucket key payload c held h b k p d found =
      elim (Bool-cases (str_eq bucket b)) [
        | inr e ↦ h b k p d (ground (arith, found, e))
        | inl e ↦ elim (Bool-cases (same_parts (P.parts key) (P.parts k))) [
          | inr g ↦ h b k p d (ground (arith, found, e, g))
          | inl g ↦
              let same_bucket : bucket ≡ b = (eq_iff bucket b).0 e in
              let key_eq : key ≡ k = same_key key k c d g in
              let same : payload ≡ p = ground (arith, found, e, g) in
              ground (arith, held, same_bucket, key_eq, same)
        ]
      ]

  get_object-held :
      (b k : String) (o : Objects) (w : World) (p : Bytes)
      → object w ≡ o
      → (B.get_object b k w).0 ≡ ok p
      → o b k ≡ some p
  get_object-held b k o w p e h =
      let held = L.get-Holds b k w in sym (ap (λ f. f b k) e) ∙ ground (arith, h, held)

  pub backup-Faithful :
      (o : Objects) (items : List Item) (files : Files) (w : World)
      → AllCanonical items
      → object w ≡ o
      → Faithful o files
      → Returned (backup B P sha256 items files w).0 (Faithful o)
  unfolding backup
  backup-Faithful o [] files w cs e h = h
  backup-Faithful o (item ∷ items) files w (c, cs) e h =
      let b = item.bucket in
      let k = item.object_key in
      let w' = (B.get_object b k w).1 in
      let same : object w' ≡ o = (L.get-IsQuiet b k w).objects ∙ e in
      let Q : Result Files × World → Type 0 = λ r. Returned r.0 (Faithful o) in
      let add : Bytes → List String → Exec World Files =
        λ p ps. backup B P sha256 items ((b, ps, p) ∷ files) in
      let place : Bytes → Exec World Files = λ p. lift (safe_path P k) >>= add p in
      let check : Bytes → Exec World Files = λ p. lift (verify_payload sha256 p item) >> place p in
      >>=-follows Q (B.get_object b k) check w (λ x v. tt)
        λ p got.
          >>=-follows Q (lift (verify_payload sha256 p item)) (λ u. place p) w' (λ x v. tt)
            λ u checked.
              >>=-follows Q (lift (safe_path P k)) (add p) w' (λ x v. tt)
                λ ps safe.
                  let held = get_object-held b k o w p e got in
                  let added = Faithful-add o files b k p c held h in
                  backup-Faithful o items ((b, ps, p) ∷ files) w' cs same (
                    subst (λ qs. Faithful o ((b, qs, p) ∷ files)) (sym (safe_path-parts k ps safe))
                      added)
