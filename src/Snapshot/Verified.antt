-- ===== src/Snapshot/Verified.antt =====
-- scripts/storage_snapshot.py: "storage_integrity=ok".
use aries_space.Base.{
  ◌≡◌, refl, sym, ◌∙◌, String, Option, some, List, [], ◌∷◌, length, ◌==◌, str_eq, eq_iff, arith,
  All, inl, inr, Bool-cases, ap,
}
use aries_space.Exec.{Done, Result-cases}
use aries_space.Backend.{Backend, Bytes}
use aries_space.Backend.Laws.{IsLawful}
use aries_space.Snapshot.{Item, Paths, verify_payload, verify}

module _ {T : Type 0} (B : Backend T) (sha256 : Bytes → String) (P : Paths) (L : IsLawful B) where
  open B use {World, object}

  -- The store holds bytes of the item's size and digest.
  abbrev pub IsIntact : (String → String → Option Bytes) → Item → Type 0
  IsIntact o item =
      (p : Bytes) × (o item.bucket item.object_key ≡ some p)
      × (length p ≡ item.size_bytes)
      × (sha256 p ≡ item.sha256)

  verify_payload-Done :
      (payload : Bytes) (item : Item)
      → Done
          (verify_payload sha256 payload item)
          ((length payload ≡ item.size_bytes) × (sha256 payload ≡ item.sha256))
  unfolding verify_payload
  verify_payload-Done payload item = elim (Bool-cases (length payload == item.size_bytes)) [
    | inr h ↦ ground (arith, h)
    | inl h ↦ elim (Bool-cases (str_eq (sha256 payload) item.sha256)) [
      | inr g ↦ ground (arith, h, g)
      | inl g ↦ ground (arith, h, g, eq_iff (sha256 payload) item.sha256)
    ]
  ]

  verify-All :
      (items : List Item) (w : World) (o : String → String → Option Bytes)
      → object w ≡ o
      → Done (verify B P sha256 items w).0 (All (IsIntact o) items)
        × (object (verify B P sha256 items w).1 ≡ o)
  unfolding verify
  verify-All [] w o e = (tt, e)
  verify-All (item ∷ items) w o e =
      let w' = (B.get_object item.bucket item.object_key w).1 in
      let same : object w' ≡ o = (L.get-IsQuiet item.bucket item.object_key w).objects ∙ e in
      let held = L.get-Holds item.bucket item.object_key w in
      elim (Result-cases (B.get_object item.bucket item.object_key w).0) [
        | inr (x, h) ↦ ground (arith, h, same)
        | inl (p, h) ↦
            let got : o item.bucket item.object_key ≡ some p =
              sym (ap (λ f. f item.bucket item.object_key) e) ∙ ground (arith, h, held) in
            let right = verify_payload-Done p item in
            elim (Result-cases (verify_payload sha256 p item)) [
              | inr (x, g) ↦ ground (arith, h, g, same)
              | inl (_, g) ↦ ground (arith, h, g, got, right, verify-All items w' o same)
            ]
      ]

  -- For every lawful store: when `verify` returns, the store holds every listed object with the size and the digest of its
  -- row; whatever it does, no object has changed.
  pub verify-IsIntact :
      (items : List Item) (w : World)
      → Done (verify B P sha256 items w).0 (All (IsIntact (object w)) items)
        × (object (verify B P sha256 items w).1 ≡ object w)
  verify-IsIntact items w = verify-All items w (object w) refl
