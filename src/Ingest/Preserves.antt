-- ===== src/Ingest/Preserves.antt =====
-- An ingestion keeps every object that is stored: services/api/aries_api/ingest.py.
use aries_space.Base.{
  Bool, true, false, ◌≡◌, refl, sym, ap, subst, ◌∙◌, ◌&&◌, String, Option, none, some, length,
  str_eq, eq_iff, arith, Bool-cases, inl, inr,
}
use aries_space.Base.Int.{ℤ}
use aries_space.Exn.{Exn, ingest_unavailable}
use aries_space.Exec.{Result, ok, err, Done, Done-map, exception, Result-cases}
use aries_space.Json.{Json}
use aries_space.Models.{Dataset, Tables}
use aries_space.Backend.{Backend, Runtime, Bytes}
use aries_space.Backend.Laws.{IsLawful, IsQuiet}
use aries_space.Storage.{minio_raw_bucket}
use aries_space.Normalize.{NormalizedObservation}
use aries_space.Ingest.{IngestResult, ensure_object, record_dataset, ingest_new, satnogs_key}
use aries_space.Ingest.Commit.{
  IsClean, record_dataset-committed, record_dataset_cleanup, record_dataset-others,
}
use aries_space.Ingest.Upload.{ensure_object-created, ensure_object-Kept, ensure_object-keeps}

IsClean-false :
    {A : Type 0} (r : Result A) (before after : Option Bytes)
    → IsClean false before (exception r) after
    → Done r (after ≡ before)
    → after ≡ before
IsClean-false (ok a) before after h same = same
IsClean-false (err (ingest_unavailable s)) before after h same = h
IsClean-false (err _) before after h same = absurd h

module _ {F : Type 0} (B : Backend (Tables F)) (R : Runtime Json ℤ) (L : IsLawful B) where
  open B use {World, object, pending, durable}

  -- What the object store holds in `w` it still holds in `u`, unchanged.
  pub record Preserves (w u : World) : Type 0 where
    pub at : (b k : String) (q : Bytes) → object w b k ≡ some q → object u b k ≡ some q

  pub quiet-Preserves : (w u : World) → IsQuiet B w u → Preserves w u
  quiet-Preserves w u q = record { at = λ b k p e. ap (λ f. f b k) q.objects ∙ e }

  pub Preserves-trans : (u v w : World) → Preserves u v → Preserves v w → Preserves u w
  Preserves-trans u v w p q = record { at = λ b k o e. q.at b k o (p.at b k o e) }

  -- From what happens under one key and under the others.
  Preserves-key :
      (w u : World) (key : String)
      → ((b' k' : String)
          → (str_eq minio_raw_bucket b' && str_eq key k') ≡ false
          → object u b' k' ≡ object w b' k')
      → ((q : Bytes)
          → object w minio_raw_bucket key ≡ some q
          → object u minio_raw_bucket key ≡ some q)
      → Preserves w u
  Preserves-key w u key others self = record {
    at = λ b k q e. elim (Bool-cases (str_eq minio_raw_bucket b && str_eq key k)) [
      | inl same ↦ ground (arith, self q, eq_iff minio_raw_bucket b, eq_iff key k, same)
      | inr differ ↦ others b k differ ∙ e
    ];
  }

  pub ensure_object-Preserves :
      (k : String) (p : Bytes) (digest : String) (w : World)
      → Preserves w (ensure_object B R k p digest w).1
  ensure_object-Preserves k p digest w =
      Preserves-key w (ensure_object B R k p digest w).1 k
        (ensure_object-Kept B R L k p digest w).others
        (λ q. ensure_object-keeps B R L k p q digest w)

  -- Recording takes away at most the object that the same ingestion, begun at `v`, has put.
  pub record_dataset-Preserves :
      (d : Dataset) (n : NormalizedObservation) (c : Bool) (v w : World)
      → Preserves v w
      → (c ≡ true → object v minio_raw_bucket d.object_key ≡ none)
      → Preserves v (record_dataset B R d n c w).1
  record_dataset-Preserves d n true v w kept fresh = record {
    at = λ b k q e. elim (Bool-cases (str_eq minio_raw_bucket b && str_eq d.object_key k)) [
      | inl same ↦
          ground (arith, fresh refl, eq_iff minio_raw_bucket b, eq_iff d.object_key k, same)
      | inr differ ↦ record_dataset-others B R L d n true w b k differ ∙ kept.at b k q e
    ];
  }
  record_dataset-Preserves d n false v w kept fresh =
      let r = (record_dataset B R d n false w).0 in
      let u = (record_dataset B R d n false w).1 in
      Preserves-trans v w u kept (
        Preserves-key w u d.object_key (record_dataset-others B R L d n false w) (λ q there.
          IsClean-false r (object w minio_raw_bucket d.object_key)
            (object u minio_raw_bucket d.object_key) (record_dataset_cleanup B R L d n false w)
            (Done-map r (λ x. ap (λ f. f minio_raw_bucket d.object_key) x.3)
              (record_dataset-committed B R L d n false w))
          ∙ there))

  -- The dataset that `ingest_new` records.
  abbrev pub new_row : NormalizedObservation → ℤ → String → Bytes → World → Dataset
  new_row n norad_id external_id payload w = record {
    id = B.next_id w;
    source = "satnogs";
    external_id = external_id;
    observed_at = n.timestamp;
    size_bytes = length payload;
    object_key = satnogs_key B R norad_id external_id;
    sha256 = R.sha256 payload;
    ingested_at = B.now w;
    satellite_norad_id = some norad_id;
    aoi_id = none;
  }

  module _ (n : NormalizedObservation) (norad_id : ℤ) (external_id : String) (payload : Bytes)
      (w : World) where
    abbrev pub put : Result Bool × World
    put = ensure_object B R (satnogs_key B R norad_id external_id) payload (R.sha256 payload) w

    -- `ingest_new` is its upload and, if that returns, the recording.
    pub ingest_new_cases :
        (P : Result IngestResult × World → Type 0)
        → ((e : Exn) → put.0 ≡ err e → P (err e, put.1))
        → ((c : Bool)
            → put.0 ≡ ok c
            → P (record_dataset B R (new_row n norad_id external_id payload put.1) n c put.1))
        → P (ingest_new B R n norad_id external_id payload w)
    unfolding ingest_new
    ingest_new_cases P failed recorded = elim (Result-cases put.0) [
      | inl (c, e) ↦
          let value : ingest_new B R n norad_id external_id payload w
              ≡ record_dataset B R (new_row n norad_id external_id payload put.1) n c put.1 =
            ground (arith, e) in
          subst P (sym value) (recorded c e)
      | inr (x, e) ↦
          let value : ingest_new B R n norad_id external_id payload w ≡ (err x, put.1) =
            ground (arith, e) in
          subst P (sym value) (failed x e)
    ]

    pub ingest_new-Preserves : Preserves w (ingest_new B R n norad_id external_id payload w).1
    ingest_new-Preserves =
        let key = satnogs_key B R norad_id external_id in
        let first = ensure_object-Preserves key payload (R.sha256 payload) w in
        ingest_new_cases (λ (_, u). Preserves w u) (λ _ _. first)
          (λ c e.
            record_dataset-Preserves (new_row n norad_id external_id payload put.1) n c w put.1
              first
              (λ created.
                ensure_object-created B R L key payload (R.sha256 payload) w (e ∙ ap ok created)))
