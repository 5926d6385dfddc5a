-- ===== src/Snapshot/Tests.antt =====
-- The theorem on scripts/storage_snapshot.py at one object.
use aries_space.Base.{ℕ, ◌≡◌, List, [], ◌∷◌, some, none, false, String, refl, All}
use aries_space.Exec.{Done, ok}
use aries_space.Backend.Memory.{Memory, memory, memory-IsLawful}
use aries_space.Snapshot.{
  Item, Paths, Files, backup, restore, restore_items, verify, verify_payload, safe_path, read_file,
}
use aries_space.Snapshot.RoundTrip.{IsRestored, restore-RoundTrip}
use aries_space.Snapshot.Verified.{IsIntact, verify-IsIntact}

abbrev paths : Paths
paths = record { is_absolute = λ k. false; parts = λ k. k ∷ [] }

abbrev items : List Item
items = record { bucket = "raw"; object_key = "k"; size_bytes = 2; sha256 = "d" } ∷ []

abbrev world : Memory ℕ
world = record {
  objects = λ _ _. some (1 ∷ 2 ∷ []);
  pending = 0;
  durable = 0;
  clock = 9;
  broken = false;
}

verify-IsIntact_example :
    Done
      (verify memory paths (λ p. "d") items world).0
      (All (IsIntact {T = ℕ} memory (λ p. "d") paths memory-IsLawful world.objects) items)
    × ((verify memory paths (λ p. "d") items world).1.objects ≡ world.objects)
verify-IsIntact_example = verify-IsIntact memory (λ p. "d") paths memory-IsLawful items world

abbrev text : List String → String
text [] = ""
text (p ∷ ps) = p

abbrev files : Files
files = ("raw", "k" ∷ [], 1 ∷ 2 ∷ []) ∷ []

abbrev fresh : Memory ℕ
fresh = record world { objects = λ _ _. none }

saved : (backup memory paths (λ p. "d") items [] world).0 ≡ ok files
unfolding backup verify_payload safe_path
saved = refl

restore-RoundTrip_example : Done (restore memory paths (λ p. "d") 1 items items files fresh).0 (
    IsRestored {T = ℕ} memory paths
      (λ p. "d")
      memory-IsLawful
      text
      world.objects
      items
      fresh
      (restore memory paths (λ p. "d") 1 items items files fresh).1)
restore-RoundTrip_example =
    restore-RoundTrip memory paths (λ p. "d") memory-IsLawful text items items 1 world fresh files
      (refl, tt) saved

-- The restore returns.
returns : (restore memory paths (λ p. "d") 1 items items files fresh).0 ≡ ok tt
unfolding restore restore_items verify verify_payload safe_path read_file
returns = refl
