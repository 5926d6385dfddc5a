-- ===== src/Sentinel2/Tests.antt =====
-- The theorem on services/api/aries_api/sentinel2_ingest.py at a crop whose commit fails.
use aries_space.Base.{ℕ, none, [], ◌∷◌, true}
use aries_space.Base.Int.{ℤ}
use aries_space.Json.{Json}
use aries_space.Models.{Tables}
use aries_space.Backend.{Runtime}
use aries_space.Backend.Memory.{Memory, memory, memory-IsLawful}
use aries_space.Sentinel2.{SceneSettings, scene_registry, ingest_sentinel2_crop}
use aries_space.Sentinel2.Errors.{IsServedFrom, ingest_sentinel2_crop-IsServed}

abbrev runtime : Runtime Json ℤ
runtime = record {
  sha256 = λ p. "d";
  dumps = λ j. [];
  dumps_text = λ j. "";
  str_of = λ n. "n";
  read_int = λ s. none;
  fromisoformat = λ s. none;
}

abbrev settings : SceneSettings
settings = record {
  item_id = "S2A";
  band_hrefs = [];
  window = record { col_off = 0; row_off = 0; width = 8; height = 8 };
  observed_at = 1;
  fixture_path = none;
}

abbrev world : Memory (Tables ℕ)
world = record {
  objects = λ _ _. none;
  pending = record {
    datasets = [];
    observations = [];
    workloads = [];
    targets = [];
    pairs = [];
    runs = [];
  };
  durable = record {
    datasets = [];
    observations = [];
    workloads = [];
    targets = [];
    pairs = [];
    runs = [];
  };
  clock = 9;
  broken = true;
}

ingest_sentinel2_crop-IsServed_example :
    IsServedFrom memory runtime
      (λ n. "n")
      memory-IsLawful
      world
      (ingest_sentinel2_crop memory runtime
        (λ n. "n")
        (λ s. s)
        (scene_registry settings settings)
        (1 ∷ [])
        2
        world)
ingest_sentinel2_crop-IsServed_example =
    ingest_sentinel2_crop-IsServed memory runtime (λ n. "n") memory-IsLawful (λ s. s)
      (scene_registry settings settings) (1 ∷ []) 2 world
