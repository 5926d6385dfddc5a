-- ===== src/Workloads/PayloadProxy/Anomaly.antt =====
-- services/api/aries_api/workloads/satnogs_payload_proxy.py: which payloads are anomalous.
use aries_space.Base.{ℕ, count}
use aries_space.Json.{Json, Fields}
use aries_space.Workloads.PayloadProxy.{found_fields}

-- How many of the five fields a payload has.
abbrev pub found : Fields → ℕ
found raw = count (λ b. b) (found_fields raw)
