-- ===== src/Backend.antt =====
-- What the program calls and does not contain: the MinIO client (services/api/aries_api/storage.py
-- wraps it), the SQLAlchemy session of services/api/aries_api/db.py, the clock and the log.
pub mod Laws
pub mod Reads
pub mod Memory
use aries_space.Base.{ℕ, Bool, String, Option, List}
use aries_space.Exec.{Exec, gets, ◌>>=◌, ◌>>◌}

abbrev pub Bytes : Type 0
Bytes = List ℕ

-- What `stat_object` answers.
pub record ObjectStat : Type 0 where
  pub size : ℕ
  pub metadata_sha256 : Option String

-- `T` is the type of the tables. The first three fields are views, for stating laws: what the object
-- store holds under a bucket and a key, what the session reads, and what is committed.
pub record Backend (T : Type 0) : Type 1 where
  pub World : Type 0
  pub object : World → String → String → Option Bytes
  pub pending : World → T
  pub durable : World → T
  -- minio.Minio
  pub bucket_exists : String → Exec World Bool
  pub make_bucket : String → Exec World (Unit {0})
  pub put_object : String → String → Bytes → String → Exec World (Unit {0})
  pub stat_object : String → String → Exec World ObjectStat
  pub get_object : String → String → Exec World Bytes
  pub remove_object : String → String → Exec World (Unit {0})
  -- sqlalchemy.orm.Session: a query is sent and answered, or raises; the writes that are not sent yet, the transaction, and the key that the
  -- database gives the next row
  pub read : Exec World (Unit {0})
  pub write : (T → T) → World → World
  pub next_id : World → ℕ
  pub flush : Exec World (Unit {0})
  pub commit : Exec World (Unit {0})
  pub rollback : World → World
  pub advisory_lock : String → Exec World (Unit {0})
  pub is_postgresql : Bool
  -- `datetime.now(timezone.utc)`, `uuid.uuid4()`, `logger.error`
  pub now : World → ℕ
  pub uuid4 : World → String
  pub log_error : String → World → World

-- `session.get`, `session.scalar` and `session.execute` of a SELECT: what the session reads then.
abbrev pub select : {T A : Type 0} (B : Backend T) → (T → A) → Exec B.World A
select B f = B.read >> gets (λ w. f (B.pending w))

-- Functions of the runtime: `hashlib.sha256(p).hexdigest()`, `json.dumps`, `str(n)`, `int(s)` and
-- `datetime.fromisoformat` of a text.
pub record Runtime (J : Type 0) (Z : Type 0) : Type 0 where
  pub sha256 : Bytes → String
  pub dumps : J → Bytes
  pub dumps_text : J → String
  pub str_of : Z → String
  pub read_int : String → Option Z
  pub fromisoformat : String → Option ℕ
