-- ===== src/Backend/Memory.antt =====
-- A backend in memory that meets the laws: objects by bucket and key, and tables with one open
-- transaction. `broken` makes the next commits raise.
use aries_space.Base.{
  ℕ, ◌≡◌, refl, Bool, true, ◌&&◌, String, Option, none, some, length, str_eq, eq_refl, arith,
  if◌then◌else◌,
}
use aries_space.Exn.{sqlalchemy_error, s3_error}
use aries_space.Exec.{Result, ok, err, Exec}
use aries_space.Backend.{Backend, Bytes, ObjectStat}
use aries_space.Backend.Laws.{IsLawful, IsQuiet, Holds, Sized}

pub record Memory (T : Type 0) : Type 0 where
  pub objects : String → String → Option Bytes
  pub pending : T
  pub durable : T
  pub clock : ℕ
  pub broken : Bool

abbrev pub store :
    String
    → String
    → Option Bytes
    → (String → String → Option Bytes)
    → String
    → String
    → Option Bytes
store b k o objects b' k' = if str_eq b b' && str_eq k k' then o else objects b' k'

abbrev found : Option Bytes → Result ObjectStat
found none = err (s3_error "NoSuchKey")
found (some p) = ok (record { size = length p; metadata_sha256 = none })

abbrev fetched : Option Bytes → Result Bytes
fetched none = err (s3_error "NoSuchKey")
fetched (some p) = ok p

found-Sized : (o : Option Bytes) → Sized o (found o)
found-Sized none = tt
found-Sized (some p) = refl

fetched-Holds : (o : Option Bytes) → Holds o (fetched o)
fetched-Holds none = tt
fetched-Holds (some p) = refl

store_self :
    (b k : String) (o : Option Bytes) (objects : String → String → Option Bytes)
    → store b k o objects b k ≡ o
store_self b k o objects = ground (arith, eq_refl b, eq_refl k)

module _ {T : Type 0} where
  abbrev commit : Exec (Memory T) (Unit {0})
  commit w =
      if w.broken then (err sqlalchemy_error, w) else (ok tt, record w { durable = w.pending })

  abbrev pub memory : Backend T
  memory = record {
    World = Memory T;
    object = λ w. w.objects;
    pending = λ w. w.pending;
    durable = λ w. w.durable;
    bucket_exists = λ b w. (ok true, w);
    make_bucket = λ b w. (ok tt, w);
    put_object = λ b k p m w. (ok tt, record w { objects = store b k (some p) w.objects });
    stat_object = λ b k w. (found (w.objects b k), w);
    get_object = λ b k w. (fetched (w.objects b k), w);
    remove_object = λ b k w. (ok tt, record w { objects = store b k none w.objects });
    read = λ w. (ok tt, w);
    write = λ f w. record w { pending = f w.pending };
    next_id = λ w. w.clock;
    flush = λ w. (ok tt, w);
    commit = commit;
    rollback = λ w. record w { pending = w.durable };
    advisory_lock = λ s w. (ok tt, w);
    is_postgresql = true;
    now = λ w. w.clock;
    uuid4 = λ w. "uuid";
    log_error = λ s w. w;
  }

  quiet : (w : Memory T) → IsQuiet memory w w
  quiet w = record { objects = refl; tables = refl; committed = refl }

  pub memory-IsLawful : IsLawful memory
  memory-IsLawful = record {
    exists-IsQuiet = λ b w. quiet w;
    make-IsQuiet = λ b w. quiet w;
    stat-IsQuiet = λ b k w. quiet w;
    stat-Sized = λ b k w. found-Sized (w.objects b k);
    get-IsQuiet = λ b k w. quiet w;
    get-Holds = λ b k w. fetched-Holds (w.objects b k);
    put-Written = λ b k p m w. store_self b k (some p) w.objects;
    put-others = λ b k p m w b' k' ne. ground (arith, ne);
    put-pending = λ b k p m w. refl;
    put-durable = λ b k p m w. refl;
    remove-Written = λ b k w. store_self b k none w.objects;
    remove-others = λ b k w b' k' ne. ground (arith, ne);
    remove-pending = λ b k w. refl;
    remove-durable = λ b k w. refl;
    write-pending = λ f w. refl;
    write-durable = λ f w. refl;
    write-object = λ f w. refl;
    read-IsQuiet = λ w. quiet w;
    read-error = λ w. tt;
    lock-error = λ s w. tt;
    flush-IsQuiet = λ w. quiet w;
    flush-error = λ w. tt;
    commit-error = λ w. ground arith;
    commit-object = λ w. ground arith;
    commit-pending = λ w. ground arith;
    commit-durable = λ w. ground arith;
    rollback-object = λ w. refl;
    rollback-pending = λ w. refl;
    rollback-durable = λ w. refl;
    lock-IsQuiet = λ s w. quiet w;
    log-IsQuiet = λ s w. quiet w;
  }
