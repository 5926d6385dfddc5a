-- ===== src/Backend/Laws.antt =====
-- Documented behaviour of the object store and of a database session, which the program relies on.
use aries_space.Base.{◌≡◌, false, String, Option, none, some, length, str_eq, ◌&&◌, ◌⊎◌}
use aries_space.Exec.{Result, ok, err}
use aries_space.Exn.{is_not_found, sqlalchemy_error}
use aries_space.Storage.{stat_error}
use aries_space.Backend.{Backend, Bytes, ObjectStat}

-- What an answer of `get_object` or `stat_object` says of the object.
abbrev pub Holds : Option Bytes → Result Bytes → Type 0
Holds o (ok p) = o ≡ some p
Holds o (err _) = Unit

-- An object that is there is not reported as missing.
abbrev pub Sized : Option Bytes → Result ObjectStat → Type 0
Sized none (ok i) = ⊥
Sized none (err _) = Unit
Sized (some p) (ok i) = length p ≡ i.size
Sized (some p) (err e) = is_not_found (stat_error "" e) ≡ false

-- A write that returned is there; one that raised may have been done or not.
abbrev pub Written : Result (Unit {0}) → Option Bytes → Option Bytes → Option Bytes → Type 0
Written (ok _) new before after = after ≡ new
Written (err _) new before after = (after ≡ new) ⊎ (after ≡ before)

-- A session's calls raise `SQLAlchemyError` and nothing else.
abbrev pub OnlySqlalchemy : Result (Unit {0}) → Type 0
OnlySqlalchemy (ok _) = Unit
OnlySqlalchemy (err e) = e ≡ sqlalchemy_error

module _ {T : Type 0} (B : Backend T) where
  open B use {World, object, pending, durable}

  -- A call that changes nothing that the views show.
  pub record IsQuiet (w w' : World) : Type 0 where
    pub objects : object w' ≡ object w
    pub tables : pending w' ≡ pending w
    pub committed : durable w' ≡ durable w

  pub record IsLawful : Type 0 where
    -- the store: reads and new buckets change no object, and reads say what is there
    pub exists-IsQuiet : (b : String) (w : World) → IsQuiet w (B.bucket_exists b w).1
    pub make-IsQuiet : (b : String) (w : World) → IsQuiet w (B.make_bucket b w).1
    pub stat-IsQuiet : (b k : String) (w : World) → IsQuiet w (B.stat_object b k w).1
    pub stat-Sized : (b k : String) (w : World) → Sized (object w b k) (B.stat_object b k w).0
    pub get-IsQuiet : (b k : String) (w : World) → IsQuiet w (B.get_object b k w).1
    pub get-Holds : (b k : String) (w : World) → Holds (object w b k) (B.get_object b k w).0
    -- writes touch one object
    pub put-Written :
        (b k : String) (p : Bytes) (m : String) (w : World)
        → Written
            (B.put_object b k p m w).0
            (some p)
            (object w b k)
            (object (B.put_object b k p m w).1 b k)
    pub put-others :
        (b k : String) (p : Bytes) (m : String) (w : World) (b' k' : String)
        → (str_eq b b' && str_eq k k') ≡ false
        → object (B.put_object b k p m w).1 b' k' ≡ object w b' k'
    pub put-pending :
        (b k : String) (p : Bytes) (m : String) (w : World)
        → pending (B.put_object b k p m w).1 ≡ pending w
    pub put-durable :
        (b k : String) (p : Bytes) (m : String) (w : World)
        → durable (B.put_object b k p m w).1 ≡ durable w
    pub remove-Written :
        (b k : String) (w : World)
        → Written
            (B.remove_object b k w).0
            none
            (object w b k)
            (object (B.remove_object b k w).1 b k)
    pub remove-others :
        (b k : String) (w : World) (b' k' : String)
        → (str_eq b b' && str_eq k k') ≡ false
        → object (B.remove_object b k w).1 b' k' ≡ object w b' k'
    pub remove-pending : (b k : String) (w : World) → pending (B.remove_object b k w).1 ≡ pending w
    pub remove-durable : (b k : String) (w : World) → durable (B.remove_object b k w).1 ≡ durable w
    -- the session: writes are pending until a commit that returns, and a rollback drops them
    pub write-pending : (f : T → T) (w : World) → pending (B.write f w) ≡ f (pending w)
    pub write-durable : (f : T → T) (w : World) → durable (B.write f w) ≡ durable w
    pub write-object : (f : T → T) (w : World) → object (B.write f w) ≡ object w
    pub read-IsQuiet : (w : World) → IsQuiet w (B.read w).1
    pub read-error : (w : World) → OnlySqlalchemy (B.read w).0
    pub lock-error : (s : String) (w : World) → OnlySqlalchemy (B.advisory_lock s w).0
    pub flush-IsQuiet : (w : World) → IsQuiet w (B.flush w).1
    pub flush-error : (w : World) → OnlySqlalchemy (B.flush w).0
    pub commit-error : (w : World) → OnlySqlalchemy (B.commit w).0
    pub commit-object : (w : World) → object (B.commit w).1 ≡ object w
    pub commit-pending : (w : World) → pending (B.commit w).1 ≡ pending w
    pub commit-durable :
        (w : World)
        → durable (B.commit w).1 ≡ elim (B.commit w).0 [ ok _ ↦ pending w | err _ ↦ durable w ]
    pub rollback-object : (w : World) → object (B.rollback w) ≡ object w
    pub rollback-pending : (w : World) → pending (B.rollback w) ≡ durable w
    pub rollback-durable : (w : World) → durable (B.rollback w) ≡ durable w
    pub lock-IsQuiet : (s : String) (w : World) → IsQuiet w (B.advisory_lock s w).1
    pub log-IsQuiet : (s : String) (w : World) → IsQuiet w (B.log_error s w)
