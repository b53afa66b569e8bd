-- ===== src/Persistence/Migrate.antt =====
-- internal/persistence/migrate.go: the scripts of schema/ are applied once each. The database that
-- the scripts change and the embedded files are parameters.
pub mod Once
pub mod Again
use matfix.Shared.{
  String, Bool, true, false, ◌&&◌, ◌||◌, not, leb, ◌-◌, Option, none, some, List, [], ◌∷◌, ◌++◌,
  ◌==◌, if◌then◌else◌, ℤ, Result, ok, err, database, constraint, Exec, pure, raise, ◌>>=◌, ◌>>◌,
  any_where,
}
use Prim.Native.String.{len, slice, compare}
use text.Mathlib.Text.{is_lt}

-- What the scripts made of the database, the table schema_migrations, and the fate of the calls of
-- the driver to come: `true` is one that fails. Past the end of `faults` every call works.
pub record MigrationDb (S : Type 0) : Type 0 where
  pub schema : S
  pub versions : List (String × ℤ)
  pub faults : List Bool

-- A directory entry of the embedded schema/.
pub record Entry : Type 0 where
  pub name : String
  pub is_dir : Bool

-- `run_script` gives none where a statement of the script fails; `read_file` where a file is missing.
pub record Scripts (S : Type 0) : Type 0 where
  pub read_file : String → Option String
  pub run_script : String → S → Option S

-- strings.HasSuffix
unfoldable pub has_suffix : String → String → Bool
has_suffix s suffix = leb (len suffix) (len s) && slice s (len s - len suffix) (len s) == suffix

-- sort.Slice by name; the names of a directory are distinct.
unfoldable pub insert_by_name : Entry → List Entry → List Entry
insert_by_name e [] = e ∷ []
insert_by_name e (f ∷ entries) =
    let later = insert_by_name e entries in
    if is_lt (compare f.name e.name) then f ∷ later else e ∷ f ∷ entries

unfoldable pub sort_by_name : List Entry → List Entry
unfolding insert_by_name
sort_by_name [] = []
sort_by_name (e ∷ entries) = insert_by_name e (sort_by_name entries)

unfoldable pub has_version : String → List (String × ℤ) → Bool
unfolding any_where
has_version version = any_where (λ (v, at). v == version)

module _ {S : Type 0} where
  after_fault : List Bool → MigrationDb S → Result (Unit {0}) × MigrationDb S
  after_fault [] db = (ok tt, db)
  after_fault (true ∷ faults) db = (err database, record db { faults = faults })
  after_fault (false ∷ faults) db = (ok tt, record db { faults = faults })

  -- A call of the driver: BeginTx, ExecContext, QueryRowContext or Commit.
  unfoldable pub driver : Exec (MigrationDb S) (Unit {0})
  unfolding after_fault
  driver db = after_fault db.faults db

  -- SELECT COUNT(*) ... WHERE version = ?, whether it is positive.
  unfoldable pub is_applied : String → Exec (MigrationDb S) Bool
  unfolding driver has_version
  is_applied version = driver >> λ db. (ok (has_version version db.versions), db)

  roll_back_migration :
      S → List (String × ℤ) → Result (Unit {0}) × MigrationDb S → Result (Unit {0}) × MigrationDb S
  roll_back_migration schema versions (ok u, db) = (ok u, db)
  roll_back_migration schema versions (err e, db) =
      (err e, record db { schema = schema; versions = versions })

  -- What is done in a transaction that is not committed is undone.
  unfoldable pub in_transaction : Exec (MigrationDb S) (Unit {0}) → Exec (MigrationDb S) (Unit {0})
  unfolding roll_back_migration
  in_transaction body db = roll_back_migration db.schema db.versions (body db)

  scripted : Option S → Exec (MigrationDb S) (Unit {0})
  scripted none db = (err database, db)
  scripted (some schema) db = (ok tt, record db { schema = schema })

  -- The primary key of schema_migrations is the version.
  insert_unless : String → ℤ → Bool → Exec (MigrationDb S) (Unit {0})
  insert_unless version now true db = (err constraint, db)
  insert_unless version now false db =
      (ok tt, record db { versions = db.versions ++ (version, now) ∷ [] })

  unfoldable pub insert_version : String → ℤ → Exec (MigrationDb S) (Unit {0})
  unfolding driver has_version insert_unless
  insert_version version now =
      driver >> λ db. insert_unless version now (has_version version db.versions) db

  module _ (scripts : Scripts S) (now : ℤ) where
    -- tx.ExecContext(ctx, string(sqlBytes))
    unfoldable pub exec_script : String → Exec (MigrationDb S) (Unit {0})
    unfolding driver scripted
    exec_script sql = driver >> λ db. scripted (scripts.run_script sql db.schema) db

    unfoldable pub apply_script : String → Option String → Exec (MigrationDb S) (Unit {0})
    unfolding driver in_transaction exec_script insert_version
    apply_script version none = raise database
    apply_script version (some sql) =
        driver >> in_transaction (exec_script sql >> insert_version version now >> driver)

    unfoldable pub apply_unless : String → Bool → Exec (MigrationDb S) (Unit {0})
    unfolding apply_script
    apply_unless version true = pure tt
    apply_unless version false = apply_script version (scripts.read_file version)

    -- One pass of the loop.
    unfoldable pub migrate_entry : Entry → Exec (MigrationDb S) (Unit {0})
    unfolding is_applied apply_unless has_suffix
    migrate_entry e =
        if e.is_dir || not (has_suffix e.name ".sql")
        then pure tt
        else is_applied e.name >>= apply_unless e.name

    unfoldable pub migrate_each : List Entry → Exec (MigrationDb S) (Unit {0})
    unfolding migrate_entry
    migrate_each [] = pure tt
    migrate_each (e ∷ entries) = migrate_entry e >> migrate_each entries

    -- The first statement is CREATE TABLE IF NOT EXISTS schema_migrations.
    unfoldable pub migrate : List Entry → Exec (MigrationDb S) (Unit {0})
    unfolding driver migrate_each sort_by_name
    migrate entries = driver >> migrate_each (sort_by_name entries)
