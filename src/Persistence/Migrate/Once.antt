-- ===== src/Persistence/Migrate/Once.antt =====
-- internal/persistence/migrate.go: what a run of Migrate records, and what it runs.
use matfix.Shared.{
  ◌≡◌, refl, sym, ap, ◌∙◌, inl, inr, String, Bool, true, false, ◌||◌, not, Option, none, some, List,
  [], ◌∷◌, ◌++◌, ℤ, Result, ok, err, Exec, ◌>>=◌, ◌>>◌, bind-eq-ok, and_then, Bool-cases,
}
use mathlib.Core.List.{append_assoc, append-nil}
use matfix.Persistence.Migrate.{
  MigrationDb, Entry, Scripts, has_suffix, sort_by_name, has_version, after_fault, driver,
  is_applied, roll_back_migration, in_transaction, scripted, insert_unless, insert_version,
  exec_script, apply_script, apply_unless, migrate_entry, migrate_each, migrate,
}

abbrev pub Versions : Type 0
Versions = List (String × ℤ)

-- Each version is new when it is recorded.
abbrev pub IsFresh : Versions → Versions → Type 0
IsFresh old [] = Unit
IsFresh old ((v, at) ∷ new) = (has_version v old ≡ false) × IsFresh (old ++ (v, at) ∷ []) new

module _ {S : Type 0} (scripts : Scripts S) where
  -- The scripts of the versions, one after the other, lead from one schema to the other.
  abbrev pub Leads : S → Versions → S → Type 0
  Leads s [] s' = s' ≡ s
  Leads s ((v, at) ∷ rest) s' =
      (sql : String) × (mid : S) × (scripts.read_file v ≡ some sql)
      × (scripts.run_script sql s ≡ some mid)
      × Leads mid rest s'

  -- What a part of a migration does, whether it fails or not.
  abbrev pub Migrates : MigrationDb S → MigrationDb S → Type 0
  Migrates db db' =
      (new : Versions) × (db'.versions ≡ db.versions ++ new)
      × IsFresh db.versions new
      × Leads db.schema new db'.schema

  IsFresh-append :
      (old a b : Versions) → IsFresh old a → IsFresh (old ++ a) b → IsFresh old (a ++ b)
  IsFresh-append old [] b h k = rw (append-nil old) at k
  IsFresh-append old ((v, at) ∷ a) b (h, hs) k =
      (h, IsFresh-append (old ++ (v, at) ∷ []) a b hs (rw (append_assoc old ((v, at) ∷ []) a) k))

  Leads-append : (a b : Versions) (s s1 s2 : S) → Leads s a s1 → Leads s1 b s2 → Leads s (a ++ b) s2
  Leads-append [] b s s1 s2 h k = rw h at k
  Leads-append ((v, at) ∷ a) b s s1 s2 (sql, mid, r, q, h) k =
      (sql, mid, r, q, Leads-append a b mid s1 s2 h k)

  Migrates-trans : (a b c : MigrationDb S) → Migrates a b → Migrates b c → Migrates a c
  Migrates-trans a b c (new, q, f, l) (more, r, g, k) = (
    new ++ more,
    r ∙ rw q (append_assoc a.versions new more),
    IsFresh-append a.versions new more f (rw q at g),
    Leads-append new more a.schema b.schema c.schema l k,
  )

  same-Migrates :
      (db db' : MigrationDb S)
      → db'.versions ≡ db.versions
      → db'.schema ≡ db.schema
      → Migrates db db'
  same-Migrates db db' v s = ([], v ∙ sym (append-nil db.versions), tt, s)

  -- A call of the driver changes nothing but the fate of the later ones.
  pub driver-same :
      (db : MigrationDb S)
      → ((driver db).1.versions ≡ db.versions) × ((driver db).1.schema ≡ db.schema)
  unfolding driver
  driver-same db = by_faults db.faults
    where
      by_faults :
          (fs : List Bool)
          → ((after_fault fs db).1.versions ≡ db.versions)
            × ((after_fault fs db).1.schema ≡ db.schema)
      by_faults [] = (refl, refl)
      by_faults (true ∷ fs) = (refl, refl)
      by_faults (false ∷ fs) = (refl, refl)

  bind-Migrates :
      {A B : Type 0} (m : Exec (MigrationDb S) A) (f : A → Exec (MigrationDb S) B)
      (db : MigrationDb S)
      → Migrates db (m db).1
      → ((a : A) → (m db).0 ≡ ok a → Migrates (m db).1 (f a (m db).1).1)
      → Migrates db ((m >>= f) db).1
  bind-Migrates {A} {B} m f db h k = after (m db).0 (m db).1 h k
    where
      after :
          (r : Result A) (db' : MigrationDb S)
          → Migrates db db'
          → ((a : A) → r ≡ ok a → Migrates db' (f a db').1)
          → Migrates db (and_then r f db').1
      after (ok a) db' h k = Migrates-trans db db' (f a db').1 h (k a refl)
      after (err e) db' h k = h

  driver-Migrates : (db : MigrationDb S) → Migrates db (driver db).1
  driver-Migrates db = same-Migrates db (driver db).1 (driver-same db).0 (driver-same db).1

  scripted-ok :
      (o : Option S) (db : MigrationDb S)
      → (scripted o db).0 ≡ ok tt
      → (o ≡ some (scripted o db).1.schema) × ((scripted o db).1.versions ≡ db.versions)
  unfolding scripted
  scripted-ok none db h = absurd (cc)
  scripted-ok (some s) db h = (refl, refl)

  inserted-ok :
      (version : String) (now : ℤ) (known : Bool) (db : MigrationDb S)
      → (insert_unless version now known db).0 ≡ ok tt
      → let db' = (insert_unless version now known db).1 in
        (known ≡ false)
        × (db'.versions ≡ db.versions ++ (version, now) ∷ [])
        × (db'.schema ≡ db.schema)
  unfolding insert_unless
  inserted-ok version now true db h = absurd (cc)
  inserted-ok version now false db h = (refl, refl, refl)

  module _ (now : ℤ) where
    exec_script-ok :
        (sql : String) (db : MigrationDb S)
        → (exec_script scripts now sql db).0 ≡ ok tt
        → let db' = (exec_script scripts now sql db).1 in
          (scripts.run_script sql db.schema ≡ some db'.schema) × (db'.versions ≡ db.versions)
    unfolding exec_script
    exec_script-ok sql db h =
        let (u, ran, e, k) = bind-eq-ok driver _ db h in
        let (mid, q) = scripted-ok (scripts.run_script sql (driver db).1.schema) (driver db).1 k in
        let (v, s) = driver-same db in rw e (ap (scripts.run_script sql) (sym s) ∙ mid, q ∙ v)

    pub insert_version-ok :
        (version : String) (db : MigrationDb S)
        → (insert_version version now db).0 ≡ ok tt
        → let db' = (insert_version version now db).1 in
          (has_version version db.versions ≡ false)
          × (db'.versions ≡ db.versions ++ (version, now) ∷ [])
          × (db'.schema ≡ db.schema)
    unfolding insert_version
    insert_version-ok version db h =
        let (u, ran, e, k) = bind-eq-ok driver _ db h in
        let (v, s) = driver-same db in
        let (fresh, recorded, same) =
          inserted-ok version now (has_version version (driver db).1.versions) (driver db).1 k in
        rw e (rw v at fresh, recorded ∙ ap (λ l. l ++ (version, now) ∷ []) v, same ∙ s)

    -- The statements of one migration, in a transaction.
    abbrev body : String → String → Exec (MigrationDb S) (Unit {0})
    body version sql = exec_script scripts now sql >> insert_version version now >> driver

    body-Migrates :
        (version sql : String) (db : MigrationDb S)
        → scripts.read_file version ≡ some sql
        → (body version sql db).0 ≡ ok tt
        → Migrates db (body version sql db).1
    body-Migrates version sql db read h =
        let (u, both, e, last) =
          bind-eq-ok (exec_script scripts now sql >> insert_version version now) (λ w. driver) db
            h in
        let (w, ran, f, put) =
          bind-eq-ok (exec_script scripts now sql) (λ w. insert_version version now) db both in
        let db1 = (exec_script scripts now sql db).1 in
        let (run, v1) = exec_script-ok sql db ran in
        let (fresh, v2, s2) = insert_version-ok version db1 put in
        let (v3, s3) = driver-same (insert_version version now db1).1 in
        rw e (
          rw f (
            (version, now) ∷ [],
            v3 ∙ v2 ∙ ap (λ l. l ++ (version, now) ∷ []) v1,
            (rw v1 at fresh, tt),
            (sql, db1.schema, read, run, s3 ∙ s2),
          ))

    -- A transaction that fails leaves the versions and the schema as they were.
    transaction-Migrates :
        (m : Exec (MigrationDb S) (Unit {0})) (db : MigrationDb S)
        → ((m db).0 ≡ ok tt → Migrates db (m db).1)
        → Migrates db (in_transaction m db).1
    unfolding in_transaction
    transaction-Migrates m db h = by_result (m db) h
      where
        by_result :
            (r : Result (Unit {0}) × MigrationDb S)
            → (r.0 ≡ ok tt → Migrates db r.1)
            → Migrates db (roll_back_migration db.schema db.versions r).1
        by_result (ok u, db') k = k refl
        by_result (err e, db') k =
            same-Migrates db (record db' { schema = db.schema; versions = db.versions }) refl refl

    script-Migrates :
        (version : String) (file : Option String) (db : MigrationDb S)
        → scripts.read_file version ≡ file
        → Migrates db (apply_script scripts now version file db).1
    unfolding apply_script
    script-Migrates version none db read = same-Migrates db db refl refl
    script-Migrates version (some sql) db read =
        bind-Migrates driver (λ u. in_transaction (body version sql)) db (driver-Migrates db)
          (λ u q.
            transaction-Migrates (body version sql) (driver db).1
              (body-Migrates version sql (driver db).1 read))

    unless-Migrates :
        (version : String) (known : Bool) (db : MigrationDb S)
        → Migrates db (apply_unless scripts now version known db).1
    unfolding apply_unless
    unless-Migrates version true db = same-Migrates db db refl refl
    unless-Migrates version false db = script-Migrates version (scripts.read_file version) db refl

    applied-Migrates :
        (version : String) (db : MigrationDb S) → Migrates db (is_applied version db).1
    unfolding is_applied
    applied-Migrates version db =
        bind-Migrates driver _ db (driver-Migrates db)
          (λ u q. same-Migrates (driver db).1 (driver db).1 refl refl)

    entry-Migrates :
        (e : Entry) (db : MigrationDb S) → Migrates db (migrate_entry scripts now e db).1
    unfolding migrate_entry
    entry-Migrates e db = elim (Bool-cases (e.is_dir || not (has_suffix e.name ".sql"))) [
      | inl skipped ↦ rw skipped (same-Migrates db db refl refl)
      | inr script ↦ rw script (
          bind-Migrates (is_applied e.name) (apply_unless scripts now e.name) db
            (applied-Migrates e.name db)
            (λ known q. unless-Migrates e.name known (is_applied e.name db).1))
    ]

    pub each-Migrates :
        (entries : List Entry) (db : MigrationDb S)
        → Migrates db (migrate_each scripts now entries db).1
    unfolding migrate_each
    each-Migrates [] db = same-Migrates db db refl refl
    each-Migrates (e ∷ entries) db =
        bind-Migrates (migrate_entry scripts now e) (λ u. migrate_each scripts now entries) db
          (entry-Migrates e db) (λ u q. each-Migrates entries (migrate_entry scripts now e db).1)

    -- Whatever statement fails, Migrate records only versions that were not recorded, and the schema
    -- is what the scripts of the newly recorded versions make of it, in the order of the records:
    -- no script is run without its record, or recorded without being run.
    pub migrate-Migrates :
        (entries : List Entry) (db : MigrationDb S) → Migrates db (migrate scripts now entries db).1
    unfolding migrate
    migrate-Migrates entries db =
        bind-Migrates driver (λ u. migrate_each scripts now (sort_by_name entries)) db
          (driver-Migrates db) (λ u q. each-Migrates (sort_by_name entries) (driver db).1)
