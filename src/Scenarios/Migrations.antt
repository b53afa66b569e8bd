-- ===== src/Scenarios/Migrations.antt =====
-- Two migrations, the second of which fails in the first run.
use matfix.Shared.{
  ◌≡◌, refl, String, Bool, true, false, some, List, [], ◌∷◌, ◌++◌, pos, ok, err, database, All,
}
use matfix.Persistence.Migrate.{MigrationDb, Entry, Scripts, has_version, migrate}
use matfix.Persistence.Migrate.Once.{Migrates, migrate-Migrates}
use matfix.Persistence.Migrate.Again.{IsScript, migrate-again}

-- A schema is the list of the scripts that were run.
abbrev scripts : Scripts (List String)
scripts = record { read_file = λ v. some v; run_script = λ sql done. some (done ++ sql ∷ []) }

abbrev entries : List Entry
entries =
    record { name = "002_b.sql"; is_dir = false }
    ∷ record { name = "001_a.sql"; is_dir = false }
    ∷ record { name = "README.md"; is_dir = false }
    ∷ []

abbrev fresh : List Bool → MigrationDb (List String)
fresh faults = record { schema = []; versions = []; faults = faults }

-- The insert of the second version fails: its script is undone.
abbrev failing : List Bool
failing = false ∷ false ∷ false ∷ false ∷ false ∷ false ∷ false ∷ false ∷ false ∷ true ∷ []

half_way : migrate scripts (pos 1) entries (fresh failing) ≡ (
  err database,
  record { schema = "001_a.sql" ∷ []; versions = ("001_a.sql", pos 1) ∷ []; faults = [] },
)
unfolding migrate
half_way = refl

migrate-Migrates_example :
    Migrates scripts (fresh failing) (migrate scripts (pos 1) entries (fresh failing)).1
migrate-Migrates_example = migrate-Migrates scripts (pos 1) entries (fresh failing)

first_run-ok : (migrate scripts (pos 1) entries (fresh [])).0 ≡ ok tt
unfolding migrate
first_run-ok = refl

migrate-again_example :
    let db' = (migrate scripts (pos 1) entries (fresh [])).1 in
    let db2 = (migrate scripts (pos 5) entries (record db' { faults = true ∷ [] })).1 in
    All (λ e. IsScript e → has_version e.name db'.versions ≡ true) entries
    × (db2.versions ≡ db'.versions)
    × (db2.schema ≡ db'.schema)
migrate-again_example =
    migrate-again scripts (pos 1) (pos 5) entries (fresh []) (true ∷ []) first_run-ok
