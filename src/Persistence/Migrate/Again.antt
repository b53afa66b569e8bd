-- ===== src/Persistence/Migrate/Again.antt =====
-- internal/persistence/migrate.go: a second run.
use matfix.Shared.{
  ◌≡◌, refl, sym, ap, ◌∙◌, inl, inr, String, Bool, true, false, ◌||◌, not, Option, none, some, List,
  [], ◌∷◌, ◌++◌, ◌==◌, ℤ, Result, ok, err, Exec, ◌>>=◌, ◌>>◌, bind-eq-ok, and_then, any_where, All,
  Bool-cases, eq_refl,
}
use Prim.Native.String.{compare}
use text.Mathlib.Text.{is_lt}
use matfix.Persistence.Migrate.{
  MigrationDb, Entry, Scripts, has_suffix, insert_by_name, sort_by_name, has_version, driver,
  is_applied, in_transaction, roll_back_migration, apply_script, apply_unless, migrate_entry,
  migrate_each, migrate, insert_version, exec_script,
}
use matfix.Persistence.Migrate.Once.{Versions, driver-same, each-Migrates, insert_version-ok}

-- A file of the directory that Migrate applies.
abbrev pub IsScript : Entry → Type 0
IsScript e = (e.is_dir || not (has_suffix e.name ".sql")) ≡ false

has_version-append :
    (v : String) (old new : Versions) → has_version v old ≡ true → has_version v (old ++ new) ≡ true
unfolding has_version any_where
has_version-append v [] new h = absurd (cc)
has_version-append v ((w, at) ∷ old) new h = elim (Bool-cases (w == v)) [
  | inl here ↦ rw here refl
  | inr other ↦ rw other (has_version-append v old new (rw other at h))
]

has_version-last :
    (v : String) (at : ℤ) (old : Versions) → has_version v (old ++ (v, at) ∷ []) ≡ true
unfolding has_version any_where
has_version-last v at [] = rw (eq_refl v) refl
has_version-last v at ((w, earlier) ∷ old) = elim (Bool-cases (w == v)) [
  | inl here ↦ rw here refl
  | inr other ↦ rw other (has_version-last v at old)
]

module _ {S : Type 0} (scripts : Scripts S) (now : ℤ) where
  abbrev IsRecordedIn : MigrationDb S → Entry → Type 0
  IsRecordedIn db e = IsScript e → has_version e.name db.versions ≡ true

  committed :
      (m : Exec (MigrationDb S) (Unit {0})) (db : MigrationDb S)
      → (in_transaction m db).0 ≡ ok tt
      → ((in_transaction m db).1 ≡ (m db).1) × ((m db).0 ≡ ok tt)
  unfolding in_transaction
  committed m db h = by_result (m db) h
    where
      by_result :
          (r : Result (Unit {0}) × MigrationDb S)
          → (roll_back_migration db.schema db.versions r).0 ≡ ok tt
          → ((roll_back_migration db.schema db.versions r).1 ≡ r.1) × (r.0 ≡ ok tt)
      by_result (ok u, db') k = (refl, refl)
      by_result (err e, db') k = absurd (cc)

  script-recorded :
      (version : String) (file : Option String) (db : MigrationDb S)
      → (apply_script scripts now version file db).0 ≡ ok tt
      → has_version version (apply_script scripts now version file db).1.versions ≡ true
  unfolding apply_script
  script-recorded version none db h = absurd (cc)
  script-recorded version (some sql) db h =
      let (u, begun, e, k) = bind-eq-ok driver _ db h in
      let (same, done) =
        committed (exec_script scripts now sql >> insert_version version now >> driver)
          (driver db).1 k in
      let (w, both, f, last) =
        bind-eq-ok (exec_script scripts now sql >> insert_version version now) (λ t. driver)
          (driver db).1 done in
      let (t, ran, g, put) =
        bind-eq-ok (exec_script scripts now sql) (λ t. insert_version version now) (driver db).1
          both in
      let db1 = (exec_script scripts now sql (driver db).1).1 in
      let (fresh, v2, s2) = insert_version-ok scripts now version db1 put in
      let (v3, s3) = driver-same scripts (insert_version version now db1).1 in
      rw e (rw same (rw f (rw g (rw (v3 ∙ v2) (has_version-last version now db1.versions)))))

  -- The answer of SELECT COUNT is about the versions that are there after it.
  count-ok :
      (version : String) (db : MigrationDb S) (known : Bool)
      → (is_applied version db).0 ≡ ok known
      → has_version version (is_applied version db).1.versions ≡ known
  unfolding is_applied
  count-ok version db known h =
      let (u, ran, e, k) = bind-eq-ok driver _ db h in
      rw e (answer-eq (has_version version (driver db).1.versions) known k)
    where
      answer-eq : (a b : Bool) → ◌≡◌ {A = Result Bool} (ok a) (ok b) → a ≡ b
      answer-eq a b q = cc

  unless-recorded :
      (version : String) (known : Bool) (db : MigrationDb S)
      → has_version version db.versions ≡ known
      → (apply_unless scripts now version known db).0 ≡ ok tt
      → has_version version (apply_unless scripts now version known db).1.versions ≡ true
  unfolding apply_unless
  unless-recorded version true db h k = h
  unless-recorded version false db h k = script-recorded version (scripts.read_file version) db k

  entry-recorded :
      (e : Entry) (db : MigrationDb S)
      → (migrate_entry scripts now e db).0 ≡ ok tt
      → IsRecordedIn (migrate_entry scripts now e db).1 e
  unfolding migrate_entry
  entry-recorded e db h script = rw script (
      let (known, counted, q, k) =
        bind-eq-ok (is_applied e.name) (apply_unless scripts now e.name) db (rw script at h) in
      rw q (
        unless-recorded e.name known (is_applied e.name db).1 (count-ok e.name db known counted) k))

  recorded_at :
      (a b : MigrationDb S) (es : List Entry)
      → a ≡ b
      → All (IsRecordedIn a) es
      → All (IsRecordedIn b) es
  recorded_at a b es q h = rw q at h

  each-recorded :
      (entries : List Entry) (db : MigrationDb S)
      → (migrate_each scripts now entries db).0 ≡ ok tt
      → All (IsRecordedIn (migrate_each scripts now entries db).1) entries
  unfolding migrate_each
  each-recorded [] db h = tt
  each-recorded (e ∷ entries) db h =
      let (u, ran, q, k) =
        bind-eq-ok (migrate_entry scripts now e) (λ t. migrate_each scripts now entries) db h in
      let db1 = (migrate_entry scripts now e db).1 in
      let (new, v, fresh, led) = each-Migrates scripts now entries db1 in
      recorded_at (migrate_each scripts now entries db1).1 _ (e ∷ entries) (ap (λ t. t.1) (sym q)) (
        λ script.
            rw v (has_version-append e.name db1.versions new (entry-recorded e db ran script)),
        each-recorded entries db1 k,
      )

  -- Nothing but the fate of later calls changes.
  abbrev pub IsSame : MigrationDb S → MigrationDb S → Type 0
  IsSame a b = (b.versions ≡ a.versions) × (b.schema ≡ a.schema)

  IsSame-trans : (a b c : MigrationDb S) → IsSame a b → IsSame b c → IsSame a c
  IsSame-trans a b c (v, s) (w, t) = (w ∙ v, t ∙ s)

  bind-IsSame :
      {A B : Type 0} (m : Exec (MigrationDb S) A) (f : A → Exec (MigrationDb S) B)
      (db : MigrationDb S)
      → IsSame db (m db).1
      → ((a : A) → (m db).0 ≡ ok a → IsSame (m db).1 (f a (m db).1).1)
      → IsSame db ((m >>= f) db).1
  bind-IsSame {A} {B} m f db h k = after (m db).0 (m db).1 h k
    where
      after :
          (r : Result A) (db' : MigrationDb S)
          → IsSame db db'
          → ((a : A) → r ≡ ok a → IsSame db' (f a db').1)
          → IsSame db (and_then r f db').1
      after (ok a) db' h k = IsSame-trans db db' (f a db').1 h (k a refl)
      after (err e) db' h k = h

  count-IsSame : (version : String) (db : MigrationDb S) → IsSame db (is_applied version db).1
  unfolding is_applied
  count-IsSame version db = bind-IsSame driver _ db (driver-same scripts db) (λ u q. (refl, refl))

  known-idle :
      (version : String) (known : Bool) (db : MigrationDb S)
      → known ≡ true
      → IsSame db (apply_unless scripts now version known db).1
  unfolding apply_unless
  known-idle version true db h = (refl, refl)
  known-idle version false db h = absurd (cc)

  entry-idle :
      (e : Entry) (db : MigrationDb S)
      → IsRecordedIn db e
      → IsSame db (migrate_entry scripts now e db).1
  unfolding migrate_entry
  entry-idle e db h = elim (Bool-cases (e.is_dir || not (has_suffix e.name ".sql"))) [
    | inl skipped ↦ rw skipped (refl, refl)
    | inr script ↦ rw script (
        bind-IsSame (is_applied e.name) (apply_unless scripts now e.name) db
          (count-IsSame e.name db)
          (λ known q.
            known-idle e.name known (is_applied e.name db).1
              (sym (count-ok e.name db known q) ∙ rw (count-IsSame e.name db).0 (h script))))
  ]

  idle-All :
      (a b : MigrationDb S) (es : List Entry)
      → IsSame a b
      → All (IsRecordedIn a) es
      → All (IsRecordedIn b) es
  idle-All a b [] q h = tt
  idle-All a b (e ∷ es) q (h, hs) = (λ script. rw q.0 (h script), idle-All a b es q hs)

  each-idle :
      (entries : List Entry) (db : MigrationDb S)
      → All (IsRecordedIn db) entries
      → IsSame db (migrate_each scripts now entries db).1
  unfolding migrate_each
  each-idle [] db h = (refl, refl)
  each-idle (e ∷ entries) db (h, hs) =
      let db1 = (migrate_entry scripts now e db).1 in
      let same = entry-idle e db h in
      bind-IsSame (migrate_entry scripts now e) (λ u. migrate_each scripts now entries) db same
        (λ u q. each-idle entries db1 (idle-All db db1 entries same hs))

  migrate-recorded :
      (entries : List Entry) (db : MigrationDb S)
      → (migrate scripts now entries db).0 ≡ ok tt
      → All (IsRecordedIn (migrate scripts now entries db).1) (sort_by_name entries)
  unfolding migrate
  migrate-recorded entries db h =
      let (u, begun, q, k) =
        bind-eq-ok driver (λ u. migrate_each scripts now (sort_by_name entries)) db h in
      recorded_at (migrate_each scripts now (sort_by_name entries) (driver db).1).1 _
        (sort_by_name entries) (ap (λ t. t.1) (sym q))
        (each-recorded (sort_by_name entries) (driver db).1 k)

  migrate-idle :
      (entries : List Entry) (db : MigrationDb S)
      → All (IsRecordedIn db) (sort_by_name entries)
      → IsSame db (migrate scripts now entries db).1
  unfolding migrate
  migrate-idle entries db h =
      bind-IsSame driver (λ u. migrate_each scripts now (sort_by_name entries)) db
        (driver-same scripts db)
        (λ u q.
          each-idle (sort_by_name entries) (driver db).1
            (idle-All db (driver db).1 (sort_by_name entries) (driver-same scripts db) h))

insert-All :
    (P : Entry → Type 0) (e : Entry) (es : List Entry)
    → All P (insert_by_name e es)
    → P e × All P es
unfolding insert_by_name
insert-All P e [] h = h
insert-All P e (f ∷ es) h = elim (Bool-cases (is_lt (compare f.name e.name))) [
  | inl later ↦ (let (p, ps) = rw later at h in let (q, qs) = insert-All P e es ps in (q, (p, qs)))
  | inr here ↦ (let (p, ps) = rw here at h in (p, ps))
]

sort-All : (P : Entry → Type 0) (es : List Entry) → All P (sort_by_name es) → All P es
unfolding sort_by_name
sort-All P [] h = tt
sort-All P (e ∷ es) h = let (p, ps) = insert-All P e (sort_by_name es) h in (p, sort-All P es ps)

-- After a run of Migrate that succeeds each script of the directory is recorded, and a second run,
-- at whatever time and whatever fails in it, records no version and changes no schema.
pub migrate-again :
    {S : Type 0} (scripts : Scripts S) (now later : ℤ) (entries : List Entry) (db : MigrationDb S)
    (faults : List Bool)
    → (migrate scripts now entries db).0 ≡ ok tt
    → let db' = (migrate scripts now entries db).1 in
      let db2 = (migrate scripts later entries (record db' { faults = faults })).1 in
      All (λ e. IsScript e → has_version e.name db'.versions ≡ true) entries
      × (db2.versions ≡ db'.versions)
      × (db2.schema ≡ db'.schema)
migrate-again scripts now later entries db faults h =
    let db' = (migrate scripts now entries db).1 in
    let recorded = migrate-recorded scripts now entries db h in
    let again = record db' { faults = faults } in
    let same =
      migrate-idle scripts later entries again
        (idle-All scripts later db' again (sort_by_name entries) (refl, refl) recorded) in
    (
      sort-All (λ e. IsScript e → has_version e.name db'.versions ≡ true) entries recorded,
      same.0,
      same.1,
    )
