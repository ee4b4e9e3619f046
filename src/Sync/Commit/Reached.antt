-- ===== src/Sync/Commit/Reached.antt =====
-- src/sync.rs: the changes of a commit are a run of a transaction.
use vivado_server.Base.{
  refl, inl, inr, Str, codes, if◌then◌else◌, Bool, true, false, Option, List, [], ◌∷◌,
}
use vivado_server.Error.{Result-cases, ok, err}
use vivado_server.Sync.Plan.{PlannedUpload}
use vivado_server.Sync.Disk.{join_path, Disk, Missing}
use vivado_server.Sync.Transaction.{CommitTransaction, Outcome, create_missing_dir, replace_project}
use vivado_server.Sync.Transaction.Perform.{Operation, perform}
use vivado_server.Sync.Transaction.Rollback.{Run}
use vivado_server.Sync.Sessions.{CommitPlan}
use vivado_server.Sync.Commit.Checks.{Site, resolve_relative_path, project_dir, files_dir}
use vivado_server.Sync.Commit.{
  for_each, and_then, deleted, delete_planned_file, delete_planned_dir, unlisted,
  create_planned_dir, with_attributes, install_staged, install_planned, push_changes,
  replace_changes, make_changes,
}

module _ (disk : Disk) (site : Site disk) where
  open disk use {State, create_dir_all}

  -- The next backup gets a name that is free.
  abbrev pub Free : CommitTransaction → State → Type 0
  Free t s = Missing disk (join_path t.backup_root (site.draw t s)) s

  abbrev pub FreeEach :
      {A B : Type 0}
      → (A → CommitTransaction → State → Outcome disk (Option B))
      → List A
      → CommitTransaction
      → State
      → Type 0
  FreeEach operation [] t s = Unit {0}
  FreeEach operation (x ∷ xs) t s =
      Free t s × (let done = operation x t s in FreeEach operation xs done.1 done.2)

  -- The UUIDs that a push draws are free when they are drawn.
  abbrev pub FreePush : CommitPlan → CommitTransaction → State → Type 0
  FreePush plan t s =
      let root = create_missing_dir disk (project_dir disk site) (codes "project root") t s in
      let files =
        for_each disk (delete_planned_file disk site) plan.changes.delete_files root.1 root.2 in
      let dirs =
        for_each disk (delete_planned_dir disk site) plan.changes.delete_dirs files.1 files.2 in
      let made =
        for_each disk (create_planned_dir disk site) plan.changes.create_dirs dirs.1 dirs.2 in
      FreeEach (delete_planned_file disk site) plan.changes.delete_files root.1 root.2
      × FreeEach (delete_planned_dir disk site) plan.changes.delete_dirs files.1 files.2
      × FreeEach (create_planned_dir disk site) plan.changes.create_dirs dirs.1 dirs.2
      × FreeEach (install_planned disk site) plan.changes.files made.1 made.2

  abbrev pub FreeChanges : Bool → CommitPlan → CommitTransaction → State → Type 0
  FreeChanges true plan t s = Free t s
  FreeChanges false plan t s = FreePush plan t s

  module _ (s₀ : State) where
    delete_planned_file-Reached :
        (path : Str) (t : CommitTransaction) (s : State)
        → Free t s
        → Run disk s₀ t s
        → (let o = delete_planned_file disk site path t s in Run disk s₀ o.1 o.2)
    unfolding delete_planned_file deleted perform
    delete_planned_file-Reached path t s free run =
        elim (Result-cases (resolve_relative_path (project_dir disk site) path)) [
          | inl (e, bad) ↦ rw (delete_planned_file, bad) run
          | inr (target, good) ↦
              rw (delete_planned_file, good)
                (Run.next run (Operation.delete (site.draw t s) target path) free refl)
        ]

    delete_planned_dir-Reached :
        (path : Str) (t : CommitTransaction) (s : State)
        → Free t s
        → Run disk s₀ t s
        → (let o = delete_planned_dir disk site path t s in Run disk s₀ o.1 o.2)
    unfolding delete_planned_dir deleted perform
    delete_planned_dir-Reached path t s free run =
        elim (Result-cases (resolve_relative_path (project_dir disk site) path)) [
          | inl (e, bad) ↦ rw (delete_planned_dir, bad) run
          | inr (target, good) ↦
              rw (delete_planned_dir, good)
                (Run.next run (Operation.delete_dir (site.draw t s) target path) free refl)
        ]

    create_planned_dir-Reached :
        (path : Str) (t : CommitTransaction) (s : State)
        → Free t s
        → Run disk s₀ t s
        → (let o = create_planned_dir disk site path t s in Run disk s₀ o.1 o.2)
    unfolding create_planned_dir unlisted perform
    create_planned_dir-Reached path t s free run =
        elim (Result-cases (resolve_relative_path (project_dir disk site) path)) [
          | inl (e, bad) ↦ rw (create_planned_dir, bad) run
          | inr (target, good) ↦
              rw (create_planned_dir, good)
                (Run.next run (Operation.create_dir target path) tt refl)
        ]

    install_planned-Reached :
        (upload : PlannedUpload) (t : CommitTransaction) (s : State)
        → Free t s
        → Run disk s₀ t s
        → (let o = install_planned disk site upload t s in Run disk s₀ o.1 o.2)
    unfolding install_planned install_staged with_attributes perform
    install_planned-Reached upload t s free run =
        elim (Result-cases (resolve_relative_path (project_dir disk site) upload.entry.path)) [
          | inl (e, bad) ↦ rw (install_planned, bad) run
          | inr (target, good) ↦
              elim (Result-cases (resolve_relative_path (files_dir disk site) upload.entry.path)) [
                | inl (e, bad) ↦ rw (install_planned, good, bad) run
                | inr (staged, there) ↦
                    rw (install_planned, good, there)
                      (Run.next run
                        (Operation.install (site.draw t s) staged target upload.entry.path) free
                        refl)
              ]
        ]

    for_each-Reached :
        {A B : Type 0} (operation : A → CommitTransaction → State → Outcome disk (Option B))
        → ((x : A) (t : CommitTransaction) (s : State)
            → Free t s
            → Run disk s₀ t s
            → (let o = operation x t s in Run disk s₀ o.1 o.2))
        → (xs : List A) (t : CommitTransaction) (s : State) → FreeEach operation xs t s
        → Run disk s₀ t s
        → (let o = for_each disk operation xs t s in Run disk s₀ o.1 o.2)
    unfolding for_each
    for_each-Reached operation step [] t s free run = run
    for_each-Reached operation step (x ∷ xs) t s (this, later) run =
        let next_run = step x t s this run in
        let o = operation x t s in
        elim (Result-cases o.0) [
          | inl (e, bad) ↦ rw (for_each, bad) next_run
          | inr (found, good) ↦
              rw (for_each, good) (for_each-Reached operation step xs o.1 o.2 later next_run)
        ]

    -- A step after another.
    and_then-Reached :
        {A B : Type 0} (outcome : Outcome disk A)
        (next : A → CommitTransaction → State → Outcome disk B)
        → Run disk s₀ outcome.1 outcome.2
        → ((a : A) → (let o = next a outcome.1 outcome.2 in Run disk s₀ o.1 o.2))
        → (let o = and_then disk outcome next in Run disk s₀ o.1 o.2)
    and_then-Reached (ok a, t, s) next run later = later a
    and_then-Reached (err e, t, s) next run later = run

    push_changes-Reached :
        (plan : CommitPlan) (t : CommitTransaction) (s : State)
        → FreePush plan t s
        → Run disk s₀ t s
        → (let o = push_changes disk site plan.changes t s in Run disk s₀ o.1 o.2)
    unfolding push_changes perform
    push_changes-Reached plan t s (free_files, free_dirs, free_made, free_installed) run =
        let root = create_missing_dir disk (project_dir disk site) (codes "project root") t s in
        let files =
          for_each disk (delete_planned_file disk site) plan.changes.delete_files root.1 root.2 in
        let dirs =
          for_each disk (delete_planned_dir disk site) plan.changes.delete_dirs files.1 files.2 in
        let made =
          for_each disk (create_planned_dir disk site) plan.changes.create_dirs dirs.1 dirs.2 in
        let installed =
          for_each disk (install_planned disk site) plan.changes.files made.1 made.2 in
        let at_root =
          Run.next run (Operation.create_dir (project_dir disk site) (codes "project root")) tt
            refl in
        let at_files =
          for_each-Reached (delete_planned_file disk site) delete_planned_file-Reached
            plan.changes.delete_files root.1 root.2 free_files at_root in
        let at_dirs =
          for_each-Reached (delete_planned_dir disk site) delete_planned_dir-Reached
            plan.changes.delete_dirs files.1 files.2 free_dirs at_files in
        let at_made =
          for_each-Reached (create_planned_dir disk site) create_planned_dir-Reached
            plan.changes.create_dirs dirs.1 dirs.2 free_made at_dirs in
        let at_installed =
          for_each-Reached (install_planned disk site) install_planned-Reached plan.changes.files
            made.1 made.2 free_installed at_made in
        and_then-Reached root _ at_root λ made_root.
          and_then-Reached files _ at_files λ deleted_files.
            and_then-Reached dirs _ at_dirs λ deleted_dirs.
              and_then-Reached made _ at_made
                λ created. and_then-Reached installed _ at_installed λ done_all. at_installed

    pub make_changes-Reached :
        (plan : CommitPlan) (t : CommitTransaction) (s : State)
        → FreeChanges plan.reset plan t s
        → Run disk s₀ t s
        → (let o = make_changes disk site plan t s in Run disk s₀ o.1 o.2)
    unfolding make_changes replace_changes perform
    make_changes-Reached plan t s free run = by_kind plan.reset free
      where
        by_kind :
            (reset : Bool)
            → FreeChanges reset plan t s
            → (let o =
                  if reset
                  then replace_changes disk site t s
                  else push_changes disk site plan.changes t s in
                Run disk s₀ o.1 o.2)
        by_kind false free = push_changes-Reached plan t s free run
        by_kind true free =
            let replaced =
              Run.next run
                (Operation.replace (site.draw t s) (files_dir disk site) (project_dir disk site))
                free refl in
            and_then-Reached
              (replace_project disk (site.draw t s) (files_dir disk site) (project_dir disk site) t
                s)
              _ replaced λ unit. replaced
