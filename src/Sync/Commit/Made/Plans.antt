-- ===== src/Sync/Commit/Made/Plans.antt =====
-- src/sync.rs: what the loops over a plan have done, if none of their operations has failed.
use vivado_server.Base.{
  ◌≡◌, ◌⊎◌, refl, Str, codes, if◌then◌else◌, Bool, true, false, inl, inr, List, [],
}
use vivado_server.Error.{AppError, ok, err}
use vivado_server.Sync.Disk.{Disk}
use vivado_server.Sync.Transaction.{
  AppliedChange, CommitTransaction, Outcome, create_missing_dir, replace_project,
}
use vivado_server.Sync.Transaction.Made.{
  Makes, IsInstalled, IsMade, replace_project-Makes, create_missing_dir-Makes,
}
use vivado_server.Sync.Sessions.{CommitPlan}
use vivado_server.Sync.Commit.Checks.{Site, project_dir, files_dir}
use vivado_server.Sync.Commit.{
  for_each, and_then, delete_planned_file, delete_planned_dir, create_planned_dir, install_planned,
  push_changes, replace_changes, make_changes,
}
use vivado_server.Sync.Commit.Made.{
  Every, Every-Lasting, and_then-Makes, for_each-Makes, IsDeleted, IsCreated, IsUploaded,
  IsCarriedOut,
}
use vivado_server.Sync.Commit.Made.Items.{
  IsInstalled-Lasting, IsMade-Lasting, IsDeleted-Lasting, IsCreated-Lasting, IsUploaded-Lasting,
  delete_planned_file-Makes, delete_planned_dir-Makes, create_planned_dir-Makes,
  install_planned-Makes,
}

module _ (disk : Disk) (site : Site disk) where
  open disk use {State}

  no_more :
      {A : Type 0} (value : A) (t : CommitTransaction) (s : State)
      → Makes disk (λ cs. Unit {0}) t (ok value, t, s)
  no_more value t s = (([], refl), inr tt)

  module _ (plan : CommitPlan) where
    -- The changes of a push, from some point on.
    abbrev installs :
        List Str → List Str → CommitTransaction → State → Outcome disk (List Str × List Str)
    installs files dirs t s =
        and_then disk (for_each disk (install_planned disk site) plan.changes.files t s)
          λ installed t s. (ok (files, dirs), t, s)

    abbrev creates :
        List Str → List Str → CommitTransaction → State → Outcome disk (List Str × List Str)
    creates files dirs t s =
        and_then disk (for_each disk (create_planned_dir disk site) plan.changes.create_dirs t s)
          λ created t s. installs files dirs t s

    abbrev empties : List Str → CommitTransaction → State → Outcome disk (List Str × List Str)
    empties files t s =
        and_then disk (for_each disk (delete_planned_dir disk site) plan.changes.delete_dirs t s)
          λ dirs t s. creates files dirs t s

    abbrev deletes : CommitTransaction → State → Outcome disk (List Str × List Str)
    deletes t s =
        and_then disk (for_each disk (delete_planned_file disk site) plan.changes.delete_files t s)
          λ files t s. empties files t s

    abbrev AfterDirs : List AppliedChange → Type 0
    AfterDirs cs = Every (IsUploaded disk site) plan.changes.files cs × Unit {0}

    abbrev AfterFiles : List AppliedChange → Type 0
    AfterFiles cs = Every (IsCreated disk site) plan.changes.create_dirs cs × AfterDirs cs

    abbrev AfterRoot : List AppliedChange → Type 0
    AfterRoot cs = Every (IsDeleted disk site) plan.changes.delete_dirs cs × AfterFiles cs

    installs-Makes :
        (files dirs : List Str) (t : CommitTransaction) (s : State)
        → Makes disk AfterDirs t (installs files dirs t s)
    installs-Makes files dirs t s =
        and_then-Makes disk (Every (IsUploaded disk site) plan.changes.files) (λ cs. Unit {0}) t
          (for_each disk (install_planned disk site) plan.changes.files t s)
          (λ installed t s. (ok (files, dirs), t, s))
          (Every-Lasting (IsUploaded disk site) (IsUploaded-Lasting disk site) plan.changes.files)
          (for_each-Makes disk (install_planned disk site) (IsUploaded disk site)
            (IsUploaded-Lasting disk site) (install_planned-Makes disk site) plan.changes.files t s)
          (λ all_there. no_more (files, dirs))

    creates-Makes :
        (files dirs : List Str) (t : CommitTransaction) (s : State)
        → Makes disk AfterFiles t (creates files dirs t s)
    creates-Makes files dirs t s =
        and_then-Makes disk (Every (IsCreated disk site) plan.changes.create_dirs) AfterDirs t
          (for_each disk (create_planned_dir disk site) plan.changes.create_dirs t s)
          (λ made t s. installs files dirs t s)
          (Every-Lasting (IsCreated disk site) (IsCreated-Lasting disk site)
            plan.changes.create_dirs)
          (for_each-Makes disk (create_planned_dir disk site) (IsCreated disk site)
            (IsCreated-Lasting disk site) (create_planned_dir-Makes disk site)
            plan.changes.create_dirs t s)
          (λ made. installs-Makes files dirs)

    empties-Makes :
        (files : List Str) (t : CommitTransaction) (s : State)
        → Makes disk AfterRoot t (empties files t s)
    empties-Makes files t s =
        and_then-Makes disk (Every (IsDeleted disk site) plan.changes.delete_dirs) AfterFiles t
          (for_each disk (delete_planned_dir disk site) plan.changes.delete_dirs t s)
          (λ dirs t s. creates files dirs t s)
          (Every-Lasting (IsDeleted disk site) (IsDeleted-Lasting disk site)
            plan.changes.delete_dirs)
          (for_each-Makes disk (delete_planned_dir disk site) (IsDeleted disk site)
            (IsDeleted-Lasting disk site) (delete_planned_dir-Makes disk site)
            plan.changes.delete_dirs t s)
          (λ dirs. creates-Makes files dirs)

    deletes-Makes :
        (t : CommitTransaction) (s : State)
        → Makes disk
            (λ cs. Every (IsDeleted disk site) plan.changes.delete_files cs × AfterRoot cs)
            t
            (deletes t s)
    deletes-Makes t s =
        and_then-Makes disk (Every (IsDeleted disk site) plan.changes.delete_files) AfterRoot t
          (for_each disk (delete_planned_file disk site) plan.changes.delete_files t s)
          (λ files t s. empties files t s)
          (Every-Lasting (IsDeleted disk site) (IsDeleted-Lasting disk site)
            plan.changes.delete_files)
          (for_each-Makes disk (delete_planned_file disk site) (IsDeleted disk site)
            (IsDeleted-Lasting disk site) (delete_planned_file-Makes disk site)
            plan.changes.delete_files t s)
          empties-Makes

    push_changes-Makes :
        (t : CommitTransaction) (s : State)
        → Makes disk
            (λ cs.
              IsMade disk (project_dir disk site) cs
              × (Every (IsDeleted disk site) plan.changes.delete_files cs × AfterRoot cs))
            t
            (push_changes disk site plan.changes t s)
    unfolding push_changes
    push_changes-Makes t s =
        and_then-Makes disk (IsMade disk (project_dir disk site))
          (λ cs. Every (IsDeleted disk site) plan.changes.delete_files cs × AfterRoot cs) t
          (create_missing_dir disk (project_dir disk site) (codes "project root") t s)
          (λ made t s. deletes t s) ((IsMade-Lasting disk site) (project_dir disk site))
          (create_missing_dir-Makes disk (project_dir disk site) (codes "project root") t s)
          (λ made. deletes-Makes)

    replace_changes-Makes :
        (t : CommitTransaction) (s : State)
        → Makes disk
            (λ cs. IsInstalled disk (files_dir disk site) (project_dir disk site) cs × Unit {0})
            t
            (replace_changes disk site t s)
    unfolding replace_changes
    replace_changes-Makes t s =
        and_then-Makes disk (IsInstalled disk (files_dir disk site) (project_dir disk site))
          (λ cs. Unit {0}) t
          (replace_project disk (site.draw t s) (files_dir disk site) (project_dir disk site) t s)
          (λ replaced t s. (ok ([], []), t, s))
          ((IsInstalled-Lasting disk site) (files_dir disk site) (project_dir disk site))
          (replace_project-Makes disk (site.draw t s) (files_dir disk site) (project_dir disk site)
            t s)
          (λ unit. no_more {A = List Str × List Str} ([], []))

    -- The changes have been made, unless one of them has failed.
    pub make_changes-Makes :
        (t : CommitTransaction) (s : State)
        → let o = make_changes disk site plan t s in
          ((e : AppError) × (o.0 ≡ err e)) ⊎ IsCarriedOut disk site plan.reset plan o.1.changes
    unfolding make_changes
    make_changes-Makes t s = by_kind plan.reset
      where
        by_kind :
            (reset : Bool)
            → let o =
                if reset
                then replace_changes disk site t s
                else push_changes disk site plan.changes t s in
              ((e : AppError) × (o.0 ≡ err e)) ⊎ IsCarriedOut disk site reset plan o.1.changes
        by_kind false = elim (push_changes-Makes t s).1 [
          | inl bad ↦ inl bad
          | inr (root, (files, (dirs, (created, (uploaded, end))))) ↦
              inr (root, files, dirs, created, uploaded)
        ]
        by_kind true = elim (replace_changes-Makes t s).1 [
          | inl bad ↦ inl bad
          | inr (there, end) ↦ inr there
        ]
