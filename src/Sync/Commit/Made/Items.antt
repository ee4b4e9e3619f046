-- ===== src/Sync/Commit/Made/Items.antt =====
-- src/sync.rs: what the operation for one item of a plan has done, if it has not failed.
use vivado_server.Base.{
  ◌≡◌, refl, ap, sym, subst, Str, if◌then◌else◌, Bool, none, some, inl, inr, List, [],
}
use vivado_server.Error.{Result-cases, ok, ◌>>=◌, ◌>>◌}
use vivado_server.Sync.Model.{ManifestEntry}
use vivado_server.Sync.Plan.{PlannedUpload}
use vivado_server.Sync.Disk.{FilePath, Disk}
use vivado_server.Sync.Transaction.{
  AppliedChange, CommitTransaction, Outcome, create_missing_dir, delete_file, delete_empty_dir,
  install_file,
}
use vivado_server.Sync.Transaction.Made.{
  Has-grown, Makes, IsInstalled, IsGone, IsMade, install_file-Makes, delete_file-Makes,
  delete_empty_dir-Makes, create_missing_dir-Makes,
}
use vivado_server.Sync.Commit.Checks.{Site, resolve_relative_path, project_dir, files_dir}
use vivado_server.Sync.Commit.{
  deleted, delete_planned_file, delete_planned_dir, unlisted, create_planned_dir, with_attributes,
  install_staged, install_planned,
}
use vivado_server.Sync.Commit.Made.{Lasting, IsDeleted, IsCreated, IsUploaded}

module _ (disk : Disk) (site : Site disk) where
  open disk use {State}

  pub IsInstalled-Lasting : (staged target : FilePath) → Lasting (IsInstalled disk staged target)
  IsInstalled-Lasting staged target more changes (saved, h) = (saved, Has-grown _ more changes h)

  IsGone-Lasting : (target : FilePath) → Lasting (IsGone disk target)
  IsGone-Lasting target more changes (inl (saved, h)) = inl (saved, Has-grown _ more changes h)
  IsGone-Lasting target more changes (inr absent) = inr absent

  pub IsMade-Lasting : (target : FilePath) → Lasting (IsMade disk target)
  IsMade-Lasting target more changes (inl h) = inl (Has-grown _ more changes h)
  IsMade-Lasting target more changes (inr there) = inr there

  pub IsDeleted-Lasting : (path : Str) → Lasting (IsDeleted disk site path)
  IsDeleted-Lasting path more changes (target, at, h) =
      (target, at, IsGone-Lasting target more changes h)

  pub IsCreated-Lasting : (path : Str) → Lasting (IsCreated disk site path)
  IsCreated-Lasting path more changes (target, at, h) =
      (target, at, IsMade-Lasting target more changes h)

  pub IsUploaded-Lasting : (upload : PlannedUpload) → Lasting (IsUploaded disk site upload)
  IsUploaded-Lasting upload more changes (target, staged, at, from, h) =
      (target, staged, at, from, IsInstalled-Lasting staged target more changes h)

  deleted-Makes :
      (path : Str) (target : FilePath) (t : CommitTransaction) (o : Outcome disk Bool)
      → resolve_relative_path (project_dir disk site) path ≡ ok target
      → Makes disk (IsGone disk target) t o
      → Makes disk (IsDeleted disk site path) t (deleted disk site path o)
  unfolding deleted
  deleted-Makes path target t (result, t', s) at (grown, inl (e, bad)) =
      (grown, inl (e, ap (λ r. r >>= λ gone. ok (if gone then some path else none)) bad))
  deleted-Makes path target t (result, t', s) at (grown, inr p) = (grown, inr (target, at, p))

  pub delete_planned_file-Makes :
      (path : Str) (t : CommitTransaction) (s : State)
      → Makes disk (IsDeleted disk site path) t (delete_planned_file disk site path t s)
  unfolding delete_planned_file
  delete_planned_file-Makes path t s =
      elim (Result-cases (resolve_relative_path (project_dir disk site) path)) [
        | inl (e, bad) ↦ rw (delete_planned_file, bad) (([], refl), inl (e, refl))
        | inr (target, good) ↦
            subst (Makes disk (IsDeleted disk site path) t) (sym (plan_goes target good)) (
              deleted-Makes path target t (delete_file disk (site.draw t s) target path t s) good
                (delete_file-Makes disk (site.draw t s) target path t s))
      ]
    where
      plan_goes :
          (target : FilePath)
          → resolve_relative_path (project_dir disk site) path ≡ ok target
          → delete_planned_file disk site path t s
            ≡ deleted disk site path (delete_file disk (site.draw t s) target path t s)
      plan_goes target good = rw (delete_planned_file, good) refl

  pub delete_planned_dir-Makes :
      (path : Str) (t : CommitTransaction) (s : State)
      → Makes disk (IsDeleted disk site path) t (delete_planned_dir disk site path t s)
  unfolding delete_planned_dir
  delete_planned_dir-Makes path t s =
      elim (Result-cases (resolve_relative_path (project_dir disk site) path)) [
        | inl (e, bad) ↦ rw (delete_planned_dir, bad) (([], refl), inl (e, refl))
        | inr (target, good) ↦
            subst (Makes disk (IsDeleted disk site path) t) (sym (plan_goes target good)) (
              deleted-Makes path target t (delete_empty_dir disk (site.draw t s) target path t s)
                good (delete_empty_dir-Makes disk (site.draw t s) target path t s))
      ]
    where
      plan_goes :
          (target : FilePath)
          → resolve_relative_path (project_dir disk site) path ≡ ok target
          → delete_planned_dir disk site path t s
            ≡ deleted disk site path (delete_empty_dir disk (site.draw t s) target path t s)
      plan_goes target good = rw (delete_planned_dir, good) refl

  unlisted-Makes :
      (path : Str) (target : FilePath) (t : CommitTransaction) (o : Outcome disk (Unit {0}))
      → resolve_relative_path (project_dir disk site) path ≡ ok target
      → Makes disk (IsMade disk target) t o
      → Makes disk (IsCreated disk site path) t (unlisted disk site o)
  unfolding unlisted
  unlisted-Makes path target t (result, t', s) at (grown, inl (e, bad)) =
      (grown, inl (e, ap (λ r. r >>= λ unit. ok none) bad))
  unlisted-Makes path target t (result, t', s) at (grown, inr p) = (grown, inr (target, at, p))

  pub create_planned_dir-Makes :
      (path : Str) (t : CommitTransaction) (s : State)
      → Makes disk (IsCreated disk site path) t (create_planned_dir disk site path t s)
  unfolding create_planned_dir
  create_planned_dir-Makes path t s =
      elim (Result-cases (resolve_relative_path (project_dir disk site) path)) [
        | inl (e, bad) ↦ rw (create_planned_dir, bad) (([], refl), inl (e, refl))
        | inr (target, good) ↦
            subst (Makes disk (IsCreated disk site path) t) (sym (plan_goes target good)) (
              unlisted-Makes path target t (create_missing_dir disk target path t s) good
                (create_missing_dir-Makes disk target path t s))
      ]
    where
      plan_goes :
          (target : FilePath)
          → resolve_relative_path (project_dir disk site) path ≡ ok target
          → create_planned_dir disk site path t s
            ≡ unlisted disk site (create_missing_dir disk target path t s)
      plan_goes target good = rw (create_planned_dir, good) refl

  with_attributes-Makes :
      (P : List AppliedChange → Type 0) (target : FilePath) (entry : ManifestEntry)
      (t : CommitTransaction) (o : Outcome disk (Unit {0}))
      → Makes disk P t o
      → Makes disk P t (with_attributes disk site target entry o)
  unfolding with_attributes
  with_attributes-Makes P target entry t (result, t', s) (grown, inl (e, bad)) = (
    grown,
    inl (e, ap (λ r. r >> (site.set_file_attributes target entry s >>= λ unit. ok none)) bad),
  )
  with_attributes-Makes P target entry t (result, t', s) (grown, inr p) = (grown, inr p)

  pub install_planned-Makes :
      (upload : PlannedUpload) (t : CommitTransaction) (s : State)
      → Makes disk (IsUploaded disk site upload) t (install_planned disk site upload t s)
  unfolding install_planned install_staged
  install_planned-Makes upload t s =
      elim (Result-cases (resolve_relative_path (project_dir disk site) upload.entry.path)) [
        | inl (e, bad) ↦ rw (install_planned, bad) (([], refl), inl (e, refl))
        | inr (target, good) ↦
            elim (Result-cases (resolve_relative_path (files_dir disk site) upload.entry.path)) [
              | inl (e, bad) ↦ rw (install_planned, good, bad) (([], refl), inl (e, refl))
              | inr (staged, there) ↦
                  let (grown, how) =
                    install_file-Makes disk (site.draw t s) staged target upload.entry.path t s in
                  subst (Makes disk (IsUploaded disk site upload) t)
                    (sym (plan_goes target staged good there))
                    (with_attributes-Makes (IsUploaded disk site upload) target upload.entry t
                      (install_file disk (site.draw t s) staged target upload.entry.path t s)
                      (
                        grown,
                        elim how [
                          | inl bad ↦ inl bad
                          | inr p ↦ inr (target, staged, good, there, p)
                        ],
                      ))
            ]
      ]
    where
      plan_goes :
          (target staged : FilePath)
          → resolve_relative_path (project_dir disk site) upload.entry.path ≡ ok target
          → resolve_relative_path (files_dir disk site) upload.entry.path ≡ ok staged
          → install_planned disk site upload t s
            ≡ with_attributes disk site target upload.entry
                (install_file disk (site.draw t s) staged target upload.entry.path t s)
      plan_goes target staged good there = rw (install_planned, good, there) refl
