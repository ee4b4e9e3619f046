-- ===== src/Sync/Commit/Made.antt =====
-- src/sync.rs: what the changes of a commit have done, once none of them has failed.
pub mod Items
pub mod Plans
use mathlib.Core.List.{append_assoc}
use vivado_server.Base.{
  ◌≡◌, ◌⊎◌, refl, ap, ◌∙◌, sym, subst, Str, codes, if◌then◌else◌, Bool, true, false, Option, none,
  some, inl, inr, List, [], ◌∷◌, ◌++◌, arith,
}
use vivado_server.Error.{AppError, Result-cases, ok, err, ◌>>=◌, ◌>>◌}
use vivado_server.Sync.Model.{ManifestEntry}
use vivado_server.Sync.Plan.{PlannedUpload}
use vivado_server.Sync.Disk.{FilePath, Disk}
use vivado_server.Sync.Transaction.{
  AppliedChange, CommitTransaction, Outcome, create_missing_dir, delete_file, delete_empty_dir,
  install_file, replace_project,
}
use vivado_server.Sync.Transaction.Made.{
  Has-grown, Grown, Makes, IsInstalled, IsGone, IsMade, install_file-Makes, replace_project-Makes,
  delete_file-Makes, delete_empty_dir-Makes, create_missing_dir-Makes,
}
use vivado_server.Sync.Sessions.{CommitPlan}
use vivado_server.Sync.Commit.Checks.{Site, resolve_relative_path, project_dir, files_dir}
use vivado_server.Sync.Commit.{
  for_each, and_then, deleted, delete_planned_file, delete_planned_dir, unlisted,
  create_planned_dir, with_attributes, install_staged, install_planned, push_changes,
  replace_changes, make_changes,
}

-- Something of each item.
abbrev pub Every :
    {A : Type 0} → (A → List AppliedChange → Type 0) → List A → List AppliedChange → Type 0
Every P [] changes = Unit {0}
Every P (x ∷ xs) changes = P x changes × Every P xs changes

-- What further changes leave true.
abbrev pub Lasting : (List AppliedChange → Type 0) → Type 0
Lasting P = (more changes : List AppliedChange) → P changes → P (more ++ changes)

pub Every-Lasting :
    {A : Type 0} (P : A → List AppliedChange → Type 0)
    → ((x : A) → Lasting (P x))
    → (xs : List A) → Lasting (Every P xs)
Every-Lasting P lasts [] more changes h = tt
Every-Lasting P lasts (x ∷ xs) more changes (h, rest) =
    (lasts x more changes h, Every-Lasting P lasts xs more changes rest)

Grown-trans : (t t' t'' : CommitTransaction) → Grown t t' → Grown t' t'' → Grown t t''
Grown-trans t t' t'' (more, e) (further, f) =
    (further ++ more, f ∙ ap (λ cs. further ++ cs) e ∙ sym (append_assoc further more t.changes))

lasting :
    (P : List AppliedChange → Type 0) (t t' : CommitTransaction)
    → Lasting P
    → Grown t t'
    → P t.changes
    → P t'.changes
lasting P t t' lasts (more, e) p = subst P (sym e) (lasts more t.changes p)

module _ (disk : Disk) where
  open disk use {State}

  pub and_then-Makes :
      {A B : Type 0} (P Q : List AppliedChange → Type 0) (t : CommitTransaction)
      (outcome : Outcome disk A) (next : A → CommitTransaction → State → Outcome disk B)
      → Lasting P
      → Makes disk P t outcome
      → ((a : A) (t' : CommitTransaction) (s' : State) → Makes disk Q t' (next a t' s'))
      → Makes disk (λ cs. P cs × Q cs) t (and_then disk outcome next)
  and_then-Makes P Q t (err e, t', s) next lasts (grown, how) later = (grown, inl (e, refl))
  and_then-Makes P Q t (ok a, t', s) next lasts (grown, inl (e, bad)) later =
      absurd (ground (arith, bad))
  and_then-Makes P Q t (ok a, t', s) next lasts (grown, inr p) later =
      let (further, how) = later a t' s in
      (
        Grown-trans t t' (next a t' s).1 grown further,
        elim how [
          | inl (e, bad) ↦ inl (e, bad)
          | inr q ↦ inr (lasting P t' (next a t' s).1 lasts further p, q)
        ],
      )

  pub for_each-Makes :
      {A B : Type 0} (operation : A → CommitTransaction → State → Outcome disk (Option B))
      (P : A → List AppliedChange → Type 0)
      → ((x : A) → Lasting (P x))
      → ((x : A) (t : CommitTransaction) (s : State) → Makes disk (P x) t (operation x t s))
      → (xs : List A) (t : CommitTransaction) (s : State)
      → Makes disk (Every P xs) t (for_each disk operation xs t s)
  unfolding for_each
  for_each-Makes operation P lasts each [] t s = (([], refl), inr tt)
  for_each-Makes operation P lasts each (x ∷ xs) t s =
      let o = operation x t s in
      let (grown, how) = each x t s in
      let (further, rest) = for_each-Makes operation P lasts each xs o.1 o.2 in
      let later = for_each disk operation xs o.1 o.2 in
      elim (Result-cases o.0) [
        | inl (e, bad) ↦ rw (for_each, bad) (grown, inl (e, refl))
        | inr (found, good) ↦
            rw (for_each, good)
              (
                Grown-trans t o.1 later.1 grown further,
                elim how [
                  | inl (e, bad) ↦ absurd (ground (arith, good, bad))
                  | inr p ↦ elim rest [
                    | inl (e, bad) ↦ inl (
                      e,
                      ap (λ r. r >>= λ ys. ok (elim found [ some b ↦ b ∷ ys | none ↦ ys ])) bad,
                    )
                    | inr all_later ↦ inr (lasting (P x) o.1 later.1 (lasts x) further p, all_later)
                  ]
                ],
              )
      ]

  module _ (site : Site disk) where
    -- What the plan lists for a path has been done where the path leads.
    abbrev pub IsDeleted : Str → List AppliedChange → Type 0
    IsDeleted path changes =
        (target : FilePath) × (resolve_relative_path (project_dir disk site) path ≡ ok target)
        × IsGone disk target changes

    abbrev pub IsCreated : Str → List AppliedChange → Type 0
    IsCreated path changes =
        (target : FilePath) × (resolve_relative_path (project_dir disk site) path ≡ ok target)
        × IsMade disk target changes

    abbrev pub IsUploaded : PlannedUpload → List AppliedChange → Type 0
    IsUploaded upload changes =
        (target : FilePath) × (staged : FilePath) × (resolve_relative_path (project_dir disk site)
            upload.entry.path
          ≡ ok target)
        × (resolve_relative_path (files_dir disk site) upload.entry.path ≡ ok staged)
        × IsInstalled disk staged target changes

    -- All of a plan
    abbrev pub IsCarriedOut : Bool → CommitPlan → List AppliedChange → Type 0
    IsCarriedOut true plan changes =
        IsInstalled disk (files_dir disk site) (project_dir disk site) changes
    IsCarriedOut false plan changes =
        IsMade disk (project_dir disk site) changes
        × Every IsDeleted plan.changes.delete_files changes
        × Every IsDeleted plan.changes.delete_dirs changes
        × Every IsCreated plan.changes.create_dirs changes
        × Every IsUploaded plan.changes.files changes
