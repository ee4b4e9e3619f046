-- ===== src/Sync/Transaction/Examples.antt =====
-- src/sync/transaction.rs: a disk of separate paths, on which the theorems are tried.
use mathlib.Core.Path.{fun_ext}
use vivado_server.Base.{
  ℕ, ◌≡◌, refl, ap, ◌⊎◌, inl, inr, codes, ◌=s=◌, =s=_eq, =s=_self, Bool, true, false, ◌&&◌,
  Bool-cases, Option-cases, if◌then◌else◌, Option, none, some, [], ◌∷◌, arith,
}
use vivado_server.Error.{
  AppError, Message, Result, ok, err, text, conflict, project_reupload_required,
}
use vivado_server.Sync.Disk.{
  FilePath, IoError, IoResult, done, failed, Metadata, Disk, IsReversible, Missing,
}
use vivado_server.Sync.Transaction.{CommitTransaction}
use vivado_server.Sync.Rollback.{settle_transaction}
use vivado_server.Sync.Transaction.Perform.{Operation, perform}
use vivado_server.Sync.Transaction.Rollback.{Run, settle_transaction-restores}

infix 50 ◌=p=◌
unfoldable pub ◌=p=◌ : FilePath → FilePath → Bool
[] =p= [] = true
[] =p= (d ∷ t) = false
(c ∷ s) =p= [] = false
(c ∷ s) =p= (d ∷ t) = c =s= d && s =p= t

=p=_eq : (s t : FilePath) → (s =p= t) ≡ true → s ≡ t
unfolding ◌=p=◌
=p=_eq [] [] h = refl
=p=_eq [] (d ∷ t) h = ground arith
=p=_eq (c ∷ s) [] h = ground arith
=p=_eq (c ∷ s) (d ∷ t) h = ground (arith, =s=_eq c d, =p=_eq s t)

=p=_self : (s : FilePath) → (s =p= s) ≡ true
unfolding ◌=p=◌
=p=_self [] = refl
=p=_self (c ∷ s) = rw (=s=_self c) (=p=_self s)

abbrev pub Tree : Type 0
Tree = FilePath → Option Metadata

abbrev pub absent : IoError
absent = record { not_found = true; display = codes "no such file" }

abbrev in_use : IoError
in_use = record { not_found = false; display = codes "file exists" }

abbrev real_dir : Metadata
real_dir = record { is_dir = true; is_file = false; is_link = false }

abbrev pub real_file : Metadata
real_file = record { is_dir = false; is_file = true; is_link = false }

abbrev look : FilePath → Tree → IoResult Metadata
look path s = elim (s path) [ none ↦ failed absent | some m ↦ done m ]

abbrev pub update : FilePath → Option Metadata → Tree → Tree
update path entry s p = if p =p= path then entry else s p

abbrev make : FilePath → Tree → IoResult (Unit {0}) × Tree
make path s = elim (s path) [
  | none ↦ (done tt, update path (some real_dir) s)
  | some m ↦ (failed in_use, s)
]

abbrev drop_entry : FilePath → Tree → IoResult (Unit {0}) × Tree
drop_entry path s = elim (s path) [
  | none ↦ (failed absent, s)
  | some m ↦ (done tt, update path none s)
]

abbrev move : FilePath → FilePath → Tree → IoResult (Unit {0}) × Tree
move a b s = elim (s a) [
  | none ↦ (failed absent, s)
  | some m ↦ elim (s b) [
    | some n ↦ (failed in_use, s)
    | none ↦ (done tt, update b (some m) (update a none s))
  ]
]

abbrev pub flat : Disk
flat = record {
  State = Tree;
  symlink_metadata = look;
  read_dir = λ path s. done [];
  create_dir = make;
  create_dir_all = make;
  remove_dir = drop_entry;
  remove_file = drop_entry;
  rename = move;
}

free : (path : FilePath) (s : Tree) → Missing flat path s → s path ≡ none
free path s (e, gone, kind) = ground arith

make_there : (path : FilePath) (s t : Tree) → make path s ≡ (done tt, t) → t path ≡ some real_dir
make_there path s t h = elim (Option-cases (s path)) [
  | inl e ↦ ground (arith, =p=_self path)
  | inr (m, e) ↦ absurd (ground arith)
]

make_failed : (path : FilePath) (s t : Tree) (e : IoError) → make path s ≡ (failed e, t) → t ≡ s
make_failed path s t e h = elim (Option-cases (s path)) [
  | inl gone ↦ absurd (ground arith)
  | inr (m, found) ↦ ground arith
]

move_failed : (a b : FilePath) (s t : Tree) (e : IoError) → move a b s ≡ (failed e, t) → t ≡ s
move_failed a b s t e h = elim (Option-cases (s a)) [
  | inl gone ↦ ground arith
  | inr (m, found) ↦ elim (Option-cases (s b)) [
    | inl room ↦ absurd (ground arith)
    | inr (n, used) ↦ ground arith
  ]
]

move_done :
    (a b : FilePath) (s t : Tree)
    → s b ≡ none
    → move a b s ≡ (done tt, t)
    → (m : Metadata) × (s a ≡ some m) × (t ≡ update b (some m) (update a none s))
move_done a b s t room h = elim (Option-cases (s a)) [
  | inl gone ↦ absurd (ground arith)
  | inr (m, found) ↦ (m, found, ground arith)
]

-- Two paths of which one holds something and the other does not.
apart : (a b : FilePath) (s : Tree) (m : Metadata) → s a ≡ some m → s b ≡ none → (a =p= b) ≡ false
apart a b s m found room = elim (Bool-cases (a =p= b)) [
  | inr other ↦ other
  | inl same ↦ let e : s a ≡ s b = ap s (=p=_eq a b same) in absurd (ground arith)
]

move_leaves : (a b : FilePath) (s t : Tree) → s b ≡ none → move a b s ≡ (done tt, t) → t a ≡ none
move_leaves a b s t room h =
    let (m, found, after) = move_done a b s t room h in
    rw after (rw (apart a b s m found room, =p=_self a) refl)

move_back :
    (a b : FilePath) (s t u : Tree)
    → s b ≡ none
    → move a b s ≡ (done tt, t)
    → move b a t ≡ (done tt, u)
    → u ≡ s
move_back a b s t u room h k =
    let (m, found, after) = move_done a b s t room h in
    let (n, moved, back) = move_done b a t u (move_leaves a b s t room h) k in
    fun_ext λ p.
      let u_p = ap (λ (f : Tree). f p) back in
      let t_p = ap (λ (f : Tree). f p) after in
      let t_b = ap (λ (f : Tree). f b) after in
      elim (Bool-cases (p =p= a)) [
        | inl at_a ↦ ground (arith, u_p, t_b, moved, found, =p=_self b, ap s (=p=_eq p a at_a))
        | inr off_a ↦ elim (Bool-cases (p =p= b)) [
          | inl at_b ↦ ground (arith, u_p, room, ap s (=p=_eq p b at_b))
          | inr off_b ↦ ground (arith, u_p, t_p)
        ]
      ]

make_back :
    (path : FilePath) (s t u : Tree)
    → make path s ≡ (done tt, t)
    → drop_entry path t ≡ (done tt, u)
    → u ≡ s
make_back path s t u h k = elim (Option-cases (s path)) [
  | inr (m, found) ↦ absurd (ground arith)
  | inl room ↦
      let after : t ≡ update path (some real_dir) s = ground arith in
      let back : u ≡ update path none t = elim (Option-cases (t path)) [
        | inl gone ↦ absurd (ground arith)
        | inr (m, found) ↦ ground arith
      ] in
      fun_ext λ p.
        let u_p = ap (λ (f : Tree). f p) back in
        let t_p = ap (λ (f : Tree). f p) after in
        elim (Bool-cases (p =p= path)) [
          | inl at ↦ ground (arith, u_p, room, ap s (=p=_eq p path at))
          | inr off ↦ ground (arith, u_p, t_p)
        ]
]

drop_there :
    (path : FilePath) (s t u : Tree) (e : IoError)
    → make path s ≡ (done tt, t)
    → drop_entry path t ≡ (failed e, u)
    → e.not_found ≡ false
drop_there path s t u e h k =
    let there = make_there path s t h in
    elim (Option-cases (t path)) [
      | inl gone ↦ absurd (ground arith)
      | inr (m, found) ↦ absurd (ground arith)
    ]

look_free : (path : FilePath) (s : Tree) → s path ≡ none → look path s ≡ failed absent
look_free path s h = ground arith

pub flat-IsReversible : IsReversible flat
flat-IsReversible = record {
  create_failed = λ path s t e h. make_failed path s t e h;
  rename_failed = λ a b s t e h. move_failed a b s t e h;
  rename_leaves =
      λ a b s t gone h. (absent, look_free a t (move_leaves a b s t (free b s gone) h), refl);
  rename_back = λ a b s t u gone h k. move_back a b s t u (free b s gone) h k;
  create_there = λ path s t u e h k. drop_there path s t u e h k;
  create_back = λ path s t u h k. make_back path s t u h k;
}

-- A commit that replaces one file: the target is backed up, and the staged file is moved in.
abbrev target : FilePath
target = codes "top.v" ∷ []

abbrev staged : FilePath
staged = codes "staged" ∷ []

abbrev initial : Tree
initial = update target (some real_file) (update staged (some real_file) (λ p. none))

abbrev empty : CommitTransaction
empty = record { backup_root = codes "rollback" ∷ []; changes = [] }

abbrev installing : Operation
installing = Operation.install (codes "u1") staged target (codes "top.v")

abbrev late : AppError
late = conflict (text "staged file does not match plan")

installing_run : let pair = perform flat installing empty initial in Run flat initial pair.0 pair.1
unfolding ◌=p=◌ ◌=s=◌
installing_run = Run.next (Run.begin (codes "rollback" ∷ [])) installing (absent, refl, refl) refl

settle_transaction-restores_example :
    let pair = perform flat installing empty initial in
    let (settled, t', s') =
      settle_transaction flat (λ e. []) (λ n. []) {A = ℕ} (err late) pair.0 pair.1 in
    ((value : ℕ) × (◌≡◌ {A = Result ℕ} (err late) (ok value))
      × (settled ≡ ok value)
      × (s' ≡ pair.1))
    ⊎ ((e : AppError) × (◌≡◌ {A = Result ℕ} (err late) (err e))
        × (settled ≡ err e)
        × (s' ≡ initial))
    ⊎ ((e : AppError) × (m : Message) × (◌≡◌ {A = Result ℕ} (err late) (err e))
        × (settled ≡ err (project_reupload_required m)))
settle_transaction-restores_example =
    settle_transaction-restores flat flat-IsReversible (λ e. []) (λ n. []) installing_run (err late)
