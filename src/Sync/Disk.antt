-- ===== src/Sync/Disk.antt =====
-- The file system that src/sync/transaction.rs works on: a parameter, with what the code relies on.
use vivado_server.Base.{◌≡◌, Str, Bool, true, false, ◌&&◌, not, List, ◌++◌, [], ◌∷◌}

abbrev pub FilePath : Type 0
FilePath = List Str

-- `Path::join`, of a single name.
abbrev pub join_path : FilePath → Str → FilePath
join_path root name = root ++ (name ∷ [])

-- `std::io::Error`: whether its kind is `NotFound`, and its text.
pub record IoError : Type 0 where
  pub not_found : Bool
  pub display : Str

pub data IoResult (A : Type 0) : Type 0 where
  done : A → IoResult A
  failed : IoError → IoResult A

-- `std::fs::Metadata`
pub record Metadata : Type 0 where
  pub is_dir : Bool
  pub is_file : Bool
  pub is_link : Bool

-- `metadata.is_dir() && !metadata_is_link(&metadata)`, and the same of a file.
abbrev pub is_real_dir : Metadata → Bool
is_real_dir metadata = metadata.is_dir && not metadata.is_link

abbrev pub is_real_file : Metadata → Bool
is_real_file metadata = metadata.is_file && not metadata.is_link

-- The calls of `tokio::fs`. Those that only look return no state.
pub record Disk : Type 1 where
  pub State : Type 0
  pub symlink_metadata : FilePath → State → IoResult Metadata
  pub read_dir : FilePath → State → IoResult (List (IoResult Str))
  pub create_dir : FilePath → State → IoResult (Unit {0}) × State
  pub create_dir_all : FilePath → State → IoResult (Unit {0}) × State
  pub remove_dir : FilePath → State → IoResult (Unit {0}) × State
  pub remove_file : FilePath → State → IoResult (Unit {0}) × State
  pub rename : FilePath → FilePath → State → IoResult (Unit {0}) × State

module _ (disk : Disk) where
  open disk use {State, symlink_metadata, create_dir, remove_dir, rename}

  -- There is nothing at the path.
  abbrev pub Missing : FilePath → State → Type 0
  Missing path s = (e : IoError) × (symlink_metadata path s ≡ failed e) × (e.not_found ≡ true)

  -- What a transaction relies on, as rename(2), mkdir(2) and rmdir(2) document it while nobody else
  -- works on the same paths: a call that fails changes nothing, a rename to a free name leaves
  -- its source free and is undone by the rename back, and a new directory is there, and is undone
  -- by its removal.
  pub record IsReversible : Type 0 where
    pub create_failed :
        (path : FilePath) (s t : State) (e : IoError) → create_dir path s ≡ (failed e, t) → t ≡ s
    pub rename_failed :
        (a b : FilePath) (s t : State) (e : IoError) → rename a b s ≡ (failed e, t) → t ≡ s
    pub rename_leaves :
        (a b : FilePath) (s t : State) → Missing b s → rename a b s ≡ (done tt, t) → Missing a t
    pub rename_back :
        (a b : FilePath) (s t u : State)
        → Missing b s
        → rename a b s ≡ (done tt, t)
        → rename b a t ≡ (done tt, u)
        → u ≡ s
    pub create_there :
        (path : FilePath) (s t u : State) (e : IoError)
        → create_dir path s ≡ (done tt, t)
        → remove_dir path t ≡ (failed e, u)
        → e.not_found ≡ false
    pub create_back :
        (path : FilePath) (s t u : State)
        → create_dir path s ≡ (done tt, t)
        → remove_dir path t ≡ (done tt, u)
        → u ≡ s
