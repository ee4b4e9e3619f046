-- ===== src/Sync/Manifest/Complete.antt =====
-- src/sync/files.rs: a manifest with all its parent directories.
use vivado_server.Base.{
  ℕ, ◌≤◌, ◌≡◌, refl, subst, sym, ap, ◌∙◌, Str, ◌=s=◌, =s=_eq, any, length, true, false, Bool-cases,
  Option-cases, inl, inr, none, some, List, [], ◌∷◌, arith,
}
use vivado_server.Error.{Result-cases, ok}
use vivado_server.Sync.Model.{ManifestEntry, ManifestEntryKind}
use vivado_server.Sync.Order.{is_below}
use vivado_server.Sync.Manifest.{
  Synthesis, kind_of, collect_kinds, add_all_parents, synthesize_parent_dirs, find_entry,
}
use vivado_server.Sync.Manifest.Entries.{Distinct}
use vivado_server.Sync.Manifest.Ancestors.{below_trans}
use vivado_server.Sync.Manifest.Checked.{AllEntries, has_path}
use vivado_server.Sync.Manifest.Parents.{kind_at, covered, IsSynthesis, add_all_parents-IsSynthesis}

-- A path above one that is covered has an entry below it.
covered-above :
    (es : List ManifestEntry) (path q : Str)
    → covered es path ≡ true
    → is_below path q ≡ true
    → any (λ e. is_below e.path q) es ≡ true
covered-above [] path q h k = absurd (ground arith)
covered-above (e ∷ es) path q h k = elim (Bool-cases (e.path =s= path)) [
  | inl at ↦
      let below : is_below e.path q ≡ true = ap (λ p. is_below p q) (=s=_eq e.path path at) ∙ k in
      ground arith
  | inr off ↦ ground (arith, below_trans e.path path q, covered-above es path q)
]

pub find_entry-none :
    (path : Str) (es : List ManifestEntry) → has_path path es ≡ false → find_entry path es ≡ none
unfolding find_entry
find_entry-none path [] h = refl
find_entry-none path (e ∷ es) h = ground (arith, find_entry-none path es)

pub find_entry-has :
    (path : Str) (es : List ManifestEntry) (e : ManifestEntry)
    → find_entry path es ≡ some e
    → has_path path es ≡ true
find_entry-has path es e h = elim (Bool-cases (has_path path es)) [
  | inl there ↦ there
  | inr absent ↦ absurd (ground (arith, find_entry-none path es absent))
]

collect_kinds-find :
    (path : Str) (kinds : List (Str × ManifestEntryKind)) (es : List ManifestEntry)
    → Distinct es
    → kind_of path (collect_kinds kinds es)
      ≡ elim (find_entry path es) [ some e ↦ some e.kind | none ↦ kind_of path kinds ]
unfolding collect_kinds kind_of find_entry
collect_kinds-find path kinds [] d = refl
collect_kinds-find path kinds (e ∷ es) (new, d) = elim (Bool-cases (e.path =s= path)) [
  | inr off ↦ ground (arith, off, collect_kinds-find path ((e.path, e.kind) ∷ kinds) es d)
  | inl at ↦
      let gone =
        find_entry-none path es (subst (λ q. has_path q es ≡ false) (=s=_eq e.path path at) new) in
      ground (arith, at, gone, collect_kinds-find path ((e.path, e.kind) ∷ kinds) es d)
]

collect_kinds-right :
    (path : Str) (es : List ManifestEntry)
    → Distinct es
    → kind_of path (collect_kinds [] es) ≡ kind_at path es
unfolding kind_of
collect_kinds-right path es d = collect_kinds-find path [] es d

covered_self :
    (es : List ManifestEntry) (path : Str) → has_path path es ≡ true → covered es path ≡ true
covered_self [] path h = h
covered_self (e ∷ es) path h = ground (arith, covered_self es path)

covered_below :
    (es : List ManifestEntry) (q : Str)
    → any (λ e. is_below e.path q) es ≡ true
    → covered es q ≡ true
covered_below [] q h = h
covered_below (e ∷ es) q h = ground (arith, covered_below es q)

-- Every directory above an entry is an entry.
abbrev pub HasParents : List ManifestEntry → Type 0
HasParents es =
    (path q : Str) (e : ManifestEntry)
    → find_entry path es ≡ some e
    → is_below path q ≡ true
    → (d : ManifestEntry) × (find_entry q es ≡ some d) × (d.kind ≡ ManifestEntryKind.dir)

entry_of_kind :
    (q : Str) (es : List ManifestEntry) (kind : ManifestEntryKind)
    → kind_at q es ≡ some kind
    → (d : ManifestEntry) × (find_entry q es ≡ some d) × (d.kind ≡ kind)
entry_of_kind q es kind h = elim (Option-cases (find_entry q es)) [
  | inl gone ↦ absurd (ground arith)
  | inr (d, found) ↦ (d, found, ground arith)
]

pub synthesize_parent_dirs-HasParents :
    (max_entries max_file_bytes : ℕ) (es complete : List ManifestEntry)
    → AllEntries max_file_bytes es
    → Distinct es
    → length es ≤ max_entries
    → synthesize_parent_dirs max_entries es ≡ ok complete
    → AllEntries max_file_bytes complete
      × Distinct complete
      × (length complete ≤ max_entries)
      × HasParents complete
      × ((path : Str) (e : ManifestEntry)
          → find_entry path es ≡ some e
          → find_entry path complete ≡ some e)
unfolding synthesize_parent_dirs
synthesize_parent_dirs-HasParents max_entries max_file_bytes es complete fit distinct room h =
    elim (Result-cases (add_all_parents max_entries es start)) [
      | inl (x, refused) ↦ absurd (ground arith)
      | inr (s, added) ↦
          let whole : s.entries ≡ complete = ground (arith, added) in
          let (inv, keeps, there) =
            add_all_parents-IsSynthesis max_entries max_file_bytes es es start s fit
              (covered_below es) begins added in
          rw (← whole) (
            inv.entries_fit,
            inv.distinct,
            inv.bounded,
            λ path q e found below. entry_of_kind q s.entries ManifestEntryKind.dir (
                sym (inv.kinds_right q)
                ∙ there q (
                    covered-above es path q
                      (inv.needed path (find_entry-has path s.entries e found)) below)),
            inv.kept,
          )
    ]
  where
    start : Synthesis
    start = record { kinds = collect_kinds [] es; entries = es }

    begins : IsSynthesis max_entries max_file_bytes es start
    begins = record {
      entries_fit = fit;
      distinct = distinct;
      kinds_right = λ path. collect_kinds-right path es distinct;
      needed = covered_self es;
      bounded = room;
      kept = λ path e k. k;
    }
