-- ===== src/Sync/Manifest/Parents.antt =====
-- src/sync/files.rs: the parent directories that are added to a manifest.
use vivado_server.Base.{
  ℕ, suc, ◌≤◌, ◌≡◌, refl, subst, sym, ap, ◌∙◌, Str, ◌=s=◌, =s=_eq, =s=_self, =s=_sym, if◌then◌else◌,
  any, length, length-append, Bool, true, false, ◌||◌, Bool-cases, Option-cases, inl, inr, Option,
  none, some, List, [], ◌∷◌, ◌++◌, arith,
}
use vivado_server.Error.{Result-cases, ok}
use vivado_server.Sync.Model.{ManifestEntry, ManifestEntryKind}
use vivado_server.Sync.Paths.{parent_paths}
use vivado_server.Sync.Paths.Normalize.{IsSyncPath}
use vivado_server.Sync.Order.{is_below}
use vivado_server.Sync.Order.Strict.{contains_path}
use vivado_server.Sync.Manifest.{
  dir_entry, Synthesis, kind_of, add_parent, add_parents, add_all_parents, find_entry,
}
use vivado_server.Sync.Manifest.Entries.{Distinct}
use vivado_server.Sync.Manifest.Ancestors.{any-append, parent_paths-below, below-IsSyncPath}
use vivado_server.Sync.Manifest.Checked.{IsEntry, AllEntries, has_path}

-- The kind of the entry at a path.
abbrev pub kind_at : Str → List ManifestEntry → Option ManifestEntryKind
kind_at path es = elim (find_entry path es) [ none ↦ none | some e ↦ some e.kind ]

-- The path is that of an entry, or an entry is below it.
abbrev pub covered : List ManifestEntry → Str → Bool
covered es path = any (λ e. e.path =s= path || is_below e.path path) es

-- The loop keeps a map of the kinds that is right, and adds only directories that are needed.
pub record IsSynthesis (max_entries max_file_bytes : ℕ) (es : List ManifestEntry) (s : Synthesis)
    : Type 0 where
  pub entries_fit : AllEntries max_file_bytes s.entries
  pub distinct : Distinct s.entries
  pub kinds_right : (path : Str) → kind_of path s.kinds ≡ kind_at path s.entries
  pub needed : (path : Str) → has_path path s.entries ≡ true → covered es path ≡ true
  pub bounded : length s.entries ≤ max_entries
  pub kept :
      (path : Str) (e : ManifestEntry)
      → find_entry path es ≡ some e
      → find_entry path s.entries ≡ some e

-- What a later state keeps of an earlier one.
abbrev pub Keeps : Synthesis → Synthesis → Type 0
Keeps s t =
    (path : Str) (kind : ManifestEntryKind)
    → kind_of path s.kinds ≡ some kind
    → kind_of path t.kinds ≡ some kind

find_entry-append :
    (path : Str) (es : List ManifestEntry) (d : ManifestEntry)
    → find_entry path (es ++ (d ∷ [])) ≡ elim (find_entry path es) [
      | some e ↦ some e
      | none ↦ if d.path =s= path then some d else none
    ]
unfolding find_entry
find_entry-append path [] d = refl
find_entry-append path (e ∷ es) d = ground (arith, find_entry-append path es d)

has_path-find :
    (path : Str) (es : List ManifestEntry) → kind_at path es ≡ none → has_path path es ≡ false
unfolding find_entry
has_path-find path [] h = refl
has_path-find path (e ∷ es) h = ground (arith, has_path-find path es)

AllEntries-append :
    (max : ℕ) (es : List ManifestEntry) (d : ManifestEntry)
    → AllEntries max es
    → IsEntry max d
    → AllEntries max (es ++ (d ∷ []))
AllEntries-append max [] d h k = (k, tt)
AllEntries-append max (e ∷ es) d (first, h) k = (first, AllEntries-append max es d h k)

Distinct-append :
    (es : List ManifestEntry) (d : ManifestEntry)
    → Distinct es
    → has_path d.path es ≡ false
    → Distinct (es ++ (d ∷ []))
Distinct-append [] d h k = (refl, tt)
Distinct-append (e ∷ es) d (first, h) k = (
  any-append (λ x. x.path =s= e.path) es (d ∷ []) ∙ ground (arith, first, =s=_sym d.path e.path, k),
  Distinct-append es d h (ground arith),
)

module _ (max_entries max_file_bytes : ℕ) (es : List ManifestEntry) where
  add_parent-IsSynthesis :
      (parent : Str) (s t : Synthesis)
      → IsSyncPath parent
      → covered es parent ≡ true
      → IsSynthesis max_entries max_file_bytes es s
      → add_parent max_entries parent s ≡ ok t
      → IsSynthesis max_entries max_file_bytes es t
        × Keeps s t
        × (kind_of parent t.kinds ≡ some ManifestEntryKind.dir)
  unfolding add_parent
  add_parent-IsSynthesis parent s t safe need inv h = elim (Option-cases (kind_of parent s.kinds)) [
    | inr (ManifestEntryKind.file, e) ↦ absurd (ground arith)
    | inr (ManifestEntryKind.dir, e) ↦
        let same : s ≡ t = ground arith in rw (← same) (inv, (λ path kind k. k), e)
    | inl new ↦
        let absent_at = λ (path : Str) (at : (parent =s= path) ≡ true).
          ap (λ q. kind_of q s.kinds) (sym (=s=_eq parent path at)) ∙ new in
        let covered_at = λ (path : Str) (at : (parent =s= path) ≡ true).
          ap (covered es) (sym (=s=_eq parent path at)) ∙ need in
        let room : suc (length s.entries) ≤ max_entries = ground arith in
        let whole : record {
          kinds = (parent, ManifestEntryKind.dir) ∷ s.kinds;
          entries = s.entries ++ (dir_entry parent ∷ []);
        }
            ≡ t =
          ground arith in
        rw (← whole) (
          record {
            entries_fit =
                AllEntries-append max_file_bytes s.entries (dir_entry parent) inv.entries_fit
                  (record { safe = safe; shape = inr refl });
            distinct =
                Distinct-append s.entries (dir_entry parent) inv.distinct
                  (has_path-find parent s.entries (sym (inv.kinds_right parent) ∙ new));
            kinds_right = λ path. ground (
              arith,
              find_entry-append path s.entries (dir_entry parent),
              inv.kinds_right path,
              absent_at path,
            );
            needed = λ path k. ground (
              arith,
              inv.needed path,
              any-append (λ x. x.path =s= path) s.entries (dir_entry parent ∷ []),
              covered_at path,
              k,
            );
            bounded = omega (arith, length-append s.entries (dir_entry parent ∷ []));
            kept = λ path e k.
                find_entry-append path s.entries (dir_entry parent)
                ∙ ground (arith, inv.kept path e k);
          },
          (λ path kind k. ground (arith, absent_at path, k)),
          ground (arith, =s=_self parent),
        )
  ]

  add_parents-IsSynthesis :
      (parents : List Str) (s t : Synthesis)
      → ((q : Str) → contains_path q parents ≡ true → IsSyncPath q × (covered es q ≡ true))
      → IsSynthesis max_entries max_file_bytes es s
      → add_parents max_entries parents s ≡ ok t
      → IsSynthesis max_entries max_file_bytes es t
        × Keeps s t
        × ((q : Str)
            → contains_path q parents ≡ true
            → kind_of q t.kinds ≡ some ManifestEntryKind.dir)
  unfolding add_parents
  add_parents-IsSynthesis [] s t fine inv h =
      let same : s ≡ t = ground arith in
      rw (← same) (inv, (λ path kind k. k), λ q k. absurd (ground arith))
  add_parents-IsSynthesis (p ∷ ps) s u fine inv h =
      elim (Result-cases (add_parent max_entries p s)) [
        | inl (x, refused) ↦ absurd (ground arith)
        | inr (t, added) ↦
            let (safe, need) = fine p (ground (arith, =s=_self p)) in
            let (inv', keeps, there) = add_parent-IsSynthesis p s t safe need inv added in
            let (inv'', keeps', rest) =
              add_parents-IsSynthesis ps t u (λ q k. fine q (ground (arith, k))) inv'
                (ground (arith, added)) in
            (
              inv'',
              (λ path kind k. keeps' path kind (keeps path kind k)),
              λ q k. elim (Bool-cases (p =s= q)) [
                | inl at ↦ keeps' q ManifestEntryKind.dir (
                    subst (λ x. kind_of x t.kinds ≡ some ManifestEntryKind.dir) (=s=_eq p q at)
                      there)
                | inr off ↦ rest q (ground arith)
              ],
            )
      ]

  pub add_all_parents-IsSynthesis :
      (todo : List ManifestEntry) (s t : Synthesis)
      → AllEntries max_file_bytes todo
      → ((q : Str) → any (λ e. is_below e.path q) todo ≡ true → covered es q ≡ true)
      → IsSynthesis max_entries max_file_bytes es s
      → add_all_parents max_entries todo s ≡ ok t
      → IsSynthesis max_entries max_file_bytes es t
        × Keeps s t
        × ((q : Str)
            → any (λ e. is_below e.path q) todo ≡ true
            → kind_of q t.kinds ≡ some ManifestEntryKind.dir)
  unfolding add_all_parents
  add_all_parents-IsSynthesis [] s t fit fine inv h =
      let same : s ≡ t = ground arith in
      rw (← same) (inv, (λ path kind k. k), λ q k. absurd (ground arith))
  add_all_parents-IsSynthesis (e ∷ todo) s u (first, fit) fine inv h =
      elim (Result-cases (add_parents max_entries (parent_paths e.path) s)) [
        | inl (x, refused) ↦ absurd (ground arith)
        | inr (t, added) ↦
            let (inv', keeps, there) =
              add_parents-IsSynthesis (parent_paths e.path) s t
                (λ q k.
                  let below : is_below e.path q ≡ true = sym (parent_paths-below e.path q) ∙ k in
                  (below-IsSyncPath e.path q below first.safe, fine q (ground (arith, below))))
                inv added in
            let (inv'', keeps', rest) =
              add_all_parents-IsSynthesis todo t u fit (λ q k. fine q (ground (arith, k))) inv'
                (ground (arith, added)) in
            (
              inv'',
              (λ path kind k. keeps' path kind (keeps path kind k)),
              λ q k. elim (Bool-cases (is_below e.path q)) [
                | inl below ↦
                    keeps' q ManifestEntryKind.dir (there q (parent_paths-below e.path q ∙ below))
                | inr off ↦ rest q (ground arith)
              ],
            )
      ]
