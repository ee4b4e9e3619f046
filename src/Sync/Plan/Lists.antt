-- ===== src/Sync/Plan/Lists.antt =====
-- src/sync.rs: the lists of a plan, and what the deletions add to them.
use vivado_server.Base.{
  ◌≡◌, refl, ap, ◌∙◌, Str, ◌=s=◌, =s=_eq, any, filter, map, Bool, ◌&&◌, ◌||◌, Bool-cases, inl, inr,
  List, [], ◌∷◌, arith,
}
use vivado_server.Sync.Model.{ManifestEntry}
use vivado_server.Sync.Order.{is_below}
use vivado_server.Sync.Order.Strict.{contains_path}
use vivado_server.Sync.Manifest.Ancestors.{any-append}
use vivado_server.Sync.Manifest.Checked.{has_path}
use vivado_server.Sync.Plan.{Plan, delete_entry, delete_entries}

abbrev pub uploads : Plan → List ManifestEntry
uploads plan = map (λ u. u.entry) plan.files

abbrev pub creates : Plan → Str → Bool
creates plan p = contains_path p plan.create_dirs

abbrev pub deletes : Plan → Str → Bool
deletes plan p = contains_path p plan.delete_files || contains_path p plan.delete_dirs

delete_entry-deletes :
    (old : ManifestEntry) (plan : Plan) (p : Str)
    → deletes (delete_entry plan old) p ≡ (deletes plan p || old.path =s= p)
unfolding delete_entry
delete_entry-deletes old plan p = ground (
  arith,
  any-append (λ q. q =s= p) plan.delete_files (old.path ∷ []),
  any-append (λ q. q =s= p) plan.delete_dirs (old.path ∷ []),
)

pub delete_entries-deletes :
    (olds : List ManifestEntry) (plan : Plan) (p : Str)
    → deletes (delete_entries olds plan) p ≡ (deletes plan p || has_path p olds)
unfolding delete_entries
delete_entries-deletes [] plan p = ground arith
delete_entries-deletes (old ∷ olds) plan p =
    delete_entries-deletes olds (delete_entry plan old) p
    ∙ ap (λ b. b || has_path p olds) (delete_entry-deletes old plan p)
    ∙ ground arith

-- The deletions leave the other lists alone.
abbrev pub SameWants : Plan → Plan → Type 0
SameWants plan plan' = (plan'.files ≡ plan.files) × (plan'.create_dirs ≡ plan.create_dirs)

pub delete_entries-SameWants :
    (olds : List ManifestEntry) (plan : Plan) → SameWants plan (delete_entries olds plan)
unfolding delete_entries
delete_entries-SameWants [] plan = (refl, refl)
delete_entries-SameWants (old ∷ olds) plan =
    let (f, c) = delete_entries-SameWants olds (delete_entry plan old) in
    let (g, d) = alone old plan in (f ∙ g, c ∙ d)
  where
    alone : (old : ManifestEntry) (plan : Plan) → SameWants plan (delete_entry plan old)
    alone old plan = unfold delete_entry in (ground arith, ground arith)

pub has_path-filter :
    (test : ManifestEntry → Bool) (p : Str) (es : List ManifestEntry)
    → has_path p (filter test es) ≡ any (λ e. test e && e.path =s= p) es
has_path-filter test p [] = refl
has_path-filter test p (e ∷ es) = ground (arith, has_path-filter test p es)

pub any-below :
    (p path : Str) (es : List ManifestEntry)
    → any (λ c. is_below c.path path && c.path =s= p) es ≡ (is_below p path && has_path p es)
any-below p path [] = ground arith
any-below p path (e ∷ es) = elim (Bool-cases (e.path =s= p)) [
  | inr off ↦ ground (arith, off, any-below p path es)
  | inl at ↦ ground (arith, at, ap (λ q. is_below q path) (=s=_eq e.path p at), any-below p path es)
]
