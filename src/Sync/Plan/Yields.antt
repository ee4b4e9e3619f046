-- ===== src/Sync/Plan/Yields.antt =====
-- src/sync.rs: a plan that is carried out yields the tree that is wanted.
use vivado_server.Base.{
  ℕ, ◌≡◌, refl, ap, ◌∙◌, Str, ◌=s=◌, if◌then◌else◌, any, filter, map, Bool, true, false, ◌&&◌, ◌||◌,
  not, Bool-cases, Option-cases, inl, inr, none, some, List, [], arith,
}
use vivado_server.Error.{ok}
use vivado_server.Sync.Model.{ManifestEntry}
use vivado_server.Sync.Order.Strict.{contains_path}
use vivado_server.Sync.Manifest.{is_dir, is_file, dir_entry, find_entry}
use vivado_server.Sync.Manifest.Entries.{Distinct, find_entry-path, manifest_map-ordered}
use vivado_server.Sync.Manifest.Checked.{AllEntries, has_path, kind_cases}
use vivado_server.Sync.Manifest.Complete.{HasParents, find_entry-none}
use vivado_server.Sync.Manifest.Valid.{IsManifest}
use vivado_server.Sync.Plan.{
  Plan, no_changes, same_file, contains_key, want_entries, drop_extra, sort_plan, make_plan,
  planned_push, planned_pull,
}
use vivado_server.Sync.Plan.Lists.{uploads, creates, deletes}
use vivado_server.Sync.Plan.Diff.{old_of, sends, makes, replaces, want_entries-AddsAll}
use vivado_server.Sync.Plan.Carried.{
  carry_out, Meets, replaced, any_at, find_at, ordered-Distinct, carry_out-sort_plan, all_entries,
  drop_extra-deletes, drop_extra-SameWants, wanted_kept,
}

-- The plan before it is sorted.
record Collects (delete_extra : Bool) (wanted baseline : List ManifestEntry) (plan : Plan)
    : Type 0 where
  sent : uploads plan ≡ filter (sends baseline) wanted
  made : (p : Str) → creates plan p ≡ any (λ e. makes baseline e && e.path =s= p) wanted
  gone :
      (p : Str)
      → deletes plan p ≡ (
          any (λ e. replaces baseline e && e.path =s= p) wanted
          || replaced wanted baseline p
          || (delete_extra && not (contains_key wanted p) && has_path p baseline))

collect :
    (delete_extra : Bool) (max : ℕ) (wanted baseline : List ManifestEntry)
    → AllEntries max wanted
    → (plan : Plan) × (want_entries baseline wanted no_changes ≡ ok plan)
      × Collects delete_extra wanted baseline (drop_extra delete_extra wanted baseline plan)
collect delete_extra max wanted baseline fit =
    let (plan, done, adds) = want_entries-AddsAll baseline max wanted no_changes fit in
    let (same_f, same_c) = drop_extra-SameWants delete_extra wanted baseline plan in
    (
      plan,
      done,
      record {
        sent = ap (map (λ u. u.entry)) same_f ∙ adds.sent;
        made = λ p. ap (contains_path p) same_c ∙ adds.made p ∙ ground arith;
        gone = λ p.
            drop_extra-deletes delete_extra wanted baseline plan p ∙ ground (arith, adds.gone p);
      },
    )

old_at :
    (p : Str) (e : ManifestEntry) (baseline : List ManifestEntry)
    → e.path ≡ p
    → old_of baseline e ≡ find_entry p baseline
old_at p e baseline at = ap (λ q. find_entry q baseline) at

same_file_kinds :
    (e f : ManifestEntry) → same_file e f ≡ true → (is_file e.kind ≡ true) × (is_file f.kind ≡ true)
unfolding same_file
same_file_kinds e f h = ground arith

-- An entry for which nothing is done is there.
nothing_there :
    (baseline : List ManifestEntry) (e : ManifestEntry)
    → old_of baseline e ≡ none
    → sends baseline e ≡ false
    → makes baseline e ≡ false
    → ⊥
unfolding is_dir is_file
nothing_there baseline e absent stays there = ground arith

already_there :
    (baseline : List ManifestEntry) (e f : ManifestEntry)
    → old_of baseline e ≡ some f
    → sends baseline e ≡ false
    → makes baseline e ≡ false
    → Meets e f × (replaces baseline e ≡ false)
unfolding is_dir is_file
already_there baseline e f present stays there = elim (kind_cases e.kind) [
  | inl file ↦
      let same : same_file e f ≡ true = ground arith in
      let kinds = same_file_kinds e f same in (inr (inr same), ground (arith, kinds))
  | inr plain ↦ (inl (ground arith, ground arith), ground arith)
]

module _ (delete_extra : Bool) (wanted baseline : List ManifestEntry) (plan : Plan)
    (distinct : Distinct wanted) (closed : HasParents wanted)
    (collects : Collects delete_extra wanted baseline plan) where
  carry_out-wanted :
      (p : Str) (e : ManifestEntry)
      → find_entry p wanted ≡ some e
      → (found : ManifestEntry) × (carry_out plan baseline p ≡ some found) × Meets e found
  unfolding is_dir is_file
  carry_out-wanted p e at =
      let sent_p = ap (find_entry p) collects.sent ∙ find_at (sends baseline) p wanted distinct in
      let made_p = collects.made p ∙ any_at (makes baseline) p wanted distinct in
      let gone_p = collects.gone p in
      let self_p = any_at (replaces baseline) p wanted distinct in
      let kept = wanted_kept wanted baseline p e distinct closed at in
      let old = old_at p e baseline (find_entry-path p wanted e at) in
      elim (Bool-cases (sends baseline e)) [
        | inl send ↦ (e, ground (arith, sent_p, at, send), inr (inl refl))
        | inr stays ↦ elim (Bool-cases (makes baseline e)) [
          | inl make ↦ (
            dir_entry p,
            ground (arith, sent_p, made_p, at, stays, make),
            inl (ground arith, refl),
          )
          | inr there ↦ elim (Option-cases (find_entry p baseline)) [
            | inl absent ↦ absurd (nothing_there baseline e (old ∙ absent) stays there)
            | inr (f, present) ↦
                let (meets, stay) = already_there baseline e f (old ∙ present) stays there in
                (
                  f,
                  ground (
                    arith, sent_p, made_p, gone_p, self_p, at, kept, present, stays, there, stay,
                  ),
                  meets,
                )
          ]
        ]
      ]

  carry_out-unwanted :
      (p : Str)
      → find_entry p wanted ≡ none
      → carry_out plan baseline p
        ≡ (if delete_extra || replaced wanted baseline p then none else find_entry p baseline)
  carry_out-unwanted p at =
      let sent_p = ap (find_entry p) collects.sent ∙ find_at (sends baseline) p wanted distinct in
      let made_p = collects.made p ∙ any_at (makes baseline) p wanted distinct in
      let gone_p = collects.gone p in
      let self_p = any_at (replaces baseline) p wanted distinct in
      elim (Bool-cases (has_path p baseline)) [
        | inl there ↦ ground (arith, sent_p, made_p, gone_p, self_p, there, at)
        | inr absent ↦
            ground
              (arith, sent_p, made_p, gone_p, self_p, absent, at, find_entry-none p baseline absent)
      ]

-- At every wanted path there is an entry that the service does not tell from the wanted one. At
-- every other path nothing is left if the request says so, or if a wanted file stands where a
-- directory above was; else all is as before.
abbrev pub Yields : Bool → List ManifestEntry → List ManifestEntry → Plan → Type 0
Yields delete_extra wanted baseline plan =
    ((p : Str) (e : ManifestEntry)
      → find_entry p wanted ≡ some e
      → (found : ManifestEntry) × (carry_out plan baseline p ≡ some found) × Meets e found)
    × ((p : Str)
        → find_entry p wanted ≡ none
        → carry_out plan baseline p
          ≡ (if delete_extra || replaced wanted baseline p then none else find_entry p baseline))

make_plan-Yields :
    (delete_extra : Bool) (max_entries max_file_bytes : ℕ) (wanted baseline : List ManifestEntry)
    → IsManifest max_entries max_file_bytes wanted
    → (plan : Plan) × (make_plan delete_extra wanted baseline ≡ ok plan)
      × Yields delete_extra wanted baseline plan
unfolding make_plan
make_plan-Yields delete_extra max_entries max_file_bytes wanted baseline v =
    let distinct = ordered-Distinct wanted v.ordered in
    let fit = all_entries max_file_bytes wanted distinct (λ p e at. (v.fit p e at).1) in
    let (raw, done, collects) = collect delete_extra max_file_bytes wanted baseline fit in
    let plan = drop_extra delete_extra wanted baseline raw in
    (
      sort_plan plan,
      rw done refl,
      (
        (λ p e at.
            let (found, there, meets) =
              carry_out-wanted delete_extra wanted baseline plan distinct v.has_parents collects p e
                at in
            (found, carry_out-sort_plan plan baseline p ∙ there, meets)),
        (λ p at.
            carry_out-sort_plan plan baseline p
            ∙ carry_out-unwanted delete_extra wanted baseline plan distinct v.has_parents collects p
                at),
      ),
    )

-- Between valid manifests every plan is made, and yields what is wanted: a push the client's tree
-- on the server, a full replacement the client's tree from nothing, and a pull the server's tree
-- at the client.
pub plans-Yields :
    (delete_extra filtered : Bool) (max_entries max_file_bytes : ℕ)
    (client server : List ManifestEntry)
    → IsManifest max_entries max_file_bytes client
    → IsManifest max_entries max_file_bytes server
    → ((plan : Plan) × (planned_push false filtered delete_extra client (ok server) ≡ ok plan)
        × Yields delete_extra client server plan)
      × ((plan : Plan) × (planned_push true false delete_extra client (ok server) ≡ ok plan)
          × Yields false client [] plan)
      × ((plan : Plan) × (planned_pull delete_extra client (ok server) ≡ ok plan)
          × Yields delete_extra server client plan)
unfolding planned_push planned_pull
plans-Yields delete_extra filtered max_entries max_file_bytes client server v w =
    let c = manifest_map-ordered client v.ordered in
    let s = manifest_map-ordered server w.ordered in
    let (plan, done, yields) =
      make_plan-Yields delete_extra max_entries max_file_bytes client server v in
    let (rebuilt, done', yields') = make_plan-Yields false max_entries max_file_bytes client [] v in
    let (pulled, done'', yields'') =
      make_plan-Yields delete_extra max_entries max_file_bytes server client w in
    (
      (plan, ground (arith, c, s, done), yields),
      (rebuilt, ground (arith, c, done'), yields'),
      (pulled, ground (arith, c, s, done''), yields''),
    )
