-- ===== src/Sync/Plan/Diff.antt =====
-- src/sync.rs: what the loops of a plan collect.
use mathlib.Core.List.{append_assoc, append-nil, map-append}
use vivado_server.Base.{
  ℕ, ◌≡◌, refl, sym, ap, ◌∙◌, Str, ◌=s=◌, if◌then◌else◌, any, filter, map, Bool, ◌&&◌, ◌||◌, not,
  Bool-cases, inl, inr, Option, List, [], ◌∷◌, ◌++◌, arith,
}
use vivado_server.Error.{ok}
use vivado_server.Sync.Model.{ManifestEntry, ManifestEntryKind, FileTransfer}
use vivado_server.Sync.Order.{is_below}
use vivado_server.Sync.Manifest.{is_dir, is_file, find_entry}
use vivado_server.Sync.Manifest.Ancestors.{any-append}
use vivado_server.Sync.Manifest.Checked.{IsFileEntry, IsEntry, AllEntries, has_path}
use vivado_server.Sync.Plan.{
  PlannedUpload, Plan, was_dir, was_file, was_same, file_transfer, want_dir, delete_entries,
  replace_dir, send_file, want_file, want_entry, want_entries,
}
use vivado_server.Sync.Plan.Lists.{
  uploads, creates, deletes, delete_entries-deletes, SameWants, delete_entries-SameWants,
  has_path-filter, any-below,
}

module _ (baseline : List ManifestEntry) where
  abbrev pub old_of : ManifestEntry → Option ManifestEntry
  old_of e = find_entry e.path baseline

  -- The entry's file has to be sent.
  abbrev pub sends : ManifestEntry → Bool
  sends e = is_file e.kind && not (was_same e (old_of e))

  -- The entry's directory has to be created.
  abbrev pub makes : ManifestEntry → Bool
  makes e = is_dir e.kind && not (was_dir (old_of e))

  -- What is there under the entry's own path has to go.
  abbrev pub replaces : ManifestEntry → Bool
  replaces e = if is_dir e.kind then was_file (old_of e) else was_dir (old_of e)

  -- A path goes since it is below a directory that the entry replaces.
  abbrev pub empties : Str → ManifestEntry → Bool
  empties p e = is_file e.kind && was_dir (old_of e) && is_below p e.path && has_path p baseline

  replace_dir-deletes :
      (path : Str) (plan : Plan) (p : Str)
      → deletes (replace_dir path baseline plan) p
        ≡ (deletes plan p || path =s= p || (is_below p path && has_path p baseline))
  unfolding replace_dir
  replace_dir-deletes path plan p =
      let below = filter (λ (c : ManifestEntry). is_below c.path path) baseline in
      let emptied = delete_entries below plan in
      ground (
        arith,
        any-append (λ q. q =s= p) emptied.delete_dirs (path ∷ []),
        delete_entries-deletes below plan p,
        has_path-filter (λ c. is_below c.path path) p baseline,
        any-below p path baseline,
      )

  file_transfer-total :
      (max : ℕ) (e : ManifestEntry)
      → IsFileEntry max e
      → (t : FileTransfer) × (file_transfer e ≡ ok t)
  unfolding file_transfer is_file
  file_transfer-total max e v =
      let (size, has_size, fits) = v.sized in
      let (mtime, has_time) = v.timed in
      let (sha, has_hash, digits, small) = v.hashed in
      let kind = v.is_file in
      (
        record {
          path = e.path;
          size_bytes = size;
          mtime_unix_ms = mtime;
          sha256 = sha;
          executable = e.executable;
        },
        ground (arith, has_size, has_time, has_hash, kind),
      )

  -- What a round of the loop adds to the plan.
  record Adds (e : ManifestEntry) (plan plan' : Plan) : Type 0 where
    sent : uploads plan' ≡ uploads plan ++ (if sends e then e ∷ [] else [])
    made : (p : Str) → creates plan' p ≡ (creates plan p || (makes e && e.path =s= p))
    gone :
        (p : Str)
        → deletes plan' p ≡ (deletes plan p || (replaces e && e.path =s= p) || empties p e)

  want_dir-Adds :
      (e : ManifestEntry) (plan : Plan)
      → e.kind ≡ ManifestEntryKind.dir
      → Adds e plan (want_dir e (old_of e) plan)
  unfolding want_dir is_dir is_file
  want_dir-Adds e plan k = record {
    sent = ground (arith, k, append-nil (uploads plan));
    made = λ p. ground (arith, k, any-append (λ q. q =s= p) plan.create_dirs (e.path ∷ []));
    gone = λ p. ground (arith, k, any-append (λ q. q =s= p) plan.delete_files (e.path ∷ []));
  }

  send_file-Adds :
      (max : ℕ) (e : ManifestEntry) (plan : Plan)
      → IsFileEntry max e
      → (plan' : Plan) × (send_file e (old_of e) plan ≡ ok plan')
        × (uploads plan' ≡ uploads plan ++ (if sends e then e ∷ [] else []))
        × (plan'.create_dirs ≡ plan.create_dirs)
        × (plan'.delete_files ≡ plan.delete_files)
        × (plan'.delete_dirs ≡ plan.delete_dirs)
  unfolding send_file is_file
  send_file-Adds max e plan v =
      let kind = v.is_file in
      elim (Bool-cases (was_same e (old_of e))) [
        | inl same ↦ (
          plan,
          ground (arith, same),
          ground (arith, same, kind, append-nil (uploads plan)),
          refl,
          refl,
          refl,
        )
        | inr other ↦
            let (t, sent) = file_transfer-total max e v in
            let upload : PlannedUpload = record { entry = e; transfer = t } in
            (
              record plan { files = plan.files ++ (upload ∷ []) },
              ground (arith, other, sent),
              map-append (λ u. u.entry) plan.files (upload ∷ []) ∙ ground (arith, other, kind),
              refl,
              refl,
              refl,
            )
      ]

  want_file-Adds :
      (max : ℕ) (e : ManifestEntry) (plan : Plan)
      → IsFileEntry max e
      → (plan' : Plan) × (want_file e (old_of e) baseline plan ≡ ok plan') × Adds e plan plan'
  unfolding want_file is_file is_dir
  want_file-Adds max e plan v =
      let kind = v.is_file in
      let (mid, sent, files, dirs, dels, deld) = send_file-Adds max e plan v in
      elim (Bool-cases (was_dir (old_of e))) [
        | inr other ↦ (
          mid,
          ground (arith, sent, other),
          record {
            sent = files;
            made = λ p. ground (arith, kind, dirs);
            gone = λ p. ground (arith, kind, other, dels, deld);
          },
        )
        | inl replaced ↦
            let (same_f, same_c) = replace_dir-SameWants e.path mid in
            (
              replace_dir e.path baseline mid,
              ground (arith, sent, replaced),
              record {
                sent = ap (map (λ u. u.entry)) same_f ∙ files;
                made = λ p. ground (arith, kind, dirs, same_c);
                gone = λ p.
                    ground (arith, kind, replaced, dels, deld, replace_dir-deletes e.path mid p);
              },
            )
      ]
    where
      replace_dir-SameWants :
          (path : Str) (plan : Plan) → SameWants plan (replace_dir path baseline plan)
      replace_dir-SameWants path plan =
          unfold replace_dir in
          delete_entries-SameWants (filter (λ c. is_below c.path path) baseline) plan

  want_entry-Adds :
      (max : ℕ) (e : ManifestEntry) (plan : Plan)
      → IsEntry max e
      → (plan' : Plan) × (want_entry baseline e plan ≡ ok plan') × Adds e plan plan'
  unfolding want_entry
  want_entry-Adds max e plan v = elim v.shape [
    | inl file ↦
        let kind = file.is_file in
        let (plan', done, adds) = want_file-Adds max e plan file in
        (plan', ground (arith, kind, done), adds)
    | inr plain ↦
        let kind : e.kind ≡ ManifestEntryKind.dir = ap (λ (d : ManifestEntry). d.kind) plain in
        (want_dir e (old_of e) plan, ground (arith, kind), want_dir-Adds e plan kind)
  ]

  -- What the whole loop adds.
  pub record AddsAll (wanted : List ManifestEntry) (plan plan' : Plan) : Type 0 where
    pub sent : uploads plan' ≡ uploads plan ++ filter sends wanted
    pub made :
        (p : Str) → creates plan' p ≡ (creates plan p || any (λ e. makes e && e.path =s= p) wanted)
    pub gone :
        (p : Str)
        → deletes plan' p ≡ (
            deletes plan p
            || any (λ e. replaces e && e.path =s= p) wanted
            || any (empties p) wanted)

  pub want_entries-AddsAll :
      (max : ℕ) (wanted : List ManifestEntry) (plan : Plan)
      → AllEntries max wanted
      → (plan' : Plan) × (want_entries baseline wanted plan ≡ ok plan') × AddsAll wanted plan plan'
  unfolding want_entries
  want_entries-AddsAll max [] plan fit = (
    plan,
    refl,
    record {
      sent = sym (append-nil (uploads plan));
      made = λ p. ground arith;
      gone = λ p. ground arith;
    },
  )
  want_entries-AddsAll max (e ∷ es) plan (first, fit) =
      let (mid, step, adds) = want_entry-Adds max e plan first in
      let (plan', rest, more) = want_entries-AddsAll max es mid fit in
      (
        plan',
        ground (arith, step, rest),
        record {
          sent =
              more.sent
              ∙ ap (λ l. l ++ filter sends es) adds.sent
              ∙ ground (
                arith,
                append_assoc (uploads plan) (e ∷ []) (filter sends es),
                append-nil (uploads plan),
              );
          made = λ p. ground (arith, more.made p, adds.made p);
          gone = λ p. ground (arith, more.gone p, adds.gone p);
        },
      )
