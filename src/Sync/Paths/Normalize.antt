-- ===== src/Sync/Paths/Normalize.antt =====
-- src/sync/files.rs: which paths are accepted from a client.
use vivado_server.Base.{
  ℕ, ◌≤◌, ◌≡◌, ◌≢◌, ◌↔◌, subst, refl, sym, ap, ◌∙◌, Str, len, ◌=s=◌, le→ltb, ◌==◌, any, Bool-cases,
  true, false, ◌||◌, inl, inr, List, [], ◌∷◌, ◌++◌, ==_iff, arith,
}
use vivado_server.Error.{Result-cases, ok}
use vivado_server.Workspace.{internal_dir, dot, dot_dot, is_reserved}
use vivado_server.Workspace.Names.{
  IsPortable, test_of_neq, test_of_nonempty, validate_portable_segment_iff,
}
use vivado_server.Sync.Paths.{
  slash, backslash, colon, split, join, contains_char, starts_with_char, is_internal_path,
  check_parts, normalize_sync_path_allow_internal, normalize_sync_path,
}
use vivado_server.Sync.Paths.Segments.{join-split}

abbrev pub AllPortable : List Str → Type 0
AllPortable [] = Unit {0}
AllPortable (segment ∷ rest) = IsPortable segment × AllPortable rest

-- What the server relies on in a path: it is not too long, and every segment may stand in a path.
-- In particular no segment is empty, `.`, `..` or the server's own directory.
pub record IsSyncPath (path : Str) : Type 0 where
  pub short : len path ≤ 4096
  pub portable : AllPortable (split path)

check_parts_lem :
    (parts result : List Str) → check_parts parts ≡ ok result → (result ≡ parts) × AllPortable parts
unfolding check_parts
check_parts_lem [] result h = (ground arith, tt)
check_parts_lem (part ∷ rest) result h = elim (Result-cases (check_parts rest)) [
  | inl (e, stopped) ↦ absurd (ground arith)
  | inr (parts, passed) ↦
      let (same, portable) = check_parts_lem rest parts passed in
      (ground arith, ((validate_portable_segment_iff part).0 (ground arith), portable))
]

-- A path that is accepted is used as the client wrote it, and is safe to use.
normalize_sync_path-IsSyncPath :
    (raw path : Str) → normalize_sync_path raw ≡ ok path → (path ≡ raw) × IsSyncPath path
unfolding normalize_sync_path normalize_sync_path_allow_internal
normalize_sync_path-IsSyncPath raw path h = elim (Result-cases (check_parts (split raw))) [
  | inl (e, stopped) ↦ absurd (ground arith)
  | inr (parts, passed) ↦
      let (same, portable) = check_parts_lem (split raw) parts passed in
      let whole : path ≡ raw = ground (arith, ap join same ∙ join-split raw) in
      (whole, rw whole (record { short = ground arith; portable = portable }))
]

contains_reserved :
    (d : ℕ) (s : Str) → is_reserved d ≡ true → any is_reserved s ≡ false → contains_char d s ≡ false
unfolding contains_char
contains_reserved d [] r h = refl
contains_reserved d (c ∷ s) r h = elim (Bool-cases (c == d)) [
  | inl same ↦
      let e : is_reserved c ≡ true = ap is_reserved ((==_iff c d).0 same) ∙ r in
      absurd (ground arith)
  | inr other ↦ rw other (contains_reserved d s r (ground arith))
]

contains_char-append :
    (d : ℕ) (s t : Str) → contains_char d (s ++ t) ≡ (contains_char d s || contains_char d t)
unfolding contains_char
contains_char-append d [] t = refl
contains_char-append d (c ∷ s) t = rw (contains_char-append d s t) (ground arith)

contains_char-cons :
    (d c : ℕ) (s : Str)
    → (c == d) ≡ false
    → contains_char d s ≡ false
    → contains_char d (c ∷ s) ≡ false
unfolding contains_char
contains_char-cons d c s n h = rw n h

contains_char-join :
    (d : ℕ) (parts : List Str)
    → is_reserved d ≡ true
    → (slash == d) ≡ false
    → AllPortable parts
    → contains_char d (join parts) ≡ false
unfolding join
contains_char-join d [] r n h = unfold contains_char in refl
contains_char-join d (part ∷ []) r n (v, vs) = contains_reserved d part r v.plain
contains_char-join d (part ∷ next ∷ rest) r n (v, vs) =
    rw
      (contains_char-append d part (slash ∷ join (next ∷ rest)), contains_reserved d part r v.plain)
      (contains_char-cons d slash (join (next ∷ rest)) n
        (contains_char-join d (next ∷ rest) r n vs))

check_parts-portable : (parts : List Str) → AllPortable parts → check_parts parts ≡ ok parts
unfolding check_parts
check_parts-portable [] v = refl
check_parts-portable (part ∷ rest) (v, vs) = rw (
  test_of_nonempty part v.nonempty,
  test_of_neq part dot v.not_dot,
  test_of_neq part dot_dot v.not_dot_dot,
  (validate_portable_segment_iff part).1 v,
  check_parts-portable rest vs,
)

portable-not_internal :
    (parts : List Str) → AllPortable parts → any (λ part. part =s= internal_dir) parts ≡ false
portable-not_internal [] v = refl
portable-not_internal (part ∷ rest) (v, vs) =
    rw (test_of_neq part internal_dir v.not_internal, portable-not_internal rest vs)

portable-contains_char :
    (d : ℕ) (path : Str)
    → is_reserved d ≡ true
    → (slash == d) ≡ false
    → IsSyncPath path
    → contains_char d path ≡ false
portable-contains_char d path r n v =
    ap (contains_char d) (sym (join-split path)) ∙ contains_char-join d (split path) r n v.portable

-- A path whose only segment is not portable is none of ours.
portable-ne :
    (path segment : Str)
    → split segment ≡ segment ∷ []
    → ¬ IsPortable segment
    → IsSyncPath path
    → path ≢ segment
portable-ne path segment one bad v e = bad (subst AllPortable (ap split e ∙ one) v.portable).0

starts_with_lem :
    (d : ℕ) (path : Str) → contains_char d path ≡ false → starts_with_char d path ≡ false
unfolding contains_char starts_with_char
starts_with_lem d [] h = refl
starts_with_lem d (c ∷ s) h = ground arith

portable-starts_with : (path : Str) → IsSyncPath path → starts_with_char slash path ≡ false
unfolding starts_with_char split
portable-starts_with [] v = refl
portable-starts_with (c ∷ s) v = elim (Bool-cases (c == slash)) [
  | inl at ↦
      let e : split (c ∷ s) ≡ [] ∷ split s = rw at in
      absurd ((subst AllPortable e v.portable).0.nonempty refl)
  | inr other ↦ other
]

reserved_backslash : is_reserved backslash ≡ true
unfolding is_reserved
reserved_backslash = refl

reserved_colon : is_reserved colon ≡ true
unfolding is_reserved
reserved_colon = refl

reserved_nul : is_reserved 0 ≡ true
unfolding is_reserved
reserved_nul = refl

-- Exactly the paths that are safe to use are accepted, and each is used as the client wrote it:
-- the other tests of the code refuse nothing else.
pub normalize_sync_path_iff :
    (raw path : Str) → (normalize_sync_path raw ≡ ok path) ↔ ((path ≡ raw) × IsSyncPath raw)
unfolding normalize_sync_path normalize_sync_path_allow_internal is_internal_path
normalize_sync_path_iff raw path = (
  λ h. let (e, v) = normalize_sync_path-IsSyncPath raw path h in (e, subst IsSyncPath e v),
  λ (e, v). rw (
    test_of_nonempty raw (portable-ne raw [] (unfold split in refl) (λ p. p.nonempty refl) v),
    le→ltb 4096 (len raw) v.short,
    test_of_neq raw dot (portable-ne raw dot (unfold split in refl) (λ p. p.not_dot refl) v),
    test_of_neq raw dot_dot
        (portable-ne raw dot_dot (unfold split in refl) (λ p. p.not_dot_dot refl) v),
    portable-starts_with raw v,
    starts_with_lem backslash raw (portable-contains_char backslash raw reserved_backslash refl v),
    portable-contains_char backslash raw reserved_backslash refl v,
    portable-contains_char colon raw reserved_colon refl v,
    portable-contains_char 0 raw reserved_nul refl v,
    check_parts-portable (split raw) v.portable,
    join-split raw,
    portable-not_internal (split raw) v.portable,
    e,
  ),
)
