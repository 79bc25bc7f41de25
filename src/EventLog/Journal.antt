-- ===== src/EventLog/Journal.antt =====
-- Files in memory: an instance of the disk on which every call succeeds, by which examples run.
use othala.Base.{
  ◌≡◌, ◌≢◌, refl, true, List, [], ◌∷◌, ◌++◌, if◌then◌else◌, ◌==◌, ==_refl, string_eq, Bool-cases,
  inl, inr,
}
use othala.EventLog.{FilePath, Location, Chunk, Disk}

abbrev pub Files : Type 0 → Type 0
Files Doc = Location → List (Chunk Doc)

module _ {Doc : Type 0} where
  abbrev pub put : Location → Chunk Doc → Files Doc → Files Doc
  put file chunk files at = if at == file then files at ++ chunk ∷ [] else files at

  pub put_same :
      (file : Location) (chunk : Chunk Doc) (files : Files Doc)
      → put file chunk files file ≡ files file ++ chunk ∷ []
  put_same file chunk files = rw (==_refl file)

  pub put_other :
      (file at : Location) (chunk : Chunk Doc) (files : Files Doc)
      → at ≢ file
      → put file chunk files at ≡ files at
  put_other file at chunk files ne = elim (Bool-cases (at == file)) [
    | inl hit ↦ absurd (ne ((string_eq.same_iff at file).0 hit))
    | inr miss ↦ rw miss
  ]

  -- `names` resolves the paths.
  abbrev pub journal_with : (FilePath → Location) → Disk (Files Doc) Doc
  journal_with names = record {
    names = names;
    create_dir_all = λ _ w. (true, w);
    open_append = λ _ w. (true, w);
    write_all = λ path chunk w. (true, put (names path) chunk w);
    content = λ w at. w at;
    create_keeps = λ dir at w. refl;
    open_keeps = λ path at w. refl;
    write_appends = λ path chunk w _. put_same (names path) chunk w;
    write_keeps = λ path at chunk w ne. put_other (names path) at chunk w ne;
  }

  -- No links: every path names a file of its own.
  abbrev pub journal : Disk (Files Doc) Doc
  journal = journal_with (λ path. path)
