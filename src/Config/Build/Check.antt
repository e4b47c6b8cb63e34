-- ===== src/Config/Build/Check.antt =====
-- `--check`: when its exit code is 0.
use satosa_saml2spid.Base.{
  String, ℕ, ◌≡◌, refl, sym, ◌∙◌, ap, subst, ◌↔◌, inl, inr, Bool, true, false, ◌&&◌, Option, none,
  some, List, [], ◌∷◌, ◌++◌, ◌==◌, eq_iff, eq_refl, All, Result, ok, err, bind-eq-ok, pair-eq-ok,
  ◌>>=◌, arith, Ended, done, threw, and_then,
}
use satosa_saml2spid.Config.Branding.{Branding}
use satosa_saml2spid.Config.Pipeline.{target_files, each_source, apply_to_source, apply_to_sources}
use satosa_saml2spid.Config.Build.{
  Host, Disk, Run, sources_of, write_one, write_loop, load_config, output_of, write_output,
  build_root, label, build_roots, start, run_build, is_empty, exit_code, report, has_arg, main,
}
use satosa_saml2spid.Config.Build.Files.{
  settle_loop, settle_one-ok, write_loop-settle, no_twice, sources_of-cons, sources_of-distinct,
}

module _ (apply : String → String → Result String) where
  -- A file that is not there, or that is as the build would write it.
  abbrev pub IsCurrent : String → Option (Result String) → Type 0
  IsCurrent rel none = Unit
  IsCurrent rel (some (err message)) = ⊥
  IsCurrent rel (some (ok content)) = apply rel content ≡ ok content

  abbrev Same : String × String → Type 0
  Same e = apply e.0 e.1 ≡ ok e.1

  each_source-Same : (ss : List (String × String)) → All Same ss → each_source apply ss ≡ ok ss
  unfolding each_source ◌>>=◌
  each_source-Same [] h = refl
  each_source-Same ((rel, content) ∷ ss) (h, k) = rw (h, each_source-Same ss k) refl

  module _ (disk : Disk) (root : String) where
    IsCurrent-Same :
        (files : List String) (ss : List (String × String))
        → sources_of disk root files ≡ ok ss
        → All Same ss
        → All (λ rel. IsCurrent rel (disk.file root rel)) files
    unfolding sources_of
    IsCurrent-Same [] ss e h = tt
    IsCurrent-Same (rel ∷ files) ss e h = elim (sources_of-cons disk root rel files ss e) [
      | inl (a, t) ↦ (subst (IsCurrent rel) (sym a) tt, IsCurrent-Same files ss t h)
      | inr (content, others, r, t, u) ↦
          let same : All Same ((rel, content) ∷ others) = subst (All Same) (sym u) h in
          (subst (IsCurrent rel) (sym r) same.0, IsCurrent-Same files others t same.1)
    ]

    abbrev AllSame : List String → Type 0
    AllSame files =
        (ss : List (String × String)) × (sources_of disk root files ≡ ok ss) × All Same ss

    current_cons :
        (rel : String) (files : List String) (reading : Option (Result String))
        → disk.file root rel ≡ reading
        → IsCurrent rel reading
        → AllSame files
        → AllSame (rel ∷ files)
    unfolding sources_of ◌>>=◌
    current_cons rel files none e c (ss, t, h) = (ss, rw (e, t, sources_of) refl, h)
    current_cons rel files (some (err message)) e c rest = elim c [ ]
    current_cons rel files (some (ok content)) e c (ss, t, h) =
        ((rel, content) ∷ ss, rw (e, t, sources_of) refl, (c, h))

    sources_of-IsCurrent :
        (files : List String)
        → All (λ rel. IsCurrent rel (disk.file root rel)) files
        → AllSame files
    unfolding sources_of
    sources_of-IsCurrent [] c = ([], refl, tt)
    sources_of-IsCurrent (rel ∷ files) (c, d) =
        current_cons rel files (disk.file root rel) refl c (sources_of-IsCurrent files d)

module _ (host : Host) (root : String) (apply : String → String → Result String) where
  settle_loop-Same :
      (ss : List (String × String)) (run : Run)
      → All (Same apply) ss
      → settle_loop host true root apply ss run ≡ run
  unfolding settle_loop write_one
  settle_loop-Same [] run h = refl
  settle_loop-Same ((rel, content) ∷ ss) run (h, k) =
      rw (settle_one-ok host true root apply rel content content run h, eq_refl content)
        (settle_loop-Same ss run k)

  abbrev quiet : Run → Bool
  quiet run = is_empty run.changed && is_empty run.failed

  is_empty-snoc {ℓ} : {A : Type ℓ} (xs : List A) (x : A) → is_empty (xs ++ (x ∷ [])) ≡ false
  is_empty-snoc [] x = refl
  is_empty-snoc (y ∷ xs) x = refl

  -- A report that is empty after a file was empty before it, and the file is as it should be.
  quiet-write_one :
      (rel content new : String) (run : Run)
      → quiet (write_one host true root rel content new run) ≡ true
      → ((new == content) ≡ true) × (quiet run ≡ true)
  unfolding write_one
  quiet-write_one rel content new run q =
      ground (arith, is_empty-snoc run.changed (label host root rel))

  quiet-settle_loop :
      (ss outs : List (String × String)) (run : Run)
      → each_source apply ss ≡ ok outs
      → quiet (settle_loop host true root apply ss run) ≡ true
      → All (Same apply) ss × (quiet run ≡ true)
  unfolding settle_loop each_source
  quiet-settle_loop [] outs run e q = (tt, q)
  quiet-settle_loop ((rel, content) ∷ ss) outs run e q =
      let (new, h, k) = bind-eq-ok (apply rel content) _ outs e in
      let (others, t, u) = bind-eq-ok (each_source apply ss) _ outs k in
      let (same, before) = quiet-settle_loop ss others _ t q in
      let (n, b) = quiet-write_one rel content new run (
        subst (λ r. quiet r ≡ true) (settle_one-ok host true root apply rel content new run h)
          before) in
      ((h ∙ ap ok ((eq_iff new content).0 n), same), b)

-- What `--check` finds in the source root.
abbrev pub IsClean : Host → Branding → Disk → Type 0
IsClean host config disk =
    All (λ rel. IsCurrent (apply_to_source host.json config) rel (disk.file host.static_root rel))
      (target_files config)

pub target_files-no_twice : (config : Branding) → no_twice (target_files config) ≡ true
unfolding no_twice target_files
target_files-no_twice config = refl

-- Where the output of a root is there, its loop writes the files of the targets one by one.
pub write_output-settle :
    (host : Host) (config : Branding) (dry_run : Bool) (root : String) (run : Run)
    (ss outs : List (String × String))
    → output_of host config run.disk root ≡ ok (ss, outs)
    → (sources_of run.disk root (target_files config) ≡ ok ss)
      × (each_source (apply_to_source host.json config) ss ≡ ok outs)
      × (write_loop host dry_run root outs ss run
          ≡ settle_loop host dry_run root (apply_to_source host.json config) ss run)
unfolding output_of apply_to_sources
write_output-settle host config dry_run root run ss outs e =
    let (sources, output) =
      pair-eq-ok (sources_of run.disk root (target_files config))
        (apply_to_sources host.json config) ss outs e in
    (
      sources,
      output,
      write_loop-settle host dry_run root (apply_to_source host.json config) ss outs run
          (sources_of-distinct run.disk root (target_files config) ss (target_files-no_twice config)
            sources)
          output,
    )

exit_code-quiet :
    (run : Run) → exit_code true run ≡ 0 → (is_empty run.changed && is_empty run.failed) ≡ true
unfolding exit_code
exit_code-quiet run e = ground arith

module _ (host : Host) (config : Branding) (disk : Disk) where
  abbrev root : String
  root = host.static_root

  abbrev OutputOf : Type 0
  OutputOf = Result (List (String × String) × List (String × String))

  abbrev code_of : OutputOf → ℕ
  code_of o = (report true (write_output host true root o (start disk))).0.exit_code

  IsClean-code :
      (o : OutputOf)
      → output_of host config disk root ≡ o
      → code_of o ≡ 0
      → IsClean host config disk
  unfolding report write_output
  IsClean-code (err message) e c = cc
  IsClean-code (ok (ss, outs)) e c =
      let (sources, output, loop) =
        write_output-settle host config true root (start disk) ss outs e in
      let none_there = exit_code-quiet (write_loop host true root outs ss (start disk)) c in
      IsCurrent-Same (apply_to_source host.json config) disk root (target_files config) ss sources
        (quiet-settle_loop host root (apply_to_source host.json config) ss outs (start disk) output
          (subst (λ r. (is_empty r.changed && is_empty r.failed) ≡ true) loop none_there)).0

  output_of-IsClean :
      IsClean host config disk
      → (ss : List (String × String)) × (output_of host config disk root ≡ ok (ss, ss))
        × All (Same (apply_to_source host.json config)) ss
  unfolding output_of apply_to_sources ◌>>=◌
  output_of-IsClean c =
      let (ss, t, h) =
        sources_of-IsCurrent (apply_to_source host.json config) disk root (target_files config) c in
      (ss, rw t (rw (each_source-Same (apply_to_source host.json config) ss h) refl), h)

  code-IsClean : IsClean host config disk → code_of (output_of host config disk root) ≡ 0
  unfolding report write_output exit_code
  code-IsClean c =
      let (ss, e, h) = output_of-IsClean c in
      let (sources, output, loop) =
        write_output-settle host config true root (start disk) ss ss e in
      rw e (
        rw (loop ∙ settle_loop-Same host root (apply_to_source host.json config) ss (start disk) h)
          refl)

and_then-done {ℓ} :
    {S : Type ℓ} (m : Ended S) (f : S → Ended S) → ((s : S) → f s ≡ done s) → and_then m f ≡ m
unfolding and_then
and_then-done (done s) f h = h s
and_then-done (threw e s) f h = refl

module _ (host : Host) (config : Branding) where
  pub run_build-ok :
      (dry_run : Bool) (roots : List String) (disk : Disk)
      → load_config host ≡ ok config
      → run_build host dry_run roots disk ≡ build_roots host config dry_run roots (start disk)
  unfolding run_build
  run_build-ok dry_run roots disk l = rw (l, run_build) refl

  pub build_root-there :
      (dry_run : Bool) (root : String) (run : Run)
      → run.disk.has_root root ≡ true
      → build_root host config dry_run root run
        ≡ write_output host dry_run root (output_of host config run.disk root) run
  unfolding build_root
  build_root-there dry_run root run r = rw r refl

  -- A check is a dry run over the source root.
  main-check :
      (argv : List String) (disk : Disk)
      → has_arg "--check" argv ≡ true
      → load_config host ≡ ok config
      → disk.has_root host.static_root ≡ true
      → main host argv disk
        ≡ report true (
            write_output host true host.static_root
              (output_of host config disk host.static_root)
              (start disk))
  unfolding main build_roots
  main-check argv disk a l r = rw a (
      ap (report true) (
        run_build-ok true (host.static_root ∷ []) disk l
        ∙ and_then-done _ (build_roots host config true []) (λ s. refl)
        ∙ build_root-there true host.static_root (start disk) r))

-- With `--check`, a configuration that is valid and the source root there, the exit code is 0 exactly
-- where every target that the source root has can be read and is as the build would write it.
pub check_iff :
    (host : Host) (config : Branding) (argv : List String) (disk : Disk)
    → has_arg "--check" argv ≡ true
    → load_config host ≡ ok config
    → disk.has_root host.static_root ≡ true
    → ((main host argv disk).0.exit_code ≡ 0) ↔ IsClean host config disk
check_iff host config argv disk a l r =
    let e = ap (λ x. x.0.exit_code) (main-check host config argv disk a l r) in
    (
      λ c.
          IsClean-code host config disk (output_of host config disk host.static_root) refl
            (sym e ∙ c),
      λ c. e ∙ code-IsClean host config disk c,
    )
