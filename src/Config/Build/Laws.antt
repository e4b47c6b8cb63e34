-- ===== src/Config/Build/Laws.antt =====
-- Runs that write nothing, and a check after a run.
use satosa_saml2spid.Base.{
  String, ◌≡◌, refl, sym, ◌∙◌, ap, subst, inl, inr, Bool, true, false, ◌||◌, Option, none, some,
  List, [], ◌∷◌, all, All, find_key, Bool-cases, Result, ok, err, arith, Ended, done, threw,
  and_then, state_of,
}
use satosa_saml2spid.Config.Branding.{Branding}
use satosa_saml2spid.Config.Pipeline.{target_files, apply_to_source}
use satosa_saml2spid.Config.Build.{
  Host, Disk, Run, write_one, write_loop, write_output, load_config, output_of, build_root,
  build_roots, start, run_build, has_arg, report, roots_of, main,
}
use satosa_saml2spid.Config.Build.Files.{has, no_twice}
use satosa_saml2spid.Config.Build.Check.{IsCurrent, check_iff}
use satosa_saml2spid.Config.Build.Loop.{settled, new_text}
use satosa_saml2spid.Config.Build.Refine.{after_roots, run_build-refines, run_build-has_root}

module _ (host : Host) where
  write_one-dry :
      (root rel content new : String) (run : Run)
      → (write_one host true root rel content new run).disk ≡ run.disk
  unfolding write_one
  write_one-dry root rel content new run = ground arith

  write_loop-dry :
      (root : String) (output ss : List (String × String)) (run : Run)
      → (write_loop host true root output ss run).disk ≡ run.disk
  unfolding write_loop
  write_loop-dry root output [] run = refl
  write_loop-dry root output ((rel, content) ∷ ss) run =
      elim (find_key rel output)
        as (λ o.
          (write_loop host true root output ss
            (elim o [ none ↦ run | some new ↦ write_one host true root rel content new run ])).disk
          ≡ run.disk) [
            | none ↦ write_loop-dry root output ss run
            | some new ↦
                write_loop-dry root output ss (write_one host true root rel content new run)
                ∙ write_one-dry root rel content new run
          ]

  write_output-dry :
      (root : String) (o : Result (List (String × String) × List (String × String))) (run : Run)
      → (state_of (write_output host true root o run)).disk ≡ run.disk
  unfolding write_output
  write_output-dry root (err message) run = refl
  write_output-dry root (ok (ss, outs)) run = write_loop-dry root outs ss run

  build_root-dry :
      (config : Branding) (root : String) (run : Run)
      → (state_of (build_root host config true root run)).disk ≡ run.disk
  unfolding build_root
  build_root-dry config root run = elim (Bool-cases (run.disk.has_root root)) [
    | inl y ↦ rw y (write_output-dry root (output_of host config run.disk root) run)
    | inr n ↦ rw n refl
  ]

  and_then-dry :
      (m : Ended Run) (f : Run → Ended Run) (disk : Disk)
      → (state_of m).disk ≡ disk
      → ((run : Run) → (state_of (f run)).disk ≡ run.disk)
      → (state_of (and_then m f)).disk ≡ disk
  unfolding and_then
  and_then-dry (done run) f disk h k = k run ∙ h
  and_then-dry (threw e run) f disk h k = h

  build_roots-dry :
      (config : Branding) (roots : List String) (run : Run)
      → (state_of (build_roots host config true roots run)).disk ≡ run.disk
  unfolding build_roots
  build_roots-dry config [] run = refl
  build_roots-dry config (root ∷ roots) run =
      and_then-dry (build_root host config true root run) (build_roots host config true roots)
        run.disk (build_root-dry config root run) (build_roots-dry config roots)

  run_build-dry :
      (roots : List String) (disk : Disk) → (state_of (run_build host true roots disk)).disk ≡ disk
  unfolding run_build
  run_build-dry roots disk =
      elim (load_config host)
        as (λ c.
          (state_of {S = Run} (elim c [
            | err message ↦ threw message (start disk)
            | ok config ↦ build_roots host config true roots (start disk)
          ])).disk
          ≡ disk) [ err message ↦ refl | ok config ↦ build_roots-dry config roots (start disk) ]

  report-disk : (dry_run : Bool) (e : Ended Run) → (report dry_run e).1 ≡ (state_of e).disk
  unfolding report
  report-disk dry_run (done run) = refl
  report-disk dry_run (threw message run) = refl

  -- With `--check` or `--dry-run`, the command leaves every file as it is, however it ends.
  pub main-dry :
      (argv : List String) (disk : Disk)
      → (has_arg "--check" argv || has_arg "--dry-run" argv) ≡ true
      → (main host argv disk).1 ≡ disk
  unfolding main
  main-dry argv disk h = rw h (
      report-disk true (run_build host true (roots_of host (has_arg "--check" argv)) disk)
      ∙ run_build-dry (roots_of host (has_arg "--check" argv)) disk)

-- A target that is not there, or that can be read and whose new text the transforms leave alone.
abbrev pub IsStable : (String → String → Result String) → String → Option (Result String) → Type 0
IsStable apply rel none = Unit
IsStable apply rel (some (err message)) = ⊥
IsStable apply rel (some (ok content)) =
    (new : String) × (apply rel content ≡ ok new) × (apply rel new ≡ ok new)

settled-IsCurrent :
    (host : Host) (apply : String → String → Result String) (root rel : String)
    (o : Option (Result String))
    → host.write_error root rel ≡ none
    → IsStable apply rel o
    → IsCurrent apply rel (settled host apply root rel o)
unfolding settled new_text
settled-IsCurrent host apply root rel none w s = tt
settled-IsCurrent host apply root rel (some (err message)) w s = elim s [ ]
settled-IsCurrent host apply root rel (some (ok content)) w (new, h, k) = rw (w, h) k

module _ (host : Host) (config : Branding) (disk : Disk) where
  abbrev apply : String → String → Result String
  apply = apply_to_source host.json config

  abbrev StableRoot : List String → Type 0
  StableRoot files = All (λ rel. IsStable apply rel (disk.file host.static_root rel)) files

  -- What is left of the targets, after a run that was allowed to write.
  after-IsCurrent :
      (roots files : List String)
      → has host.static_root roots ≡ true
      → disk.has_root host.static_root ≡ true
      → ((rel : String) → host.write_error host.static_root rel ≡ none)
      → all (λ f. has f (target_files config)) files ≡ true
      → StableRoot files
      → All
          (λ rel. IsCurrent apply rel (after_roots host config roots disk host.static_root rel))
          files
  unfolding after_roots
  after-IsCurrent roots [] a r w t s = tt
  after-IsCurrent roots (rel ∷ files) a r w t (p, q) =
      let target : has rel (target_files config) ≡ true = ground arith in
      (
        rw (a, r, target)
            (settled-IsCurrent host apply host.static_root rel (disk.file host.static_root rel)
              (w rel) p),
        after-IsCurrent roots files a r w (ground arith) q,
      )

  All-eq :
      (other : Disk) (roots files : List String)
      → ((rel : String)
          → other.file host.static_root rel
            ≡ after_roots host config roots disk host.static_root rel)
      → All
          (λ rel. IsCurrent apply rel (after_roots host config roots disk host.static_root rel))
          files
      → All (λ rel. IsCurrent apply rel (other.file host.static_root rel)) files
  All-eq other roots [] e h = tt
  All-eq other roots (rel ∷ files) e (p, q) =
      (subst (IsCurrent apply rel) (sym (e rel)) p, All-eq other roots files e q)

targets-here :
    (config : Branding) → all (λ f. has f (target_files config)) (target_files config) ≡ true
unfolding target_files
targets-here config = refl

-- After a run that ended, over distinct roots with the source root among them and with no write refused
-- there, a check has exit code 0, where each target can be read and its new text is one that the
-- transforms leave alone.
pub build-check :
    (host : Host) (config : Branding) (roots argv : List String) (disk : Disk) (ended : Run)
    → load_config host ≡ ok config
    → no_twice roots ≡ true
    → has host.static_root roots ≡ true
    → disk.has_root host.static_root ≡ true
    → ((rel : String) → host.write_error host.static_root rel ≡ none)
    → All
        (λ rel. IsStable (apply_to_source host.json config) rel (disk.file host.static_root rel))
        (target_files config)
    → run_build host false roots disk ≡ done ended
    → has_arg "--check" argv ≡ true
    → (main host argv ended.disk).0.exit_code ≡ 0
build-check host config roots argv disk ended l n a r w s e c =
    let root = run_build-has_root host config roots disk ended l e in
    (check_iff host config argv ended.disk c l (ap (λ g. g host.static_root) root ∙ r)).1 (
      All-eq host config disk ended.disk roots (target_files config)
        (λ rel. run_build-refines host config roots disk ended host.static_root rel l n e)
        (after-IsCurrent host config disk roots (target_files config) a r w (targets-here config)
          s))
