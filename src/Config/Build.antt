-- ===== src/Config/Build.antt =====
-- `runBuild` and the command line: the files of each root are read, changed in memory, and written
-- where they differ.
pub mod Files
pub mod Check
pub mod Loop
pub mod Refine
pub mod Laws
use satosa_saml2spid.Base.{
  String, ℕ, Bool, true, false, not, ◌&&◌, ◌||◌, Option, none, some, List, [], ◌∷◌, ◌++◌, ◌==◌,
  length, any, map, filter, find_key, if◌then◌else◌, text_or, Result, ok, err, ◌>>=◌, Ended, done,
  threw, and_then,
}
use satosa_saml2spid.Config.Branding.{Branding, validate_config}
use satosa_saml2spid.Config.Pipeline.{JsonText, target_files, apply_to_sources}

-- The files below the roots: a file that exists has a text, or a reading that throws.
pub record Disk : Type 0 where
  pub has_root : String → Bool
  pub file : String → String → Option (Result String)

-- What the code asks of its surroundings: JSON in text, the text of the configuration file,
-- `path.relative(REPO_ROOT, path.join(root, rel))`, the message of a write that throws, and the
-- two roots.
pub record Host : Type 0 where
  pub json : JsonText
  pub config_text : Result String
  pub relative : String → String → String
  pub write_error : String → String → Option String
  pub static_root : String
  pub nginx_static_root : String

pub record Failure : Type 0 where
  pub file : String
  pub error : String

-- The disk, and the two lists that `runBuild` returns.
pub record Run : Type 0 where
  pub disk : Disk
  pub changed : List String
  pub failed : List Failure

abbrev pub start : Disk → Run
start disk = record { disk = disk; changed = []; failed = [] }

-- `fs.writeFileSync`, where it does not throw.
unfoldable pub write_file : String → String → String → Disk → Disk
write_file root rel content disk = record disk {
  file = λ r f. if r == root && f == rel then some (ok content) else disk.file r f;
}

module _ (disk : Disk) (root : String) where
  -- The files that are there, in the order of the targets.
  unfoldable pub sources_of : List String → Result (List (String × String))
  unfolding ◌>>=◌
  sources_of [] = ok []
  sources_of (rel ∷ files) = elim (disk.file root rel) [
    | none ↦ sources_of files
    | some reading ↦ do content ← reading; others ← sources_of files; ok ((rel, content) ∷ others)
  ]

module _ (host : Host) where
  unfoldable pub load_config : Result Branding
  unfolding ◌>>=◌ validate_config
  load_config = do raw ← host.config_text; value ← host.json.parse raw; validate_config value

  unfoldable pub label : String → String → String
  label root rel = text_or (host.relative root rel) rel

  -- One file of the loop: nothing where it is as it should be, and a write unless it is a dry run.
  unfoldable pub write_one : Bool → String → String → String → String → Run → Run
  unfolding label write_file
  write_one dry_run root rel content new run =
      if new == content
      then run
      else (let named = record run { changed = run.changed ++ (label root rel ∷ []) } in
          if dry_run then named else elim (host.write_error root rel) [
            | none ↦ record named { disk = write_file root rel new run.disk }
            | some error ↦ record named {
              failed = run.failed ++ (record { file = label root rel; error = error } ∷ []);
            }
          ])

  -- `for (const rel of present)`, with `sources[rel]` and `output[rel]`.
  unfoldable pub write_loop :
      Bool → String → List (String × String) → List (String × String) → Run → Run
  unfolding write_one find_key
  write_loop dry_run root output [] run = run
  write_loop dry_run root output ((rel, content) ∷ sources) run =
      write_loop dry_run root output sources (elim (find_key rel output) [
        | none ↦ run
        | some new ↦ write_one dry_run root rel content new run
      ])

  -- The files of a root that are there, and their new texts.
  unfoldable pub output_of :
      Branding → Disk → String → Result (List (String × String) × List (String × String))
  unfolding ◌>>=◌ sources_of apply_to_sources target_files
  output_of config disk root = do
    sources ← sources_of disk root (target_files config)
    output ← apply_to_sources host.json config sources
    ok (sources, output)

  unfoldable pub write_output :
      Bool → String → Result (List (String × String) × List (String × String)) → Run → Ended Run
  unfolding write_loop
  write_output dry_run root (err message) run = threw message run
  write_output dry_run root (ok (sources, output)) run =
      done (write_loop dry_run root output sources run)

  unfoldable pub build_root : Branding → Bool → String → Run → Ended Run
  unfolding output_of write_output
  build_root config dry_run root run =
      if not (run.disk.has_root root)
      then done run
      else (write_output dry_run root (output_of config run.disk root) run)

  unfoldable pub build_roots : Branding → Bool → List String → Run → Ended Run
  unfolding and_then build_root
  build_roots config dry_run [] run = done run
  build_roots config dry_run (root ∷ roots) run =
      and_then (build_root config dry_run root run) (build_roots config dry_run roots)

  unfoldable pub run_build : Bool → List String → Disk → Ended Run
  unfolding load_config build_roots
  run_build dry_run roots disk = elim load_config [
    | err message ↦ threw message (start disk)
    | ok config ↦ build_roots config dry_run roots (start disk)
  ]

-- The lines on the console.
pub data Line : Type 0 where
  no_changes : Line
  would_update updated : ℕ → Line
  updated_file : String → Line
  could_not_write : ℕ → Line
  failed_file : Failure → Line
  hint : Line
  error : String → Line

pub record Output : Type 0 where
  pub lines : List Line
  pub exit_code : ℕ

abbrev pub is_empty {ℓ} : {A : Type ℓ} → List A → Bool
is_empty [] = true
is_empty (x ∷ xs) = false

-- The files of a report that were written, or would be.
unfoldable pub written : Run → List String
written run = filter (λ rel. not (any (λ f. f.file == rel) run.failed)) run.changed

unfoldable pub change_lines : Bool → Run → List Line
unfolding written
change_lines dry_run run =
    if is_empty run.changed
    then no_changes ∷ []
    else ((if dry_run then would_update (length (written run)) else updated (length (written run)))
        ∷ map updated_file (written run))

unfoldable pub failure_lines : Run → List Line
failure_lines run =
    if is_empty run.failed
    then []
    else (could_not_write (length run.failed) ∷ map failed_file run.failed ++ (hint ∷ []))

unfoldable pub exit_code : Bool → Run → ℕ
exit_code dry_run run =
    if dry_run && not (is_empty run.changed) then 1 else if not (is_empty run.failed) then 3 else 0

-- The output and the disk at the end.
unfoldable pub report : Bool → Ended Run → Output × Disk
unfolding change_lines failure_lines exit_code
report dry_run (done run) = (
  record {
    lines = change_lines dry_run run ++ failure_lines run;
    exit_code = exit_code dry_run run;
  },
  run.disk,
)
report dry_run (threw message run) =
    (record { lines = error message ∷ []; exit_code = 2 }, run.disk)

abbrev has_arg : String → List String → Bool
has_arg a argv = any (λ b. b == a) argv

-- `isCheck ? [STATIC_ROOT] : BUILD_ROOTS`.
abbrev pub roots_of : Host → Bool → List String
roots_of host is_check =
    if is_check then host.static_root ∷ [] else host.static_root ∷ host.nginx_static_root ∷ []

unfoldable pub main : Host → List String → Disk → Output × Disk
unfolding run_build report
main host argv disk =
    let is_check = has_arg "--check" argv in
    let dry_run = is_check || has_arg "--dry-run" argv in
    report dry_run (run_build host dry_run (roots_of host is_check) disk)
