-- ===== src/Copy.antt =====
-- `iam-proxy-italia-project/static/scripts/copy-bootstrap-italia.js`: a package copied into the static
-- files, on trees of files.
pub mod Laws
pub mod Files
mod Tests
use satosa_saml2spid.Base.{
  String, ◌<>◌, ◌++◌, Bool, true, false, Option, none, some, List, [], ◌∷◌, ◌==◌, if◌then◌else◌,
  Ended, done, threw, and_then,
}

-- A file with its text, or a directory; its entries are in the order of `readdirSync`.
mutual
  pub data Tree : Type 0 where
    file : String → Tree
    dir : Entries → Tree

  pub data Entries : Type 0 where
    end : Entries
    entry : String → Tree → Entries → Entries

unfoldable pub find : String → Entries → Option Tree
find k end = none
find k (entry name t es) = if name == k then some t else find k es

-- A name with its tree, in place or as the last one.
unfoldable pub put : String → Tree → Entries → Entries
put k t end = entry k t end
put k t (entry name u es) = if name == k then entry name t es else entry name u (put k t es)

-- `fs.copyFileSync` onto a name: not onto a directory.
unfoldable pub copy_file : String → String → Option Tree → Entries → Ended Entries
unfolding put
copy_file content name (some (dir es)) dest = threw "EISDIR" dest
copy_file content name (some (file s)) dest = done (put name (file content) dest)
copy_file content name none dest = done (put name (file content) dest)

-- A directory below a name, with what its copying has come to.
unfoldable pub within : String → Entries → Ended Entries → Ended Entries
unfolding put
within name dest (done es) = done (put name (dir es) dest)
within name dest (threw message es) = threw message (put name (dir es) dest)

-- The directory at a name that is copied into: a new one where there is none, and no entry can be made
-- below a file.
unfoldable pub copy_into :
    String → String → (Entries → Ended Entries) → Bool → Option Tree → Entries → Ended Entries
unfolding within
copy_into message name copy nothing none dest = within name dest (copy end)
copy_into message name copy nothing (some (dir es)) dest = within name dest (copy es)
copy_into message name copy nothing (some (file s)) dest =
    if nothing then done dest else threw message dest

abbrev is_end : Entries → Bool
is_end end = true
is_end (entry name t es) = false

-- `copyDir`, and the body of its loop.
unfoldable mutual
  pub copy_entry : Tree → String → Entries → Ended Entries
  copy_entry (file content) name dest = copy_file content name (find name dest) dest
  copy_entry (dir es) name dest =
      copy_into "ENOTDIR" name (copy_dir es) (is_end es) (find name dest) dest

  pub copy_dir : Entries → Entries → Ended Entries
  copy_dir end dest = done dest
  copy_dir (entry name t es) dest = and_then (copy_entry t name dest) (copy_dir es)

-- What the script prints.
pub data Line : Type 0 where
  not_found updated : Line
  copied : String → Line

-- The static files, and what was printed.
pub record Site : Type 0 where
  pub root : Entries
  pub log : List Line

-- The static files after a step, and a line where it has ended.
unfoldable pub logged : Line → Site → Ended Entries → Ended Site
logged line site (done root) = done (record site { root = root; log = site.log ++ (line ∷ []) })
logged line site (threw message root) = threw message (record site { root = root })

-- `path.join(SRC, dir, name)`, if it exists.
unfoldable pub find_in : String → String → Entries → Option Tree
unfolding find
find_in folder name src = elim (find folder src) [
  | none ↦ none
  | some (file s) ↦ none
  | some (dir es) ↦ find name es
]

-- `copyFileSync` of what stands at a path, which throws for a directory.
unfoldable pub copy_one : Tree → String → Entries → Ended Entries
unfolding copy_file
copy_one (file content) name dest = copy_file content name (find name dest) dest
copy_one (dir es) name dest = threw "EISDIR" dest

-- `copyDir` of what stands at a path, whose entries are read; a new directory stays where that throws.
unfoldable pub copy_tree : Tree → String → Entries → Ended Entries
unfolding copy_entry copy_into
copy_tree (dir es) name dest = copy_entry (dir es) name dest
copy_tree (file s) name dest =
    copy_into "ENOTDIR" name (threw "ENOTDIR") false (find name dest) dest

-- One of `copies`: its folder is made, if need be, and the file copied.
unfoldable pub copy_asset : String → String → Entries → Site → Ended Site
unfolding find_in copy_into copy_one logged
copy_asset folder name src site = elim (find_in folder name src) [
  | none ↦ done site
  | some t ↦
      logged (copied (folder <> "/" <> name)) site
        (copy_into "EEXIST" folder (copy_one t name) false (find folder site.root) site.root)
]

-- `copyDir` of a folder into `bootstrap-italia`.
unfoldable pub copy_folder : String → Entries → Site → Ended Site
unfolding find copy_into copy_tree logged
copy_folder name src site = elim (find name src) [
  | none ↦ done site
  | some t ↦ logged (copied ("bootstrap-italia/" <> name <> "/")) site (
      copy_into "ENOTDIR" "bootstrap-italia" (copy_tree t name) false
        (find "bootstrap-italia" site.root) site.root)
]

-- The script, where `src` is the package, if it is installed.
unfoldable pub main : Option Entries → Site → Ended Site
unfolding copy_asset copy_folder and_then
main none site = done (record site { log = site.log ++ (not_found ∷ []) })
main (some src) site = and_then (copy_asset "css" "bootstrap-italia.min.css" src site) λ css.
    and_then (copy_asset "js" "bootstrap-italia.bundle.min.js" src css) λ js.
      and_then (copy_folder "fonts" src js) λ fonts.
        and_then (copy_folder "svg" src fonts)
          λ svg. done (record svg { log = svg.log ++ (updated ∷ []) })
