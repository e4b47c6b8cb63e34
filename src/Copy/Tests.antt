-- ===== src/Copy/Tests.antt =====
-- A small source copied over a small tree.
use satosa_saml2spid.Base.{◌≡◌, refl, true, [], ◌∷◌, done, and_then}
use satosa_saml2spid.Copy.{
  Entries, file, dir, end, entry, find, put, copy_dir, copy_file, copy_into,
}
use satosa_saml2spid.Copy.Laws.{read_tree, or_file, unique, has_name}
use satosa_saml2spid.Copy.Files.{copy_dir-read}

abbrev source : Entries
source = entry "a.woff" (file "new") (entry "mono" (dir (entry "b.woff" (file "b") end)) end)

abbrev present : Entries
present = entry "old.woff" (file "old") (entry "a.woff" (file "a") end)

abbrev merged : Entries
merged =
    entry "old.woff" (file "old")
      (entry "a.woff" (file "new") (entry "mono" (dir (entry "b.woff" (file "b") end)) end))

source-unique : unique source ≡ true
unfolding unique has_name
source-unique = refl

source_copied : copy_dir source present ≡ done merged
unfolding copy_dir find put copy_file copy_into and_then
source_copied = refl

copy_dir-read_example :
    read_tree (find "mono" merged) ("b.woff" ∷ [])
    ≡ or_file
        (read_tree (find "mono" source) ("b.woff" ∷ []))
        (read_tree (find "mono" present) ("b.woff" ∷ []))
copy_dir-read_example =
    copy_dir-read source present merged "mono" ("b.woff" ∷ []) source-unique source_copied
