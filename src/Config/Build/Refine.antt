-- ===== src/Config/Build/Refine.antt =====
-- What each file holds after a run that ends without an exception.
use satosa_saml2spid.Base.{
  String, ◌≡◌, refl, sym, ◌∙◌, ap, subst, ◌⊎◌, inl, inr, true, false, ◌&&◌, Option, none, some,
  List, [], ◌∷◌, ◌==◌, eq_iff, eq_refl, eq_sym-false, find_key, Bool-cases, Result, ok, err, arith,
  if◌then◌else◌, done, and_then-eq-done,
}
use satosa_saml2spid.Config.Branding.{Branding}
use satosa_saml2spid.Config.Pipeline.{target_files, apply_to_source}
use satosa_saml2spid.Config.Build.{
  Host, Disk, Run, sources_of, write_loop, load_config, output_of, write_output, build_root,
  build_roots, start, run_build,
}
use satosa_saml2spid.Config.Build.Files.{
  has_key, settle_loop, has, no_twice, sources_of-cons, sources_of-has_key, sources_of-distinct,
}
use satosa_saml2spid.Config.Build.Check.{
  target_files-no_twice, write_output-settle, run_build-ok, build_root-there,
}
use satosa_saml2spid.Config.Build.Loop.{
  settle_loop-has_root, settle_loop-other, settled, settle_loop-settled,
}

-- A file of the list is not there, or is read with its text.
sources_of-find :
    (disk : Disk) (root : String) (files : List String) (ss : List (String × String)) (f : String)
    → sources_of disk root files ≡ ok ss
    → no_twice files ≡ true
    → has f files ≡ true
    → ((disk.file root f ≡ none) × (has_key f ss ≡ false))
      ⊎ ((content : String) × (disk.file root f ≡ some (ok content))
          × (find_key f ss ≡ some content))
unfolding sources_of no_twice find_key
sources_of-find disk root [] ss f e n h = cc
sources_of-find disk root (rel ∷ files) ss f e n h =
    elim (sources_of-cons disk root rel files ss e) [
      | inl (a, t) ↦ elim (Bool-cases (f == rel)) [
        | inl y ↦
            let same = (eq_iff f rel).0 y in
            inl (rw same a, rw same (sources_of-has_key disk root rel files ss (ground arith) t))
        | inr d ↦ sources_of-find disk root files ss f t (ground arith) (ground arith)
      ]
      | inr (content, others, r, t, u) ↦ elim (Bool-cases (f == rel)) [
        | inl y ↦
            let same = (eq_iff f rel).0 y in
            inr (
              content,
              rw same r,
              subst (λ x. find_key f x ≡ some content) u (rw (same, eq_refl rel) refl),
            )
        | inr d ↦ elim (sources_of-find disk root files others f t (ground arith) (ground arith)) [
          | inl (a, k) ↦ inl (a, subst (λ x. has_key f x ≡ false) u (rw (d, k) refl))
          | inr (c, a, k) ↦
              inr (c, a, subst (λ x. find_key f x ≡ some c) u (rw (eq_sym-false f rel d) k))
        ]
      ]
    ]

module _ (host : Host) (config : Branding) where
  -- A file after the run over one root.
  unfoldable pub after_root :
      String → String → String → Option (Result String) → Option (Result String)
  after_root root r f o =
      if r == root && has f (target_files config)
      then settled host (apply_to_source host.json config) r f o
      else o

  abbrev apply : String → String → Result String
  apply = apply_to_source host.json config

  target-settled :
      (root : String) (run : Run) (ss : List (String × String)) (f : String)
      → sources_of run.disk root (target_files config) ≡ ok ss
      → has f (target_files config) ≡ true
      → (settle_loop host false root apply ss run).disk.file root f
        ≡ settled host apply root f (run.disk.file root f)
  unfolding settled
  target-settled root run ss f e h =
      elim (sources_of-find run.disk root (target_files config) ss f e
        (target_files-no_twice config) h) [
          | inl (a, k) ↦
              rw (a, settled)
                (settle_loop-other host false root apply ss run root f (ground arith) ∙ a)
          | inr (content, a, k) ↦ rw a (
              settle_loop-settled host root apply ss run f content
                (sources_of-distinct run.disk root (target_files config) ss
                  (target_files-no_twice config) e)
                k a)
        ]

  settle_loop-file :
      (root : String) (run : Run) (ss : List (String × String)) (r f : String)
      → sources_of run.disk root (target_files config) ≡ ok ss
      → (settle_loop host false root apply ss run).disk.file r f
        ≡ after_root root r f (run.disk.file r f)
  unfolding after_root
  settle_loop-file root run ss r f e = elim (Bool-cases (r == root)) [
    | inl y ↦ elim (Bool-cases (has f (target_files config))) [
      | inl h ↦ rw (y, h) (rw ((eq_iff r root).0 y) (target-settled root run ss f e h))
      | inr h ↦
          rw (y, h)
            (settle_loop-other host false root apply ss run r f
              (rw (y, sources_of-has_key run.disk root f (target_files config) ss h e) refl))
    ]
    | inr y ↦ rw y (settle_loop-other host false root apply ss run r f (rw y refl))
  ]

  write_loop-file :
      (root : String) (run : Run) (ss outs : List (String × String)) (r f : String)
      → output_of host config run.disk root ≡ ok (ss, outs)
      → (write_loop host false root outs ss run).disk.file r f
        ≡ after_root root r f (run.disk.file r f)
  write_loop-file root run ss outs r f e =
      let (sources, output, loop) = write_output-settle host config false root run ss outs e in
      rw loop (settle_loop-file root run ss r f sources)

  write_loop-has_root :
      (root : String) (run : Run) (ss outs : List (String × String))
      → output_of host config run.disk root ≡ ok (ss, outs)
      → (write_loop host false root outs ss run).disk.has_root ≡ run.disk.has_root
  write_loop-has_root root run ss outs e =
      let (sources, output, loop) = write_output-settle host config false root run ss outs e in
      rw loop (settle_loop-has_root host false root apply ss run)

  -- What a run over one root leaves, where it ends.
  abbrev Ran : String → Run → Run → Type 0
  Ran root run ended =
      (ended.disk.has_root ≡ run.disk.has_root)
      × ((r f : String)
          → ended.disk.file r f ≡ (
              if run.disk.has_root root
              then after_root root r f (run.disk.file r f)
              else run.disk.file r f))

  write_output-Ran :
      (o : Result (List (String × String) × List (String × String))) (root : String)
      (run ended : Run)
      → output_of host config run.disk root ≡ o
      → run.disk.has_root root ≡ true
      → write_output host false root o run ≡ done ended
      → Ran root run ended
  unfolding write_output
  write_output-Ran (err message) root run ended e there h = cc
  write_output-Ran (ok (ss, outs)) root run ended e there h =
      let same : write_loop host false root outs ss run ≡ ended = cc in
      subst (Ran root run) same (
        write_loop-has_root root run ss outs e,
        λ r f. rw there (write_loop-file root run ss outs r f e),
      )

  build_root-Ran :
      (root : String) (run ended : Run)
      → build_root host config false root run ≡ done ended
      → Ran root run ended
  unfolding build_root
  build_root-Ran root run ended h = elim (Bool-cases (run.disk.has_root root)) [
    | inl y ↦
        write_output-Ran (output_of host config run.disk root) root run ended refl y
          (sym (build_root-there host config false root run y) ∙ h)
    | inr n ↦
        let same : run ≡ ended = ground arith in subst (Ran root run) same (refl, λ r f. rw n refl)
  ]

  -- What a file holds after a run over distinct roots.
  unfoldable pub after_roots : List String → Disk → String → String → Option (Result String)
  unfolding settled
  after_roots roots disk r f =
      if has r roots && disk.has_root r && has f (target_files config)
      then settled host apply r f (disk.file r f)
      else disk.file r f

  after_roots-step :
      (root : String) (roots : List String) (run next : Run) (r f : String)
      → no_twice (root ∷ roots) ≡ true
      → Ran root run next
      → after_roots roots next.disk r f ≡ after_roots (root ∷ roots) run.disk r f
  unfolding after_roots after_root no_twice
  after_roots-step root roots run next r f n (a, b) =
      rw (ap (λ g. g r) a, b r f)
        (elim (Bool-cases (r == root)) [
          | inl y ↦ rw ((eq_iff r root).0 y) (rw (eq_refl root) (ground arith))
          | inr d ↦ elim (Bool-cases (run.disk.has_root root)) [
            | inl w ↦ rw (d, w) refl
            | inr w ↦ rw (d, w) refl
          ]
        ])

  build_roots-file :
      (roots : List String) (run ended : Run) (r f : String)
      → no_twice roots ≡ true
      → build_roots host config false roots run ≡ done ended
      → ended.disk.file r f ≡ after_roots roots run.disk r f
  unfolding build_roots after_roots no_twice
  build_roots-file [] run ended r f n h = ground arith
  build_roots-file (root ∷ roots) run ended r f n h =
      let (next, s, t) = and_then-eq-done (build_root host config false root run) _ ended h in
      build_roots-file roots next ended r f (ground arith) t
      ∙ after_roots-step root roots run next r f n (build_root-Ran root run next s)

  build_roots-has_root :
      (roots : List String) (run ended : Run)
      → build_roots host config false roots run ≡ done ended
      → ended.disk.has_root ≡ run.disk.has_root
  unfolding build_roots
  build_roots-has_root [] run ended h = ground arith
  build_roots-has_root (root ∷ roots) run ended h =
      let (next, s, t) = and_then-eq-done (build_root host config false root run) _ ended h in
      build_roots-has_root roots next ended t ∙ (build_root-Ran root run next s).0

pub run_build-has_root :
    (host : Host) (config : Branding) (roots : List String) (disk : Disk) (ended : Run)
    → load_config host ≡ ok config
    → run_build host false roots disk ≡ done ended
    → ended.disk.has_root ≡ disk.has_root
run_build-has_root host config roots disk ended l h =
    build_roots-has_root host config roots (start disk) ended
      (sym (run_build-ok host config false roots disk l) ∙ h)

-- After a run over distinct roots that ends without an exception, every file holds what the
-- configuration makes of it: a target below a root that is there holds the new text of what it held,
-- unless the write was refused, and any other file is as it was.
pub run_build-refines :
    (host : Host) (config : Branding) (roots : List String) (disk : Disk) (ended : Run)
    (r f : String)
    → load_config host ≡ ok config
    → no_twice roots ≡ true
    → run_build host false roots disk ≡ done ended
    → ended.disk.file r f ≡ after_roots host config roots disk r f
run_build-refines host config roots disk ended r f l n h =
    build_roots-file host config roots (start disk) ended r f n
      (sym (run_build-ok host config false roots disk l) ∙ h)
