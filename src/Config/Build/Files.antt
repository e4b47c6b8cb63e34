-- ===== src/Config/Build/Files.antt =====
-- The lists of files that `runBuild` makes for a root: those that are there, and their new texts.
use satosa_saml2spid.Base.{
  String, ◌≡◌, refl, ◌∙◌, subst, inl, inr, Bool, true, false, not, ◌&&◌, none, some, List, [], ◌∷◌,
  ◌==◌, eq_refl, any, find_key, Option-cases, ◌⊎◌, Result, ok, err, bind-eq-ok, ◌>>=◌, arith,
}
use satosa_saml2spid.Config.Pipeline.{each_source}
use satosa_saml2spid.Config.Build.{Host, Disk, Run, sources_of, write_one, write_loop}

abbrev pub has_key : String → List (String × String) → Bool
has_key k m = any (λ e. k == e.0) m

unfoldable pub distinct : List (String × String) → Bool
distinct [] = true
distinct ((k, v) ∷ m) = not (has_key k m) && distinct m

module _ (host : Host) (dry_run : Bool) (root : String) where
  write_loop-skip :
      (k v : String) (output sources : List (String × String)) (run : Run)
      → has_key k sources ≡ false
      → write_loop host dry_run root ((k, v) ∷ output) sources run
        ≡ write_loop host dry_run root output sources run
  unfolding write_loop find_key
  write_loop-skip k v output [] run n = refl
  write_loop-skip k v output ((rel, content) ∷ sources) run n =
      let other : (k == rel) ≡ false = ground arith in
      rw other (write_loop-skip k v output sources _ (ground arith))

  unfoldable pub settle_by : Result String → String → String → Run → Run
  settle_by (err message) rel content run = run
  settle_by (ok new) rel content run = write_one host dry_run root rel content new run

  module _ (apply : String → String → Result String) where
    -- One file, with its own new text.
    unfoldable pub settle_one : String → String → Run → Run
    unfolding settle_by
    settle_one rel content run = settle_by (apply rel content) rel content run

    pub settle_one-ok :
        (rel content new : String) (run : Run)
        → apply rel content ≡ ok new
        → settle_one rel content run ≡ write_one host dry_run root rel content new run
    unfolding settle_one
    settle_one-ok rel content new run h = rw (h, settle_one) refl

    -- The loop with each file beside its own new text.
    unfoldable pub settle_loop : List (String × String) → Run → Run
    settle_loop [] run = run
    settle_loop ((rel, content) ∷ sources) run = settle_loop sources (settle_one rel content run)

    settle-cons :
        (rel content new : String) (sources others : List (String × String)) (run : Run)
        → apply rel content ≡ ok new
        → has_key rel sources ≡ false
        → write_loop host dry_run root others sources
            (write_one host dry_run root rel content new run)
          ≡ settle_loop sources (write_one host dry_run root rel content new run)
        → write_loop host dry_run root ((rel, new) ∷ others) ((rel, content) ∷ sources) run
          ≡ settle_loop ((rel, content) ∷ sources) run
    unfolding write_loop settle_loop find_key
    settle-cons rel content new sources others run h n rest =
        rw (settle_one-ok rel content new run h, eq_refl rel)
          (write_loop-skip rel new others sources _ n ∙ rest)

    -- The texts of the output stand at the files that they were made from.
    pub write_loop-settle :
        (sources output : List (String × String)) (run : Run)
        → distinct sources ≡ true
        → each_source apply sources ≡ ok output
        → write_loop host dry_run root output sources run ≡ settle_loop sources run
    unfolding each_source ◌>>=◌ distinct settle_loop write_loop
    write_loop-settle [] output run d e = refl
    write_loop-settle ((rel, content) ∷ sources) output run d e =
        let (new, h, k) = bind-eq-ok (apply rel content) _ output e in
        let (others, t, u) = bind-eq-ok (each_source apply sources) _ output k in
        let shape : (rel, new) ∷ others ≡ output = cc in
        subst
          (λ o.
            write_loop host dry_run root o ((rel, content) ∷ sources) run
            ≡ settle_loop ((rel, content) ∷ sources) run)
          shape
          (settle-cons rel content new sources others run h (ground arith)
            (write_loop-settle sources others _ (ground arith) t))

-- A name that is not among the files is not among those that are there.
abbrev pub has : String → List String → Bool
has k files = any (λ f. k == f) files

unfoldable pub no_twice : List String → Bool
no_twice [] = true
no_twice (f ∷ files) = not (has f files) && no_twice files

module _ (disk : Disk) (root : String) where
  -- What the files that are read are, one by one.
  pub sources_of-cons :
      (rel : String) (files : List String) (ss : List (String × String))
      → sources_of disk root (rel ∷ files) ≡ ok ss
      → ((disk.file root rel ≡ none) × (sources_of disk root files ≡ ok ss))
        ⊎ ((content : String) × (others : List (String × String)) × (disk.file root rel
              ≡ some (ok content))
            × (sources_of disk root files ≡ ok others)
            × ((rel, content) ∷ others ≡ ss))
  unfolding sources_of ◌>>=◌
  sources_of-cons rel files ss e = elim (Option-cases (disk.file root rel)) [
    | inl n ↦ inl (n, ground arith)
    | inr (reading, r) ↦
        let read : (reading >>= λ content.
        sources_of disk root files >>= λ others. ok ((rel, content) ∷ others))
            ≡ ok ss =
          ground arith in
        let (content, h, k) = bind-eq-ok reading _ ss read in
        let (others, t, u) = bind-eq-ok (sources_of disk root files) _ ss k in
        inr (content, others, cc, t, cc)
  ]

  pub sources_of-has_key :
      (k : String) (files : List String) (ss : List (String × String))
      → has k files ≡ false
      → sources_of disk root files ≡ ok ss
      → has_key k ss ≡ false
  unfolding sources_of
  sources_of-has_key k [] ss n e = ground arith
  sources_of-has_key k (rel ∷ files) ss n e = elim (sources_of-cons rel files ss e) [
    | inl (a, t) ↦ sources_of-has_key k files ss (ground arith) t
    | inr (content, others, r, t, u) ↦
        let rest = sources_of-has_key k files others (ground arith) t in
        subst (λ x. has_key k x ≡ false) u (ground arith)
  ]

  pub sources_of-distinct :
      (files : List String) (ss : List (String × String))
      → no_twice files ≡ true
      → sources_of disk root files ≡ ok ss
      → distinct ss ≡ true
  unfolding sources_of distinct no_twice
  sources_of-distinct [] ss n e = ground arith
  sources_of-distinct (rel ∷ files) ss n e = elim (sources_of-cons rel files ss e) [
    | inl (a, t) ↦ sources_of-distinct files ss (ground arith) t
    | inr (content, others, r, t, u) ↦
        let fresh = sources_of-has_key rel files others (ground arith) t in
        let rest = sources_of-distinct files others (ground arith) t in
        subst (λ x. distinct x ≡ true) u (ground arith)
  ]
