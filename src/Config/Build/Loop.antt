-- ===== src/Config/Build/Loop.antt =====
-- The loop over the files of a root: what it leaves alone, and what each file holds after it.
use satosa_saml2spid.Base.{
  String, ◌≡◌, refl, sym, ◌∙◌, subst, inl, inr, Bool, true, false, ◌&&◌, Option, none, some, List,
  [], ◌∷◌, ◌==◌, eq_iff, eq_refl, eq_sym-false, find_key, Bool-cases, Result, ok, err, arith,
}
use satosa_saml2spid.Config.Build.{Host, Run, write_file, write_one}
use satosa_saml2spid.Config.Build.Files.{has_key, distinct, settle_by, settle_one, settle_loop}

module _ (host : Host) (dry_run : Bool) (root : String) where
  write_one-has_root :
      (rel content new : String) (run : Run)
      → (write_one host dry_run root rel content new run).disk.has_root ≡ run.disk.has_root
  unfolding write_one write_file
  write_one-has_root rel content new run = ground arith

  write_one-other :
      (rel content new : String) (run : Run) (r f : String)
      → (r == root && f == rel) ≡ false
      → (write_one host dry_run root rel content new run).disk.file r f ≡ run.disk.file r f
  unfolding write_one write_file
  write_one-other rel content new run r f n = ground arith

  settle_by-has_root :
      (o : Result String) (rel content : String) (run : Run)
      → (settle_by host dry_run root o rel content run).disk.has_root ≡ run.disk.has_root
  unfolding settle_by
  settle_by-has_root (err message) rel content run = refl
  settle_by-has_root (ok new) rel content run = write_one-has_root rel content new run

  settle_by-other :
      (o : Result String) (rel content : String) (run : Run) (r f : String)
      → (r == root && f == rel) ≡ false
      → (settle_by host dry_run root o rel content run).disk.file r f ≡ run.disk.file r f
  unfolding settle_by
  settle_by-other (err message) rel content run r f n = refl
  settle_by-other (ok new) rel content run r f n = write_one-other rel content new run r f n

  module _ (apply : String → String → Result String) where
    pub settle_loop-has_root :
        (ss : List (String × String)) (run : Run)
        → (settle_loop host dry_run root apply ss run).disk.has_root ≡ run.disk.has_root
    unfolding settle_loop settle_one
    settle_loop-has_root [] run = refl
    settle_loop-has_root ((rel, content) ∷ ss) run =
        settle_loop-has_root ss (settle_one host dry_run root apply rel content run)
        ∙ settle_by-has_root (apply rel content) rel content run

    -- A file of another root, or one that is not in the list, stays as it is.
    pub settle_loop-other :
        (ss : List (String × String)) (run : Run) (r f : String)
        → (r == root && has_key f ss) ≡ false
        → (settle_loop host dry_run root apply ss run).disk.file r f ≡ run.disk.file r f
    unfolding settle_loop settle_one
    settle_loop-other [] run r f n = refl
    settle_loop-other ((rel, content) ∷ ss) run r f n =
        settle_loop-other ss (settle_one host dry_run root apply rel content run) r f (ground arith)
        ∙ settle_by-other (apply rel content) rel content run r f (ground arith)

-- What a file holds after a run: its new text, unless the write throws.
unfoldable pub new_text : Option String → Result String → String → String
new_text error (err message) content = content
new_text none (ok new) content = new
new_text (some error) (ok new) content = content

unfoldable pub settled :
    Host
    → (String → String → Result String)
    → String
    → String
    → Option (Result String)
    → Option (Result String)
unfolding new_text
settled host apply root rel none = none
settled host apply root rel (some (err message)) = some (err message)
settled host apply root rel (some (ok content)) =
    some (ok (new_text (host.write_error root rel) (apply rel content) content))

module _ (host : Host) (root : String) where
  write_one-settled :
      (error : Option String) (rel content new : String) (run : Run)
      → host.write_error root rel ≡ error
      → run.disk.file root rel ≡ some (ok content)
      → (write_one host false root rel content new run).disk.file root rel
        ≡ some (ok (new_text error (ok new) content))
  unfolding write_one write_file new_text
  write_one-settled none rel content new run e h =
      ground (arith, eq_refl root, eq_refl rel, eq_iff new content)
  write_one-settled (some error) rel content new run e h = ground arith

  settle_by-settled :
      (o : Result String) (rel content : String) (run : Run)
      → run.disk.file root rel ≡ some (ok content)
      → (settle_by host false root o rel content run).disk.file root rel
        ≡ some (ok (new_text (host.write_error root rel) o content))
  unfolding settle_by new_text
  settle_by-settled (err message) rel content run h = h
  settle_by-settled (ok new) rel content run h =
      write_one-settled (host.write_error root rel) rel content new run refl h

  module _ (apply : String → String → Result String) where
    -- The entry that is found first is settled, and nothing behind it touches the file again.
    settle_loop-here :
        (ss : List (String × String)) (run : Run) (rel content : String)
        → has_key rel ss ≡ false
        → run.disk.file root rel ≡ some (ok content)
        → (settle_loop host false root apply ((rel, content) ∷ ss) run).disk.file root rel
          ≡ settled host apply root rel (some (ok content))
    unfolding settle_loop settle_one settled
    settle_loop-here ss run rel content n h =
        settle_loop-other host false root apply ss
          (settle_one host false root apply rel content run) root rel (ground arith)
        ∙ settle_by-settled (apply rel content) rel content run h

    pub settle_loop-settled :
        (ss : List (String × String)) (run : Run) (rel content : String)
        → distinct ss ≡ true
        → find_key rel ss ≡ some content
        → run.disk.file root rel ≡ some (ok content)
        → (settle_loop host false root apply ss run).disk.file root rel
          ≡ settled host apply root rel (some (ok content))
    unfolding settle_loop settle_one distinct find_key
    settle_loop-settled [] run rel content d k h = cc
    settle_loop-settled ((rel', content') ∷ ss) run rel content d k h =
        elim (Bool-cases (rel' == rel)) [
          | inl y ↦
              let unique : has_key rel' ss ≡ false = ground arith in
              let e : (rel', content') ≡ (rel, content) = ground (arith, eq_iff rel' rel) in
              subst
                (λ x.
                  (settle_loop host false root apply (x ∷ ss) run).disk.file root rel
                  ≡ settled host apply root rel (some (ok content)))
                (sym e)
                (settle_loop-here ss run rel content
                  (subst (λ x. has_key x ss ≡ false) ((eq_iff rel' rel).0 y) unique) h)
          | inr n ↦
              settle_loop-settled ss (settle_one host false root apply rel' content' run) rel
                content (ground arith) (ground arith)
                (settle_by-other host false root (apply rel' content') rel' content' run root rel
                    (rw (eq_sym-false rel' rel n, eq_refl root) refl)
                  ∙ h)
        ]
