-- ===== src/Lang/Change/Laws.antt =====
-- Whatever the order of clicks, changes and resolutions, the menus are marked for the language in
-- force; the language of the document is the one in force while each promise is resolved in its turn.
use satosa_saml2spid.Base.{
  ℕ, String, ◌≡◌, refl, false, none, some, List, [], ◌∷◌, map, All, ◌==◌, eqb, if◌then◌else◌,
  is_truthy, get_elem?, without, arith, Bool-cases, Option-cases, inl, inr, ◌⊎◌,
}
use satosa_saml2spid.Lang.Menu.{
  normalize_lang, Root, sync_root, bind_root, sync_all_lang_dropdowns, lang_active_hint,
  trigger_aria_label, init_header_lang_dropdown, set_document_language,
}
use satosa_saml2spid.Lang.Menu.Laws.{IsMarked, sync_option-IsMarked}
use satosa_saml2spid.Lang.Change.{
  Event, clicked, changed, resolved, Switch, Callback, settled, on_resolved, step, run, start,
}

-- A menu names and marks a language: its options, its label, and the two texts for a screen reader,
-- which are in that language.
abbrev pub Speaks : (String → String → String → String) → String → Root → Type 0
Speaks texts lng root =
    let code = normalize_lang (some lng) in
    All (IsMarked code) root.options
    × (root.label ≡ (if code == "en" then "EN" else "ITA"))
    × (root.active_hint ≡ texts lng "header.lang_active_hint" "")
    × (root.trigger_label ≡ trigger_aria_label (some (texts lng)) code)

module _ (texts : String → String → String → String) (lng : String) where
  sync-Speaks :
      (roots : List Root)
      → All (Speaks texts lng) (map (sync_root (some (texts lng)) (some lng)) roots)
  unfolding sync_root lang_active_hint
  sync-Speaks [] = tt
  sync-Speaks (root ∷ roots) =
      ((sync_option-IsMarked _ root.options, refl, refl, refl), sync-Speaks roots)

  bind-Speaks :
      (roots : List Root)
      → All (Speaks texts lng) roots
      → All (Speaks texts lng) (map bind_root roots)
  unfolding bind_root
  bind-Speaks [] h = tt
  bind-Speaks (root ∷ roots) (p, h) = elim (Bool-cases root.bound) [
    | inl y ↦ rw y (p, bind-Speaks roots h)
    | inr n ↦ rw n (p, bind-Speaks roots h)
  ]

module _ {S : Type 0} (texts : String → String → String → String) (after : Callback S) where
  -- The listener of `languageChanged` is there, and every menu is for the language in force.
  abbrev pub InStep : Switch S → Type 0
  InStep w = (eqb w.header.on_change 0 ≡ false) × All (Speaks texts w.language) w.header.roots

  start-InStep : (w : Switch S) → InStep (start texts after w)
  unfolding start init_header_lang_dropdown sync_all_lang_dropdowns
  start-InStep w =
      (ground arith, bind-Speaks texts w.language _ (sync-Speaks texts w.language w.header.roots))

  step-InStep : (e : Event) (w : Switch S) → InStep w → InStep (step texts after e w)
  unfolding step sync_all_lang_dropdowns
  step-InStep (clicked none) w h = h
  step-InStep (clicked (some lng)) w h = elim (Bool-cases (is_truthy lng)) [
    | inl y ↦ rw y h
    | inr n ↦ rw n h
  ]
  step-InStep (changed lng) w (n, h) = rw n (n, sync-Speaks texts lng w.header.roots)
  step-InStep (resolved i) w h = elim (Option-cases (get_elem? w.pending i)) [
    | inl e ↦ rw (e, on_resolved) h
    | inr (lng, e) ↦ rw (e, on_resolved) h
  ]

  run-InStep : (es : List Event) (w : Switch S) → InStep w → InStep (run texts after es w)
  unfolding run
  run-InStep [] w h = h
  run-InStep (e ∷ es) w h = run-InStep es (step texts after e w) (step-InStep e w h)

  -- Once the header is set up, the menus name and mark the language in force and speak it, after any
  -- clicks, changes and resolutions in any order.
  pub run-Speaks :
      (es : List Event) (w : Switch S)
      → let v = run texts after es (start texts after w) in
        All (Speaks texts v.language) v.header.roots
  run-Speaks es w = (run-InStep es (start texts after w) (start-InStep w)).1

  -- The document has the language in force.
  abbrev pub Agrees : Switch S → Type 0
  Agrees w = w.header.document_lang ≡ normalize_lang (some w.language)

  -- The page with something else in the `lang` of its document.
  abbrev pub said : String → Switch S → Switch S
  said doc w = record w { header = record w.header { document_lang = doc } }

  -- A promise is resolved in its turn: while its language is in force.
  abbrev pub InTurn : Event → Switch S → Type 0
  InTurn (clicked lng) w = Unit
  InTurn (changed lng) w = Unit
  InTurn (resolved i) w = get_elem? w.pending i ≡ some w.language

  abbrev pub AllInTurn : List Event → Switch S → Type 0
  AllInTurn [] w = Unit
  AllInTurn (e ∷ es) w = InTurn e w × AllInTurn es (step texts after e w)

  module _
      (keeps : (lng doc : String)
        → (after.lang lng doc ≡ doc) ⊎ (after.lang lng doc ≡ normalize_lang (some lng))) where
    -- The callback leaves a document that says the language in force.
    callback-Agrees :
        (lng : String) → after.lang lng (normalize_lang (some lng)) ≡ normalize_lang (some lng)
    callback-Agrees lng = elim (keeps lng (normalize_lang (some lng))) [ inl e ↦ e | inr e ↦ e ]

    -- A promise that is resolved in its turn names the document, whatever it said before.
    resolved-Agrees :
        (i : ℕ) (w : Switch S) → InTurn (resolved i) w → Agrees (step texts after (resolved i) w)
    unfolding step set_document_language
    resolved-Agrees i w e = rw (e, on_resolved) (callback-Agrees w.language)

    step-Agrees :
        (e : Event) (w : Switch S)
        → InTurn e w
        → InStep w
        → Agrees w
        → Agrees (step texts after e w)
    unfolding step sync_all_lang_dropdowns
    step-Agrees (clicked none) w t n h = h
    step-Agrees (clicked (some lng)) w t n h = elim (Bool-cases (is_truthy lng)) [
      | inl y ↦ rw y h
      | inr m ↦ rw m h
    ]
    step-Agrees (changed lng) w t (n, _) h = rw n refl
    step-Agrees (resolved i) w e n h = resolved-Agrees i w e

    run-Agrees :
        (es : List Event) (w : Switch S)
        → AllInTurn es w
        → InStep w
        → Agrees w
        → Agrees (run texts after es w)
    unfolding run
    run-Agrees [] w t n h = h
    run-Agrees (e ∷ es) w (t, ts) n h =
        run-Agrees es (step texts after e w) ts (step-InStep e w n) (step-Agrees e w t n h)

    -- Whatever the document says, and whatever has happened since the header was set up, a promise that
    -- is resolved in its turn gives the document the language in force, and it keeps it while the promises
    -- after it are resolved in their turn.
    pub run_document :
        (i : ℕ) (es past : List Event) (doc : String) (w : Switch S)
        → AllInTurn (resolved i ∷ es) (said doc (run texts after past (start texts after w)))
        → Agrees (
            run texts after
              (resolved i ∷ es)
              (said doc (run texts after past (start texts after w))))
    unfolding run
    run_document i es past doc w (t, ts) =
        let u = said doc (run texts after past (start texts after w)) in
        let n : InStep u = run-InStep past (start texts after w) (start-InStep w) in
        run-Agrees es (step texts after (resolved i) u) ts (step-InStep (resolved i) u n)
          (resolved-Agrees i u t)

  -- The page is what the callback makes of a first page, for some language.
  abbrev From : S → Switch S → Type 0
  From s w = (lng : String) × (w.site ≡ after.site lng s)

  module _ (overwrites : (l m : String) (s : S) → after.site m (after.site l s) ≡ after.site m s)
      (s : S) where
    settled-site :
        (lng : String) (left : List String) (w : Switch S)
        → From s w
        → (settled texts after lng (record w { pending = left })).site ≡ after.site w.language s
    unfolding settled
    settled-site lng left w (l, e) = rw e (overwrites l w.language s)

    step-From : (e : Event) (w : Switch S) → From s w → From s (step texts after e w)
    unfolding step
    step-From (clicked none) w h = h
    step-From (clicked (some lng)) w h = elim (Bool-cases (is_truthy lng)) [
      | inl y ↦ rw y h
      | inr n ↦ rw n h
    ]
    step-From (changed lng) w h = h
    step-From (resolved i) w h = elim (Option-cases (get_elem? w.pending i)) [
      | inl e ↦ rw (e, on_resolved) h
      | inr (lng, e) ↦ rw (e, on_resolved) (w.language, settled-site lng (without i w.pending) w h)
    ]

    run-From : (es : List Event) (w : Switch S) → From s w → From s (run texts after es w)
    unfolding run
    run-From [] w h = h
    run-From (e ∷ es) w h = run-From es (step texts after e w) (step-From e w h)

    -- Where a language overwrites what another has left, the resolution of a promise brings the page
    -- to the language in force, whatever came before it.
    pub resolved-site :
        (es : List Event) (w : Switch S) (i : ℕ) (lng : String)
        → From s w
        → get_elem? (run texts after es w).pending i ≡ some lng
        → (step texts after (resolved i) (run texts after es w)).site
          ≡ after.site (run texts after es w).language s
    unfolding step
    resolved-site es w i lng h e =
        rw (e, on_resolved)
          (settled-site lng (without i (run texts after es w).pending) (run texts after es w)
            (run-From es w h))
