-- ===== src/Lang/Change/Tests.antt =====
-- Two clicks on the language menu, resolved one after the other.
use satosa_saml2spid.Base.{inl, String, refl, true, some, List, [], ◌∷◌, ◌++◌, All}
use satosa_saml2spid.Lang.Tests.{header}
use satosa_saml2spid.Lang.Change.{
  Event, clicked, changed, resolved, Switch, Callback, step, run, start,
}
use satosa_saml2spid.Lang.Change.Laws.{Speaks, Agrees, AllInTurn, said, run-Speaks, run_document}

-- The name of the language before each key.
abbrev pub texts : String → String → String → String
texts language key name = key

-- A callback that counts the loads.
abbrev noted : Callback (List String)
noted = record { lang = λ language lang. lang; site = λ language s. s ++ (language ∷ []) }

abbrev page : Switch (List String)
page = record {
  header = header;
  language = "it";
  bootstrap = true;
  menu_shown = true;
  pending = [];
  site = [];
}

abbrev two_clicks : List Event
two_clicks =
    clicked (some "en")
    ∷ changed "en"
    ∷ resolved 0
    ∷ clicked (some "it")
    ∷ changed "it"
    ∷ resolved 0
    ∷ []

run-Speaks_example :
    let v = run texts noted two_clicks (start texts noted page) in
    All (Speaks texts v.language) v.header.roots
run-Speaks_example = run-Speaks texts noted two_clicks page

abbrev first_click : List Event
first_click = clicked (some "en") ∷ changed "en" ∷ []

abbrev second_click : List Event
second_click = clicked (some "it") ∷ changed "it" ∷ resolved 0 ∷ []

-- The page after the first click, with another language in its document.
abbrev waiting : Switch (List String)
waiting = said texts noted "de" (run texts noted first_click (start texts noted page))

in_turn : AllInTurn texts noted (resolved 0 ∷ second_click) waiting
unfolding run step start
in_turn = (refl, (tt, (tt, (refl, tt))))

run_document_example : Agrees texts noted (run texts noted (resolved 0 ∷ second_click) waiting)
run_document_example =
    run_document texts noted (λ lng doc. inl refl) 0 second_click first_click "de" page in_turn
