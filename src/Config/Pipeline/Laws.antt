-- ===== src/Config/Pipeline/Laws.antt =====
-- A file of the locales that has its edits is left as it is.
use satosa_saml2spid.Base.{String, ◌<>◌, ◌≡◌, refl, ap, ◌∙◌, some, List, find_key, ok, ◌>>=◌}
use satosa_saml2spid.Json.{Json}
use satosa_saml2spid.Config.Branding.{Branding}
use satosa_saml2spid.Config.Edits.{Edit, build_json_edits, apply_edits}
use satosa_saml2spid.Config.Edits.Laws.{Holds, json_edits_settle}
use satosa_saml2spid.Config.Pipeline.{JsonText, text_of, edit_text, apply_to_source}

edit_text-ok :
    (json : JsonText) (config : Branding) (es : List Edit) (content : String) (root edited : Json)
    → json.parse content ≡ ok root
    → apply_edits es root ≡ some edited
    → edit_text json config es content ≡ ok (json.stringify edited <> "\n")
unfolding edit_text ◌>>=◌ text_of
edit_text-ok json config es content root edited p a = rw p (ap (text_of json) a)

apply_to_source-edits :
    (json : JsonText) (config : Branding) (rel : String) (es : List Edit) (content : String)
    → find_key rel (build_json_edits config) ≡ some es
    → apply_to_source json config rel content ≡ edit_text json config es content
unfolding apply_to_source
apply_to_source-edits json config rel es content f = rw (f, apply_to_source) refl

-- A locale file comes out with every configured value in it, and a second time it comes out as it
-- went in, where the text that was printed parses to the value that was printed.
pub locale_file_settles :
    (json : JsonText) (config : Branding) (rel : String) (es : List Edit) (content : String)
    (root edited : Json)
    → find_key rel (build_json_edits config) ≡ some es
    → json.parse content ≡ ok root
    → apply_edits es root ≡ some edited
    → json.parse (json.stringify edited <> "\n") ≡ ok edited
    → Holds es edited
      × (apply_to_source json config rel content ≡ ok (json.stringify edited <> "\n"))
      × (apply_to_source json config rel (json.stringify edited <> "\n")
          ≡ ok (json.stringify edited <> "\n"))
locale_file_settles json config rel es content root edited f p a q =
    let (holds, again) = json_edits_settle config rel es root edited f a in
    (
      holds,
      apply_to_source-edits json config rel es content f
          ∙ edit_text-ok json config es content root edited p a,
      apply_to_source-edits json config rel es (json.stringify edited <> "\n") f
          ∙ edit_text-ok json config es (json.stringify edited <> "\n") edited edited q again,
    )
