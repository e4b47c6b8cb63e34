-- ===== src/Config/Html/Logo.antt =====
-- The logo of the headers, as a placeholder or as an image.
use satosa_saml2spid.Base.{String, ◌<>◌, [], ◌∷◌, if◌then◌else◌, is_truthy}
use satosa_saml2spid.Config.Regex.{lit, many, lazy, boundary, Pattern, test}
use satosa_saml2spid.Config.Regex.Replace.{replace_first, by_text}
use satosa_saml2spid.Config.Html.{not_gt, any_char, escape_html_attr}

unfoldable pub header_logo_svg_re : Pattern
header_logo_svg_re = lit "<svg id=\"header-logo\"" ∷ lazy any_char ∷ lit "</svg>" ∷ []

unfoldable pub header_logo_img_re : Pattern
header_logo_img_re = lit "<img id=\"header-logo\"" ∷ many not_gt ∷ lit ">" ∷ []

unfoldable pub header_logo_svg : String → String
header_logo_svg alt_text =
    "<svg id=\"header-logo\" class=\"it-header-logo-placeholder\" role=\"img\" aria-labelledby=\"eid-title\"\n"
    <> "            xmlns=\"http://www.w3.org/2000/svg\" viewBox=\"0 0 240 40\" height=\"32\" focusable=\"false\">\n"
    <> "            <text id=\"header-logo-text\" class=\"it-header-logo-placeholder__text\" x=\"0\" y=\"28\" aria-hidden=\"true\">"
    <> alt_text <> "</text>\n" <> "          </svg>"

unfoldable pub header_logo_img : String → String → String
unfolding escape_html_attr
header_logo_img image alt_text =
    "<img id=\"header-logo\" class=\"it-header-logo-image\" src=\""
    <> escape_html_attr image
    <> "\" alt=\""
    <> escape_html_attr alt_text
    <> "\" height=\"32\">"

-- `html.replace(re, text)` for a pattern without groups.
abbrev pub replace_by : Pattern → String → String → String
replace_by re text html = replace_first re (by_text (λ ts. []) text) html

-- Whether the element is the placeholder or the image, and what either is replaced by.
unfoldable pub switch_logo : Pattern → Pattern → String → String → String → String → String
unfolding test replace_first by_text
switch_logo svg_re img_re image img svg html =
    if is_truthy image
    then if test svg_re html
      then replace_by svg_re img html
      else if test img_re html
      then replace_by img_re img html
      else html
    else if test img_re html
    then replace_by img_re svg html
    else html

unfoldable pub set_header_logo : String → String → String → String
unfolding switch_logo header_logo_svg_re header_logo_img_re header_logo_img header_logo_svg
set_header_logo html image alt_text =
    switch_logo header_logo_svg_re header_logo_img_re image (header_logo_img image alt_text)
      (header_logo_svg alt_text) html

unfoldable pub error_logo_svg_re : Pattern
error_logo_svg_re =
    lit "<svg"
    ∷ boundary
    ∷ many not_gt
    ∷ lit ">"
    ∷ lazy any_char
    ∷ lit "sprites.svg#it-code-circle"
    ∷ lazy any_char
    ∷ lit "</svg>"
    ∷ []

unfoldable pub error_logo_img_re : Pattern
error_logo_img_re =
    lit "<img"
    ∷ boundary
    ∷ many not_gt
    ∷ boundary
    ∷ lit "it-header-logo-image"
    ∷ boundary
    ∷ many not_gt
    ∷ lit ">"
    ∷ []

unfoldable pub error_header_logo_svg : String
error_header_logo_svg =
    "<svg class=\"icon icon-lg me-2\" aria-hidden=\"true\">\n"
    <> "              <!-- YOUR LOGO HERE (same as disco) -->\n"
    <> "              <use href=\"svg/sprites.svg#it-code-circle\"></use>\n" <> "            </svg>"

unfoldable pub error_header_logo_img : String → String
unfolding escape_html_attr
error_header_logo_img image =
    "<img class=\"it-header-logo-image me-2\" src=\""
    <> escape_html_attr image
    <> "\" alt=\"\" aria-hidden=\"true\" height=\"32\">"

unfoldable pub set_error_header_logo : String → String → String
unfolding switch_logo error_logo_svg_re error_logo_img_re error_header_logo_img
    error_header_logo_svg
set_error_header_logo html image =
    switch_logo error_logo_svg_re error_logo_img_re image (error_header_logo_img image)
      error_header_logo_svg html
