-- ===== src/Eid/Menu/Wiring/Tests.antt =====
-- The trigger of the SPID menu at small inputs.
use satosa_saml2spid.Base.{refl, true, false, []}
use satosa_saml2spid.Eid.Menu.{elsewhere}
use satosa_saml2spid.Eid.Menu.Panel.{Panel, Browser, hidden}
use satosa_saml2spid.Eid.Menu.Wiring.{Listeners, render_cards}
use satosa_saml2spid.Eid.Menu.Wiring.Laws.{IsBoundOnce, render_cards-IsBoundOnce}
use satosa_saml2spid.Eid.Tests.{browser}

abbrev no_listeners : Listeners
no_listeners = record {
  kb_bound = false;
  menu_keys = 0;
  trigger_clicks = 0;
  trigger_keys = 0;
  shows = 0;
  global_bound = false;
  global_clicks = 0;
  global_keys = 0;
}

render_cards-IsBoundOnce_example : IsBoundOnce true (render_cards true 3 no_listeners)
render_cards-IsBoundOnce_example = render_cards-IsBoundOnce true 2 no_listeners (refl, refl)

abbrev closed_panel : Panel
closed_panel = record {
  marked = false;
  display = hidden;
  menu = record { tabs = []; focus = elsewhere; expanded = false };
}

-- A plugin whose click marks the panel.
abbrev opening : Browser
opening = record browser { click = λ p. record p { marked = true } }
