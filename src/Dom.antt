-- ===== src/Dom.antt =====
-- The part of the DOM that the loaders use: trees of created nodes, and the elements of the page
-- that a script finds by a selector.
pub mod Tree
pub mod Page
pub mod Address
