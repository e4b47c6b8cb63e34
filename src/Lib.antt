-- ===== src/Lib.antt =====
-- The pages of the Italian identity proxy: a model of the JavaScript that the repository has of
-- its own below iam-proxy-italia-project/static, and of its correctness.
--
-- The parts. A build step reads the branding configuration and writes it into the locale files and the
-- HTML files; another copies the Bootstrap Italia package. The page of digital identities (disco.html)
-- loads a locale bundle and makes a card for each authentication method, with the SPID menu and the CIE
-- menu. The wallet page (it-wallet.html) loads the list of wallets, shuffles it, and lets the user search
-- and sort it. The error page translates its marked elements. All three have the language menu in the
-- header, whose callback loads the page again in another language.
--
--   Config        iam-proxy-italia-project/static/scripts/apply-config.js: Config/Paths is setByPath, Config/Branding is
--                 validateConfig, Config/Edits is buildJsonEdits and its loop in applyToSources. Config/Regex
--                 is how the language runs the patterns of the file, with Config/Regex/Replace for
--                 String.replace and Config/Regex/Shortest for how much a lazy part takes; Config/Html and Config/Html/Logo are the transforms of the HTML files,
--                 Config/Pipeline is buildHtmlPipeline and applyToSources, Config/Build is runBuild and the
--                 command line.
--   Copy          iam-proxy-italia-project/static/scripts/copy-bootstrap-italia.js: the copy of the package
--                 into the static files; Copy/Files is what can be read below a tree after it.
--   Eid           iam-proxy-italia-project/static/js/eid-cards-loader.js: Eid/Bundle, Eid/Entries and Eid/Slug are the data of the
--                 cards; Eid/Cards, Eid/Cards/Button and Eid/LearnMore the trees that are created;
--                 Eid/Menu with Panel and Wiring the SPID menu, Eid/Dropdown the CIE menu and, with
--                 Expand, the learn-more toggle; Eid/Document and Eid/Page loadDocument and loadEidCards;
--                 Eid/Session the start of the page and its changes of language.
--   Wallet        iam-proxy-italia-project/static/js/it-wallet-loader.js: Wallet/Order and Wallet/Find are the list, Wallet/Cards
--                 and Wallet/Grid the grid, Wallet/Document the texts, Wallet/Load the fetch and the load
--                 as a whole, Wallet/Session the loads that overlap after changes of language,
--                 Wallet/Controls the search and sort controls, with the sort menu, the panel for small
--                 screens, what a load does to that panel (Reload) and the listeners of several loads
--                 (Reloaded) below it.
--   Lang          iam-proxy-italia-project/static/js/header-lang-dropdown.js: Lang/Menu is the marking and binding of the
--                 menus, Lang/Change the click on an option and the events of i18next that answer it,
--                 Lang/Popper the distance of a menu from its trigger.
--   ErrorPage     iam-proxy-italia-project/static/js/error-i18n.js: the passes of applyErrorTranslations over the error page;
--                 ErrorPage/Session is the set-up of i18next and the changes of language.
--   Json, Dom     JSON values; created nodes, and the elements of a page by their selectors.
--   Base          what the parts share: tests, lists, integers, texts, results, and states that an
--                 exception leaves behind.
--
-- A function of the sources keeps its name, in lower case with underscores. A pure function is a
-- function; an operation on the page is a function on a record of what it reads and writes; a listener is
-- a step of a state, and an animation frame an event of its own. A TypeError or a thrown Error is a
-- result; what was written before it stays. There is no fuel: every loop runs over a list or a number.
--
-- In the build, the disk is a function from a root and a path below it to the text of a file, and the path
-- of one root is never a path of another. A file may be there and throw when it is read.
--
-- Parameters: JSON.parse, JSON.stringify, path.relative and the message of a write that throws;
-- toLowerCase, localeCompare, Math.random, the URL parser, encodeURIComponent, i18next, the jQuery plugin
-- of the SPID button and the layout of the browser.
--
-- A promise of i18next and a fetch are pending entries of a state, and the events that answer them come in
-- any order that the schedule, a list of events, has.
--
-- Not modelled: the scripts of other projects, whose calls are parameters; and the proxy itself, which is
-- in Python.
pub mod Base
pub mod Json
pub mod Dom
pub mod Config
pub mod Copy
pub mod Eid
pub mod Wallet
pub mod Lang
pub mod ErrorPage
