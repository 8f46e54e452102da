-- ===== src/Lib.antt =====
-- The browser client (services/ui/frontend): the page that reads oil prices from the
-- server, draws them, and keeps the user's view of them in a session.
--
-- The program's parts, and the files that model them.
--
-- * Types follows services/ui/frontend/src/types.ts: records for the interfaces, data types for the
--   unions of strings. A string is a list of its code units (Prelude.Text). A column that is `number`
--   has the type W, of which only the operations of Platform.Number are known. Types.Texts has the strings
--   that the unions consist of, Types.Body the JSON value of the preferences.
-- * Format follows src/format.ts. `formatDateTime` and `formatShortDate` throw on an invalid date, and
--   have the result type Outcome.
-- * Data follows src/data.ts, one module to a function: Unique (uniqueChronological), Visible
--   (filterVisible), Groups (groupByInstrument), Points (toSeriesPoints, rollingAverage), Charts
--   (createChartGroups and the colors).
-- * Api follows src/api.ts: requestJson on the end of a `fetch`, the requests, and in Api.Join the
--   promise of loadMarketData as a state that the three results reach one after the other; Api.Server is
--   what the UI backend accepts as the body of a save (SessionPreferences in
--   services/ui/backend/src/ui_service/sessions.py).
-- * App.Session follows the first half of src/App.tsx: the state of the component, and one event for
--   each thing that happens to it. `finish_bootstrap` is the bootstrap effect behind its two promises,
--   `save_effect` and `send` are the save effect and its timer, `start_refresh` and `finish_refresh` are
--   refresh() before and behind its request, `update_preference` is updatePreference. Its modules are about
--   what always holds (Invariant), the debounced save (Saving), the start (Bootstrap), refreshing
--   (Refresh), and saving as a whole: Saver is the view of it without timers and requests, a draft with the
--   versions of it that were sent, Refinement compares the component with it, Kept
--   counts the changes of the events apart from it, and Drain is about
--   how it comes to rest. Data is about where the data in the state come from.
-- * App.View follows what App computes while it renders: the visible observations, the ledger
--   (sortedTable), the selection (toggleInstrument) and, in SelectionSet, the selection as a set; Cards
--   has the market snapshot with deltaFor (Delta) and the sparklines (Sparkline), Summary the summaries and
--   the ledger's rows, Instruments the list of instruments, Controls the segmented controls.
-- * App.Page follows the JSX that App returns, one module to a section: TopBar, Intro (with the footer),
--   Snapshot (with the error banner), Filters, Analysis, Ledger, and Render, which puts them together. An
--   element is a value of Markup.Node, whose attributes hold the events that its handlers cause; Offers
--   and Handlers are about these events, Returns, Safe and Throws about exceptions while rendering.
-- * Chart follows src/ChartPanel.tsx: Props (ChartPanelProps), Escape (escapeHtml), Options (what the
--   option takes from the data and the controls), Option (the whole option as a value, with its Series, Axes
--   and Controls, the card that is rendered, and the identifiers of the series), Tooltip (the
--   formatter), Lifecycle (the effect that makes and disposes the chart).
-- * Js has what the client uses of JavaScript itself: `Map` and `Set` (KeyMap), plain objects as
--   dictionaries with inherited names and the order of `Object.entries` (Object), stable sorting (Sort),
--   comparison of keys (Eq), results that may be a thrown exception (Outcome), the text of a number
--   (Number), and values with undefined and functions (Value). Markup is the tree that JSX describes.
-- * Platform has the interfaces of what the browser provides: parsing and printing of dates (Dates),
--   and floating-point arithmetic (Number). Every definition and theorem takes them as instances;
--   Platform.Samples has concrete ones. What a theorem needs of the arithmetic is a hypothesis.
-- * Checks has runs of the definitions, and the theorems at concrete inputs.
--
-- How the parts interact. Api yields the market data and the stored preferences to App.Session; App.View
-- passes the state through Data to Chart; the controls of App.View make the updates of App.Session; App.Page shows all of it, and what its
-- elements can cause are the events of App.Session.
--
-- What stands for what. `Date.parse` gives an instant: a whole number of milliseconds, or `none` for
-- NaN. Whatever compares with NaN is false, a sort treats a NaN difference as 0, and `Map` takes NaN for
-- one key. JavaScript leaves the order of a sort open where its comparison is inconsistent, as it is when
-- only some dates are NaN; there the insertion sort of Js.Sort is one of the permitted orders. Numbers of milliseconds are integers without bound: sums
-- of dates and ranges stay far below 2 ^ 53. The network, the clock and the user are arguments: how each
-- request ends and in which order, what time it is, and the list of events. An event that can not occur in
-- a state, such as the click of a disabled button, changes nothing. React renders once for the updates of
-- one event and then runs the effects whose dependencies changed. The requests' responses are taken to
-- have the types that the client gives them.
--
-- Fuel. The decimal text of a number n has fuel n + 1, which is enough since a tenth of a number other than 0
-- is smaller than the number. Every other loop is a recursion on its list.
--
-- Not modelled: ECharts and React themselves, the style sheet, the entry point and the build,
-- the generated bundle, and the services behind the API (the Python UI backend and history service, the Go
-- fetcher, the database and the infrastructure), which are programs of their own, except for what the UI
-- backend accepts as the body of a save. There, what Pydantic makes of a JSON value for a `bool` is an argument.
pub mod Prelude
pub mod Js
pub mod Markup
pub mod Types
pub mod Platform
pub mod Format
pub mod Data
pub mod Api
pub mod App
pub mod Chart
mod Checks
