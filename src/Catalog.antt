-- ===== src/Catalog.antt =====
-- internal/catalog/catalog.go: the catalog of routable models and its snapshot.
--
-- The Go mutex is not modelled: every method of the manager runs under it from its first access to
-- the snapshot to its last, so that calls take effect one after another. `url.Parse`,
-- `url.PathEscape`, `strings.EqualFold` (on hosts), the JSON decoder and the verb %q of `fmt` are
-- parameters. The `warns` and the reasons of `unsup` are texts, as in the code.
pub mod Route
pub mod Entry
pub mod Build
pub mod Manager
pub mod Step
pub mod Index
pub mod Records
pub mod Count
pub mod Refresh
mod Samples
