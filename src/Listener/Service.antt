-- ===== src/Listener/Service.antt =====
-- Creating, changing and deleting listeners (backend/internal/listener/service.go, quick.go, p2.go).
-- What the service takes from elsewhere is one parameter: the printing of a number, the ids and the
-- JSON of rows, `net.ParseIP`, and the preparation of a row, `AutofillListenerDefaults` followed by
-- `ValidateModel` (`none` is an error of either).
pub mod Ports
pub mod Create
pub mod Change
pub mod Steps
pub mod Clash
pub mod Created
pub mod Free
