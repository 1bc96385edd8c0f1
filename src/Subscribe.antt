-- ===== src/Subscribe.antt =====
-- internal/subscribe: the live queries of a space. Tuple is the order of the sort keys, Window the held
-- records of a subscription, Scope the routing of events, Sub the state of one subscription and its
-- transitions, Apply what an event does to it, Engine the table of subscriptions.
pub mod Tuple
pub mod Window
pub mod Scope
pub mod Sub
pub mod Apply
pub mod Event
pub mod Engine
