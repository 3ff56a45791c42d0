-- ===== src/Then.antt =====
-- include/then/Then.h: promises. A promise is shared by its functors and holders, so it is a name
-- into a store, and a continuation names the promise that it settles. Values of all types are of
-- one type `V`; a Then<void> is a promise of the value `unit`, whose mResolved is that it has an
-- argument.
pub mod Promise
pub mod Void
pub mod Steps
mod Tests
