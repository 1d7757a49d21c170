-- ===== src/Filter.antt =====
-- src/seccompy/filter.py: filters, their rules, and the programs they compile to.
pub mod Action
pub mod Args
pub mod Source
pub mod Spec
pub mod Cond
pub mod Decide
pub mod Extends
pub mod Rules
pub mod Labels
pub mod Compile
pub mod Blocks
pub mod Correct
pub mod Object
pub mod Entries
pub mod History
pub mod Load
pub mod Loaded
pub mod Ending
pub mod Methods
pub mod Checked
pub mod Payload
pub mod Invariant
pub mod Tests
mod LoadTests
