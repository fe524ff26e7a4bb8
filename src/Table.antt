-- ===== src/Table.antt =====
-- common/WHASlotTable.h: the Slot Table, the routing and settings that the Control Panel writes and
-- the Master and its Worker read. Enum values stay numbers, since the table is shared memory and the
-- code compares and range-checks them; arrays are lists, and `int` and `int32_t` are integers.
pub mod Text
pub mod Data
pub mod Access
pub mod Names
pub mod Validate
pub mod Defaults
mod Tests
