-- ===== src/Store.antt =====
-- internal/store: the in-memory store. The lock makes each method one step. A map holds pointers
-- to the entities: a caller that writes to an entity which a read returned writes to the store,
-- which the `assign` functions say.
pub mod Table
pub mod Memory
pub mod Entities
pub mod Health
pub mod Unique
pub mod Sound
pub mod Interface
