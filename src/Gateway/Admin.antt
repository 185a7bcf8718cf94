-- ===== src/Gateway/Admin.antt =====
-- The management operations of internal/service: each is a chain of reads, writes and checks on
-- the store that stops at the first error, with the changes made until then kept. An update writes
-- to the stored object itself before it is validated, since the store hands out its pointer.
pub mod Services
pub mod Routes
pub mod Apps
pub mod Rules
pub mod Health
pub mod Checker
pub mod Failures
pub mod ReadBack
pub mod Sound
pub mod Valid
use adaptive_api_routing_gat.Base.{Bool, true, false, Option, none, some, Error, Result, ok, err}
use adaptive_api_routing_gat.Store.Memory.{MemoryStore}

abbrev pub Action : Type 0 → Type 0
Action A = MemoryStore → MemoryStore × Result A

infixl 5 ◌>>=◌ ◌>>◌
abbrev pub ◌>>=◌ : {A B : Type 0} → Action A → (A → Action B) → Action B
◌>>=◌ m k s = elim (m s).1 [ ok a ↦ k a (m s).0 | err e ↦ ((m s).0, err e) ]

abbrev pub ◌>>◌ : {B : Type 0} → Action (Unit {0}) → Action B → Action B
m >> k = m >>= λ _. k

abbrev pub pure : {A : Type 0} → A → Action A
pure a s = (s, ok a)

abbrev pub read : {A : Type 0} → (MemoryStore → Result A) → Action A
read f s = (s, f s)

abbrev pub write : (MemoryStore → Result MemoryStore) → Action (Unit {0})
write f s = elim (f s) [ ok s' ↦ (s', ok tt) | err e ↦ (s, err e) ]

abbrev pub modify : (MemoryStore → MemoryStore) → Action (Unit {0})
modify f s = (f s, ok tt)

-- `if err != nil { return nil, err }`
abbrev pub check : Option Error → Action (Unit {0})
check none s = (s, ok tt)
check (some e) s = (s, err e)

-- `if bad { return nil, e }`
abbrev pub refuse : Bool → Error → Action (Unit {0})
refuse bad e s = (s, elim bad [ true ↦ err e | false ↦ ok tt ])
