-- ===== src/Machine.antt =====
-- What the tests run on: the kernel and the C library, which are no part of the repository, as
-- records of calls on an abstract world; and the programs that make such calls.
mod Events
mod Monad
mod Prctl
mod Storage
mod Moving
mod Signalling
mod LargePages
mod Forking
mod Numa
mod Rlimit
mod Disk
mod Threading
mod MissingPages
mod Laws
pub mod Pool
pub use Events.*
pub use Monad.*
pub use Prctl.*
pub use Storage.*
pub use Moving.*
pub use Signalling.*
pub use LargePages.*
pub use Forking.*
pub use Numa.*
pub use Rlimit.*
unfoldable pub use Threading.*
pub use MissingPages.*
pub use Laws.*
pub use Disk.*
