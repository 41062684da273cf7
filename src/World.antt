-- ===== src/World.antt =====
-- What a request runs on: the tables of the database, the cache and the commands sent to S3, with
-- the monad of a service method. Prisma, the cache manager and S3 are parameters of the model.
mod State
mod Monad
mod CacheManager
mod Tables
pub mod Memory
pub mod Keeps
pub mod Preserves
pub use CacheManager.*
pub use State.*
pub use Monad.*
unfoldable pub use Tables.*
