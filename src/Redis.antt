-- ===== src/Redis.antt =====
-- The Redis server as its clients rely on it. Redis is not part of the repository, so each component
-- takes it as a parameter: a record of the commands that the component sends, with the documented
-- behaviour of each as a law. `Redis.Memory` shows that the laws can be met.
pub mod Persistent
pub mod Expiring
pub mod Sorted
pub mod Queues
pub mod Logs
pub mod Client
pub mod Memory
