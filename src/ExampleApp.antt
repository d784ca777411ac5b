-- ===== src/ExampleApp.antt =====
-- example-app/main.py: the application's own rate limiter, and those of its endpoints that work on the
-- components of the packages. An endpoint is a method on the state of its components; it answers with
-- the body that it returns, or with an `HTTPException`, and what it does not catch it raises.
pub mod SimpleLimiter
pub mod Limits
pub mod Orders
pub mod Payments
pub mod Media
mod Tests
use kit_api_optimization.Prelude.{ℕ}

-- the status code and the detail of an exception, or the body
pub data Answer (D A : Type 0) : Type 0 where
  http : ℕ → D → Answer D A
  returned : A → Answer D A
