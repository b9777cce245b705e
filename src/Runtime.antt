-- ===== src/Runtime.antt =====
-- The shared helpers of src/aionetx/implementations/asyncio_impl/runtime_utils.py.
pub mod Floats
pub mod RateLimiter
pub mod Backoff
pub mod Guards
mod Tests
