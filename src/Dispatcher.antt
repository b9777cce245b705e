-- ===== src/Dispatcher.antt =====
-- The event dispatcher: src/aionetx/implementations/asyncio_impl/event_dispatcher.py,
-- _event_dispatcher_queue.py and _event_dispatcher_policy.py.
pub mod State
pub mod Context
pub mod Queue
pub mod Emit
pub mod Barrier
pub mod Worker
mod Tests
