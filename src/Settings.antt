-- ===== src/Settings.antt =====
-- The validation of the settings: src/aionetx/api/_validation.py and the `validate` methods of the
-- settings' dataclasses.
pub mod Values
pub mod Delivery
pub mod Transports
pub mod Rejection
pub mod Clients
pub mod Acceptance
mod Tests
