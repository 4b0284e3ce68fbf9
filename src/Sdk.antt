-- ===== src/Sdk.antt =====
-- The TypeScript SDK, sdk/typescript/src.
pub mod Types
pub mod Url
pub mod Payment
pub mod Base64
pub mod Receipts
pub mod Microai
pub mod Client
mod Tests
