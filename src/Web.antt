-- ===== src/Web.antt =====
-- web/src: the browser side of the program.
pub mod Storage
pub mod Errors
pub mod Analytics
pub mod BrowserAnalytics
pub mod Wallet
pub mod X402Client
pub mod X402
pub mod StatusStrip
pub mod VerifyReceipt
pub mod ReceiptVerification
pub mod SummarizeForm
pub mod WalletWidget
pub mod CopyButton
pub mod ReceiptCard
pub mod SmokeTest
mod Tests
