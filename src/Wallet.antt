-- ===== src/Wallet.antt =====
-- wallet/wallet.go: the keys of a node.
pub mod Keystore
pub mod Transfers
pub mod Signing
