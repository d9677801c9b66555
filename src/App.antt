-- ===== src/App.antt =====
-- app/app.go: the module accounts, the override of the fee market at genesis, and the gas of
-- signatures.
pub mod Accounts
pub mod Genesis
pub mod Signature
pub mod AutoCli
pub mod Object
pub mod Tests
