-- ===== src/Emails.antt =====
-- The e-mails beside the transactions of the bank: registration and the verification of addresses,
-- and the reports of the e-mail provider.
pub mod Reports
pub mod Verification
