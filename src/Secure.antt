-- ===== src/Secure.antt =====
-- internal/secure/secure.go. The cipher, base64, argon2 and the scanner of `fmt` are parameters.
pub mod Box
pub mod Filled
pub mod Password
pub mod Tests
