-- ===== src/Security.antt =====
-- Passwords and the login: src/sha3.c (`Keccak`, `Sha3`), `hash_password` and `authenticate_user` of
-- src/security.c (`Password`), `login` of src/kernel.c (`Login`), and what is proved of them.
pub mod Keccak
pub mod Sha3
pub mod Password
pub mod Digest
pub mod Login
pub mod Attempts
mod Tests
