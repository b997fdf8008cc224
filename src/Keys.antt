-- ===== src/Keys.antt =====
-- shared/config.py, shared/crypto.py, shared/keygen.py and scripts/bootstrap_env.py: the keys of the
-- services, from their generation through the environment to the functions that use them.
pub mod Strings
pub mod Pem
pub mod Library
pub mod Loading
pub mod Accessors
pub mod Settings
pub mod Keygen
pub mod Bootstrap
