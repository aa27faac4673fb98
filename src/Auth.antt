-- ===== src/Auth.antt =====
-- internal/auth: `Introspect` is the introspection of a token, `Cache` the cache in front of it, and
-- `Tokens` the three ways in which the program accepts a token.
pub mod Introspect
pub mod Cache
pub mod Tokens
pub mod Samples
