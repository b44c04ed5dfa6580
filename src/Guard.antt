-- ===== src/Guard.antt =====
-- goserver/sentinel_guard.go: the risk evaluation of a prompt and the audit record that is hashed,
-- signed, anchored and appended to the log. The hash and signing tools, the chain client, SHA-256
-- and the file system are not in this repository's Go code: they are the record `Outside`. Each is
-- asked at most a few times in a call, and answers by its arguments.
pub mod Config
pub mod Tags
pub mod Evaluate
pub mod Hash
pub mod Anchor
pub mod Audit
