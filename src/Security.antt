-- ===== src/Security.antt =====
-- python-glue/unified_ai/security/: who a request is from, who may do what, and which inputs pass.
pub mod Auth
pub mod Authorization
pub mod Validation
