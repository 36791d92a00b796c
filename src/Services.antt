-- ===== src/Services.antt =====
-- internal/services: the business rules, over the repositories.
pub mod Auth
pub mod UserAdmin
