-- ===== src/Handler.antt =====
-- The HTTP side, handler/, and the contexts of requests, common/.
pub mod HttpResult
pub mod GrpcBoundary
pub mod Disclosure
pub mod Forwarding
pub mod Amazon
pub mod Dto
pub mod Context
pub mod UserInfo
pub mod Page
