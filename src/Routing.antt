-- ===== src/Routing.antt =====
-- rustlette/routing.py and rustlette/convertors.py: path patterns, routes, and the router.
pub mod Convertors
pub mod Pattern
pub mod Scope
pub mod Router
pub mod UrlPath
pub mod Lifespan
