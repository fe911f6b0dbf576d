-- ===== src/App.antt =====
-- app/app.go: how `Run` puts the chains together and what their registration means for the API.
pub mod Contracts
pub mod Domains
pub mod Delivery
pub mod Served
pub mod Routing
