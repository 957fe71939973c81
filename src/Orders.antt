-- ===== src/Orders.antt =====
-- orders/: the service of orders/orders.service.ts and the transitions of orders/order-status.ts.
pub mod Status
pub mod Totals
pub mod Creation
pub mod Editing
pub mod Lifecycle
