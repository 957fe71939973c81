-- ===== src/Lib.antt =====
-- A verification library of the RestoSync API, the back end of a restaurant's point of sale: orders
-- with their items and modifiers, the cash register, payments, the stock, reservations, the tables
-- and zones of the floor, the reports, and the subscription that the restaurant itself pays.
--
-- The services work on one database and call each other. OrdersService prices a line by
-- ModifiersService.resolveSelections, and tells the sockets by RealtimeGateway. PaymentsService
-- confirms an order and frees its table, attaches the payment to the session that
-- CashRegisterService has opened, and takes what was sold off the stock by InventoryService.
-- ReservationsService reserves and releases tables, and opens orders by OrdersService.
--
-- Schema          prisma/schema.prisma: the enums and the rows that the modelled services use
-- Prisma          the client that Prisma generates, as a parameter with its laws
-- World           the state (the database's tables, what was sent and logged, the clock), the
--                 effects of a method, in its children the rules for reasoning on methods, and in
--                 Removal what the foreign keys do when tables are deleted
-- Memory          a database in memory that satisfies the laws, for the tests
-- Realtime        src/realtime/realtime.gateway.ts: the emits
-- Modifiers       src/menu/modifiers.service.ts: resolveSelections; Editing is the editing of groups
-- Menu            src/menu/: Categories is categories.service.ts, Items is menu-items.service.ts with
--                 the pages of src/common/dto/pagination-query.dto.ts
-- TenantGuard     src/common/prisma-tenant-guard.extension.ts
-- Names           src/common/utils/normalize-name.ts: names that count as the same
-- Zones           src/zones/zones.service.ts; Codes is about the numbers that it chooses
-- Tables          src/tables/tables.service.ts
-- Csv             src/common/utils/csv.ts, and a reader that is independent of it
-- Reports         src/reports/reports.service.ts
-- Billing         src/billing/billing.service.ts
-- Orders          src/orders/: Status is order-status.ts; Creation, Totals, Editing and Lifecycle
--                 are orders.service.ts
-- Inventory       src/inventory/inventory.service.ts
-- Reservations    src/reservations/reservations.service.ts: create, confirm, seat, noShow, cancel
-- CashRegister    src/cash-register/cash-register.service.ts; Till is its abstract view
-- Payments        src/payments/payments.service.ts: createIntent, checkout, handleWebhook
-- Base            names, lists, integers, doubles and dictionaries that the modules share
-- Tests           a small restaurant, on which the code runs and the theorems are applied
--
-- A method of a service is an action `World → Outcome A`: it returns a value or throws, in either
-- case with the world as it is then. What was written before a throw stays written, but for a
-- transaction, which gives back the world in which it began. One method runs at a time; requests
-- that interleave between two calls of the database are not modelled.
--
-- Ids are natural numbers, dates are milliseconds, and money is an integer without the
-- bound of int4. A quantity of stock is a double, of which only the bits are known. A map of
-- JavaScript is an association list. Names are lists of code units. Loops run over lists, but for the search of an unused number, which has one round more than there are
-- numbers in use, and so ends by its test. A field of a request is missing or has a value; null is
-- told from a missing one only in the changes of menu items. Parameters are: the database client,
-- whose laws are those of find, create, update and delete by id; the aggregations of the reports;
-- the tax rounding and the averages, which compute with floats; the arithmetic on doubles, with the
-- laws of `Math.max` where a theorem needs them; the mapping of case; the order number; the conversion of local time; the payment gateway; the verification of Stripe's events;
-- and whether an emit to the sockets goes through. The checks of the
-- request's shape by class-validator come before the methods and are not modelled.
--
-- Not modelled: users and authentication, the paginated lists but for that of the menu,
-- configuration, controllers and the HTTP server; and the unique constraints of the database, which
-- the services check for themselves. Of the foreign keys, those are modelled that a deletion meets:
-- the database refuses it, deletes the rows that refer to the deleted one, or sets their column to
-- NULL.
pub mod Base
pub mod Schema
pub mod Prisma
pub mod World
pub mod Memory
pub mod Names
pub mod Zones
pub mod Csv
pub mod Billing
pub mod Menu
pub mod TenantGuard
pub mod Reports
pub mod Tables
pub mod Realtime
pub mod Modifiers
pub mod Orders
pub mod Inventory
pub mod CashRegister
pub mod Payments
pub mod Reservations
pub mod Tests
