-- ===== src/Pagination.antt =====
-- apps/server/src/lib/pagination.ts with the query of the lists, such as that of
-- apps/server/src/routes/v1/deliveries.ts (`Pages`), and what a client that follows the cursors sees.
pub mod Pages
pub mod Coverage
mod Tests
