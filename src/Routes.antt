-- ===== src/Routes.antt =====
-- The HTTP endpoints of the data-processing service, as functions from a request's arguments and the
-- world to a response: data-processing-service/app/routes.
pub mod Trigger
pub mod Amounts
pub mod Lists
pub mod Records
pub mod History
pub mod Reports
pub mod Runs
pub mod Exceptions
pub mod Health
pub mod Errors
pub mod Table
