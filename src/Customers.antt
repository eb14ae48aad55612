-- ===== src/Customers.antt =====
-- Api/src/modules/customers: the customers, their KYC status and the masking of what is read.
pub mod Store
pub mod Read
pub mod Create
pub mod Update
pub mod Hiding
pub mod Versions
pub mod States
