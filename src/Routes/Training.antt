-- ===== src/Routes/Training.antt =====
-- app/api/routes/training.py
pub mod Employees
pub mod Courses
pub mod Records
pub mod Requests
pub mod Effects
pub mod Scope
pub mod RecordEffects
