-- ===== src/Users.antt =====
-- Staff accounts (src/users): the permissions that a member of staff holds on each branch.
pub mod Grants
mod Tests
