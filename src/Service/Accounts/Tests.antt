-- ===== src/Service/Accounts/Tests.antt =====
-- What the requests of Service/Tests.antt leave on record.

