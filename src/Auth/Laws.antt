-- ===== src/Auth/Laws.antt =====
-- Who gets past the middleware, and what a key's scope lets through.
