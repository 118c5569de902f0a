-- ===== src/Queue/Dispatcher/Race.antt =====
-- handleRateLimit and handleAuthError end the job and queue its retry in two statements; the HTTP
-- handler's Enqueue can come between them.
